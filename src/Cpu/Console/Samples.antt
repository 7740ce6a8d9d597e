-- ===== src/Cpu/Console/Samples.antt =====
-- A system with an empty disk and no input, for tests.
use ten_os.Cpu.Console.{System}
use ten_os.Drivers.Keyboard.Ring.{IsValid}
use ten_os.Prelude.{ℕ, [], replicate, length-replicate, false, arith}

abbrev pub idle : System
idle = record {
  volume = record {
    mount_info = record {
      fat_start = 1;
      root_start = 19;
      root_size = 14;
      data_start = 33;
      sectors_per_fat = 9;
      bytes_per_sector = 512;
      sectors_per_cluster = 1;
      root_entries = 224;
      fat_buffer = λ j. 0;
    };
    sector_buffer = λ j. 0;
    disk = λ lba j. 0;
  };
  vmm = record {
    pmm = record { mem_mngr = λ i. 3; max_blocks = 64; used_blocks = 2; size = 256 };
    ram = λ i. 0;
    cur_directory = 0xC0001000;
    cur_pdbr = 0x1000;
  };
  keyboard = record {
    input_buffer = replicate 256 0;
    read_pos = 0;
    write_pos = 0;
    line_buffer = replicate 256 0;
    line_pos = 0;
    shift_pressed = false;
    ctrl_pressed = false;
    alt_pressed = false;
    caps_lock = false;
  };
  current_level = 1;
  output = [];
  behind = [];
}

pub idle-IsValid : IsValid idle.keyboard
idle-IsValid = record {
  input_size = length-replicate {A = ℕ} 256 0;
  line_size = length-replicate {A = ℕ} 256 0;
  read_in = omega arith;
  write_in = omega arith;
  line_in = omega arith;
}
