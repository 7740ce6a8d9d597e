-- ===== src/Cpu/Gdt.antt =====
-- cpu/gdt.c: the descriptor of the task state segment and the segment itself. The output on the
-- screen and the loading of the task register are left out.
pub mod Fields
mod Tests
use ten_os.Word.{u8, u16, ◌>>>◌}
use ten_os.Prelude.{ℕ, ◌+◌, ◌-◌, ◌*◌, ◌/◌, ◌%◌, ◌^◌, bit_and, ◌==◌, update}

-- gdt_entry_t
pub record GdtEntry : Type 0 where
  pub limit_low : ℕ
  pub base_low : ℕ
  pub base_middle : ℕ
  pub access : ℕ
  pub limit_high : ℕ
  pub flags : ℕ
  pub base_high : ℕ

abbrev pub data_seg : ℕ
data_seg = 0x10

-- tss_entry_t: the fields that `tss_init` sets, and the others as one function from their number.
pub record TssEntry : Type 0 where
  pub esp0 : ℕ
  pub ss0 : ℕ
  pub iomap_base : ℕ
  pub others : ℕ → ℕ

abbrev pub sizeof_tss : ℕ
sizeof_tss = 104

pub gdt_set_tss : ℕ → ℕ → (ℕ → GdtEntry) → ℕ → GdtEntry
gdt_set_tss base limit gdt = update gdt 5 (record {
  base_low = u16 (bit_and base 0xFFFF);
  base_middle = u8 (bit_and (base >>> 16) 0xFF);
  base_high = u8 (bit_and (base >>> 24) 0xFF);
  limit_low = u16 (bit_and limit 0xFFFF);
  limit_high = bit_and (limit >>> 16) 0x0F % 2 ^ 4;
  access = 0x89;
  flags = 0x00;
})

-- `tss` is the address of the segment.
pub tss_init : ℕ → ℕ → (ℕ → GdtEntry) → TssEntry × (ℕ → GdtEntry)
tss_init tss kernel_stack gdt = (
  record { esp0 = kernel_stack; ss0 = data_seg; iomap_base = sizeof_tss; others = λ n. 0 },
  gdt_set_tss tss (sizeof_tss - 1) gdt,
)
