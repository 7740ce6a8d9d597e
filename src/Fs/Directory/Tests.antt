-- ===== src/Fs/Directory/Tests.antt =====
-- A directory with one file, and the witness of the theorem on `fat12_open`.
use ten_os.Fs.Directory.{is_same, scan_entries, scan_sector, found, return_null, fat12_open}
use ten_os.Fs.Directory.Slots.{Opens, fat12_open-Opens}
use ten_os.Fs.Name.{to_dos_filename}
use ten_os.Fs.Volume.{Volume}
use ten_os.Mm.Paging.{Vmm}
use ten_os.Util.{memcmp}
use ten_os.Prelude.{ℕ, List, [], ◌∷◌, ◌≡◌, refl, ◌*◌, ◌-◌, get_or, if◌then◌else◌, ltb}

-- "A       TXT", "B       TXT", and a name that no entry has.
abbrev a_dos : List ℕ
a_dos = 65 ∷ 32 ∷ 32 ∷ 32 ∷ 32 ∷ 32 ∷ 32 ∷ 32 ∷ 84 ∷ 88 ∷ 84 ∷ []

abbrev b_dos : List ℕ
b_dos = 66 ∷ 32 ∷ 32 ∷ 32 ∷ 32 ∷ 32 ∷ 32 ∷ 32 ∷ 84 ∷ 88 ∷ 84 ∷ []

-- "b.txt"
abbrev b_txt : List ℕ
b_txt = 98 ∷ 46 ∷ 116 ∷ 120 ∷ 116 ∷ []

abbrev two_files : ℕ → ℕ
two_files j = if ltb j 32 then get_or a_dos j 0 else get_or b_dos (j - 32) 0

second-run : scan_sector two_files b_dos ≡ found 1
unfolding scan_sector scan_entries memcmp is_same
second-run = refl

absent-run : scan_sector two_files [] ≡ return_null
unfolding scan_sector scan_entries memcmp is_same
absent-run = refl

abbrev volume : Volume
volume = record {
  mount_info = record {
    fat_start = 112;
    root_start = 136;
    root_size = 32;
    data_start = 168;
    sectors_per_fat = 12;
    bytes_per_sector = 512;
    sectors_per_cluster = 1;
    root_entries = 512;
    fat_buffer = λ j. 0;
  };
  sector_buffer = λ j. 0;
  disk = λ lba. two_files;
}

abbrev vmm : Vmm
vmm = record {
  pmm = record { mem_mngr = λ i. 0; max_blocks = 1024; used_blocks = 0; size = 4096 };
  ram = λ i. 0;
  cur_directory = 0xC0100000;
  cur_pdbr = 0x100000;
}

fat12_open-Opens_example :
    Opens b_txt
      (to_dos_filename b_txt)
      volume
      vmm
      0
      (16 * volume.mount_info.root_size)
      (fat12_open b_txt volume vmm)
fat12_open-Opens_example = fat12_open-Opens b_txt volume vmm
