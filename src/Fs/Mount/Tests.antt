-- ===== src/Fs/Mount/Tests.antt =====
-- A drive with a table of one sector, and the witness of the theorem on `fat12_init`.
use ten_os.Fs.Mount.{fat12_type, fat12_init}
use ten_os.Fs.Mount.Loaded.{IsMounted, fat12_init_lem}
use ten_os.Fs.Volume.{MountInfo, Volume}
use ten_os.Mm.Memory.{alloc_memory_block, mmap_first_free, scan_words, scan_bits}
use ten_os.Mm.Paging.{Vmm, vmmngr_alloc_page}
use ten_os.Prelude.{
  some, ap, ℕ, ◌+◌, ◌-◌, ◌≡◌, ◌≢◌, ◌==◌, refl, true, if◌then◌else◌, ltb, leb, ◌&&◌, get_or, arith,
}

-- A boot sector: 512 bytes to a sector, the table from sector 1 on, one sector of it.
abbrev boot_sector : ℕ → ℕ
boot_sector j =
    if j == 12
    then 2
    else if j == 14
    then 1
    else if j == 22
    then 1
    else if leb 54 j && ltb j 62
    then get_or fat12_type (j - 54) 0
    else 0

abbrev blank : MountInfo
blank = record {
  fat_start = 0;
  root_start = 0;
  root_size = 0;
  data_start = 0;
  sectors_per_fat = 0;
  bytes_per_sector = 0;
  sectors_per_cluster = 0;
  root_entries = 0;
  fat_buffer = λ j. 0;
}

abbrev volume : Volume
volume = record {
  mount_info = blank;
  sector_buffer = λ j. 0;
  disk = λ lba. if lba == 0 then boot_sector else (λ j. lba);
}

-- Block 0 is used, and the others are free.
abbrev vmm : Vmm
vmm = record {
  pmm = record { mem_mngr = λ i. 1; max_blocks = 32; used_blocks = 1; size = 128 };
  ram = λ i. 0;
  cur_directory = 0xC0100000;
  cur_pdbr = 0x100000;
}

type_byte : (j : ℕ) → get_or fat12_type (54 + j - 54) 0 ≡ get_or fat12_type j 0
type_byte j = ap (λ i. get_or fat12_type i 0) (omega arith)

page-run : (vmmngr_alloc_page vmm).0 ≡ 0xC0001000
unfolding vmmngr_alloc_page alloc_memory_block mmap_first_free scan_words scan_bits
page-run = refl

a_page : (vmmngr_alloc_page vmm).0 ≢ 0
a_page e = omega (arith, page-run)

fat12_init_lem_example :
    (v' : Volume) × (fat12_init (λ j. 0) volume vmm ≡ some (true, v', (vmmngr_alloc_page vmm).1))
    × IsMounted (λ j. 0) volume v'
fat12_init_lem_example =
    fat12_init_lem (λ j. 0) volume vmm (λ j h. ground (arith, type_byte j)) (λ e. omega arith)
      (omega arith) a_page
