-- ===== src/Fs/Create/Samples.antt =====
-- A directory with one file and a free cluster, for tests.
use ten_os.Fs.Create.Sync.{IsLaidOut}
use ten_os.Fs.Create.Made.{IsNew, new_file}
use ten_os.Fs.Directory.{is_same}
use ten_os.Fs.Directory.Slots.{ends_or_has}
use ten_os.Fs.File.{File}
use ten_os.Fs.Name.{to_dos_filename, to_upper, copy_name, skip_to_dot, copy_extension, after_name}
use ten_os.Fs.Table.{find_free_cluster, find_free_from, get_next_cluster}
use ten_os.Fs.Table.Entries.{IsBytes}
use ten_os.Fs.Volume.{Volume}
use ten_os.Mm.Memory.{alloc_memory_block, mmap_first_free, mmap_set, scan_words, scan_bits}
use ten_os.Mm.Paging.{Vmm, map_in_table, vmmngr_map_page, vmmngr_alloc_page}
use ten_os.Util.{memcmp}
use ten_os.Prelude.{
  ℕ, zero, suc, ◌≤◌, ◌<◌, ◌≡◌, ◌≢◌, refl, List, [], ◌∷◌, false, get_or, if◌then◌else◌, ◌==◌, arith,
}

-- "A       TXT", attributes, time stamps, cluster 2 and 100 bytes.
abbrev a_entry : List ℕ
a_entry =
    65 ∷ 32 ∷ 32 ∷ 32 ∷ 32 ∷ 32 ∷ 32 ∷ 32 ∷ 84 ∷ 88 ∷ 84 ∷ 32 ∷ 0 ∷ 0 ∷ 0 ∷ 0 ∷ 0 ∷ 0 ∷ 0 ∷ 0 ∷ 0
    ∷ 0 ∷ 0 ∷ 0 ∷ 0 ∷ 0 ∷ 2 ∷ 0 ∷ 100 ∷ 0 ∷ 0 ∷ 0 ∷ []

-- "a.txt" and "b.txt"
abbrev pub a_txt : List ℕ
a_txt = 97 ∷ 46 ∷ 116 ∷ 120 ∷ 116 ∷ []

abbrev pub b_txt : List ℕ
b_txt = 98 ∷ 46 ∷ 116 ∷ 120 ∷ 116 ∷ []

-- Cluster 2 is the last of a file.
abbrev table : List ℕ
table = 0 ∷ 0 ∷ 0 ∷ 255 ∷ 15 ∷ []

abbrev pub volume : Volume
volume = record {
  mount_info = record {
    fat_start = 1;
    root_start = 3;
    root_size = 1;
    data_start = 4;
    sectors_per_fat = 1;
    bytes_per_sector = 512;
    sectors_per_cluster = 1;
    root_entries = 16;
    fat_buffer = λ j. get_or table j 0;
  };
  sector_buffer = λ j. 0;
  disk = λ lba j. if lba == 3 then get_or a_entry j 0 else 0;
}

-- Block 0 is used, and the others are free.
abbrev pub vmm : Vmm
vmm = record {
  pmm = record { mem_mngr = λ i. 1; max_blocks = 32; used_blocks = 1; size = 128 };
  ram = λ i. 0;
  cur_directory = 0xC0100000;
  cur_pdbr = 0x100000;
}

page-run : (vmmngr_alloc_page vmm).0 ≡ 0xC0001000
unfolding vmmngr_alloc_page alloc_memory_block mmap_first_free scan_words scan_bits
page-run = refl

pub a_page : (vmmngr_alloc_page vmm).0 ≢ 0
a_page e = omega (arith, page-run)

pub laid : IsLaidOut volume.mount_info
laid = record { tables = omega arith; directory = omega arith; clusters = omega arith }

pub bytes : IsBytes volume.mount_info.fat_buffer
bytes zero = omega arith
bytes (suc zero) = omega arith
bytes (suc (suc zero)) = omega arith
bytes (suc (suc (suc zero))) = omega arith
bytes (suc (suc (suc (suc zero)))) = omega arith
bytes (suc (suc (suc (suc (suc j))))) = omega arith

free-run : find_free_cluster volume.mount_info.fat_buffer ≡ 3
unfolding find_free_cluster find_free_from get_next_cluster
free-run = refl

pub a_cluster : find_free_cluster volume.mount_info.fat_buffer ≢ 0
a_cluster e = omega (arith, free-run)

pub new : IsNew b_txt volume 1
unfolding to_dos_filename to_upper copy_name skip_to_dot copy_extension after_name memcmp is_same
new = record { least = (omega arith, omega arith, refl, first); ended = refl }
  where
    first : (j : ℕ) → 0 ≤ j → j < 1 → ends_or_has volume (to_dos_filename b_txt) j ≡ false
    first zero p q = refl
    first (suc j) p q = absurd (omega arith)

-- The file that is there.
abbrev pub a_file : File
a_file = new_file a_txt 2 100

-- Every table is there.
abbrev pub tables : Vmm
tables = record vmm { ram = λ i. 1 }

pub first_page-run : (vmmngr_alloc_page tables).0 ≡ 0xC0001000
unfolding vmmngr_alloc_page alloc_memory_block mmap_first_free scan_words scan_bits
first_page-run = refl

pub second_page-run : (vmmngr_alloc_page (vmmngr_alloc_page tables).1).0 ≡ 0xC0002000
unfolding vmmngr_alloc_page vmmngr_map_page map_in_table alloc_memory_block mmap_first_free
    scan_words scan_bits mmap_set
second_page-run = refl
