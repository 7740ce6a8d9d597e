-- ===== src/Fs/Directory.antt =====
-- The root directory of fs/fs.c: sectors of 16 entries of 32 bytes. A field of an entry is read
-- from the bytes of `sector_buffer` at its offset in the packed struct.
pub mod Sectors
pub mod Slots
pub mod Free
pub mod Same
mod Tests
use ten_os.Mm.Paging.{Vmm, vmmngr_alloc_page}
use ten_os.Fs.Volume.{Volume, read_sector}
use ten_os.Fs.Table.{load_u16, store_u16}
use ten_os.Fs.Name.{to_dos_filename}
use ten_os.Fs.File.{File}
use ten_os.Util.{memcmp, Comparison, less, same, more}
use ten_os.Word.{u32}
use ten_os.Prelude.{
  ℕ, zero, suc, ◌+◌, ◌-◌, ◌*◌, ◌/◌, ◌%◌, ◌^◌, List, Option, none, some, Bool, true, false, ltb,
  ◌==◌, ◌||◌, not, if◌then◌else◌, get_or, update,
}

abbrev pub attr_archive : ℕ
attr_archive = 0x20

-- The value of a `char`, which is signed, as an `int` of 32 bits.
abbrev pub char_int : ℕ → ℕ
char_int c = if ltb c 128 then c else c + 2 ^ 32 - 256

abbrev pub load_u32 : (ℕ → ℕ) → ℕ → ℕ
load_u32 mem at = load_u16 mem at + 2 ^ 16 * load_u16 mem (at + 2)

abbrev pub store_u32 : (ℕ → ℕ) → ℕ → ℕ → ℕ → ℕ
store_u32 mem at v = store_u16 (store_u16 mem at (v % 2 ^ 16)) (at + 2) (v / 2 ^ 16 % 2 ^ 16)

-- The first byte of `entries[i].filename`, and the fields behind it.
abbrev pub filename_0 : (ℕ → ℕ) → ℕ → ℕ
filename_0 buf i = buf (32 * i)

abbrev pub entry_attributes : (ℕ → ℕ) → ℕ → ℕ
entry_attributes buf i = buf (32 * i + 11)

abbrev pub entry_first_cluster : (ℕ → ℕ) → ℕ → ℕ
entry_first_cluster buf i = load_u16 buf (32 * i + 26)

abbrev pub entry_file_size : (ℕ → ℕ) → ℕ → ℕ
entry_file_size buf i = load_u32 buf (32 * i + 28)

-- `memcmp(entries[i].filename, dos_name, 11) == 0`
unfoldable pub is_same : Comparison → Bool
is_same less = false
is_same same = true
is_same more = false

abbrev pub has_name : (ℕ → ℕ) → ℕ → List ℕ → Bool
has_name buf i dos_name = is_same (memcmp buf (32 * i) (λ j. get_or dos_name j 0) 0 11)

-- How the loop over a sector's entries ends in `fat12_open`.
pub data Scan : Type 0 where
  return_null : Scan
  found : ℕ → Scan
  next_sector : Scan

unfoldable pub scan_entries : ℕ → ℕ → (ℕ → ℕ) → List ℕ → Scan
scan_entries zero i buf dos_name = next_sector
scan_entries (suc left) i buf dos_name =
    let rest = scan_entries left (i + 1) buf dos_name in
    if char_int (filename_0 buf i) == 0x00
    then return_null
    else if char_int (filename_0 buf i) == 0xE5
    then rest
    else if has_name buf i dos_name
    then found i
    else rest

-- The loop over the 16 entries of a sector.
unfoldable pub scan_sector : (ℕ → ℕ) → List ℕ → Scan
unfolding scan_entries
scan_sector buf dos_name = scan_entries 16 0 buf dos_name

-- The handle of entry `i`.
abbrev pub entry_file : List ℕ → (ℕ → ℕ) → ℕ → File
entry_file filename buf i = record {
  name = filename;
  first_cluster = entry_first_cluster buf i;
  current_cluster = entry_first_cluster buf i;
  file_size = entry_file_size buf i;
  position = 0;
  attributes = entry_attributes buf i;
  eof = 0;
}

-- The handle in a page of its own, none when there is no page.
unfoldable pub open_entry : List ℕ → ℕ → Volume → Vmm → Option File × Volume × Vmm
open_entry filename i v vm =
    let (page, vm') = vmmngr_alloc_page vm in
    (if page == 0 then none else some (entry_file filename v.sector_buffer i), v, vm')

-- The loop over the sectors, with those that are left.
unfoldable pub open_sectors : ℕ → ℕ → List ℕ → List ℕ → Volume → Vmm → Option File × Volume × Vmm
open_sectors zero sector filename dos_name v vm = (none, v, vm)
open_sectors (suc left) sector filename dos_name v vm =
    let v' = read_sector v (u32 (v.mount_info.root_start + sector)) in
    let rest = open_sectors left (sector + 1) filename dos_name v' vm in
    elim (scan_sector v'.sector_buffer dos_name) [
      | return_null ↦ (none, v', vm)
      | found i ↦ open_entry filename i v' vm
      | next_sector ↦ rest
    ]

unfoldable pub fat12_open : List ℕ → Volume → Vmm → Option File × Volume × Vmm
unfolding open_sectors
fat12_open filename v vm =
    open_sectors v.mount_info.root_size 0 filename (to_dos_filename filename) v vm

-- The loop over a sector's entries in `find_free_dir_entry`.
pub free_entry_from : ℕ → ℕ → (ℕ → ℕ) → Option ℕ
free_entry_from zero i buf = none
free_entry_from (suc left) i buf =
    let rest = free_entry_from left (i + 1) buf in
    if char_int (filename_0 buf i) == 0x00 || char_int (filename_0 buf i) == 0xE5
    then some i
    else rest

pub free_entry_sectors : ℕ → ℕ → Volume → Option (ℕ × ℕ) × Volume
unfolding free_entry_from
free_entry_sectors zero sector v = (none, v)
free_entry_sectors (suc left) sector v =
    let v' = read_sector v (u32 (v.mount_info.root_start + sector)) in
    let rest = free_entry_sectors left (sector + 1) v' in
    elim (free_entry_from 16 0 v'.sector_buffer) [ none ↦ rest | some i ↦ (some (sector, i), v') ]

-- `*sector_out` and `*index_out`, none for the null pointer.
unfoldable pub find_free_dir_entry : Volume → Option (ℕ × ℕ) × Volume
unfolding free_entry_sectors
find_free_dir_entry v = free_entry_sectors v.mount_info.root_size 0 v
