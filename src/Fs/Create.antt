-- ===== src/Fs/Create.antt =====
-- fat12_create and sync_fat of fs/fs.c.
pub mod Sync
mod Fill
mod Entry
pub mod Made
pub mod Opens
pub mod Failure
pub mod Contents
pub mod Samples
mod Tests
use ten_os.Mm.Paging.{Vmm}
use ten_os.Fs.Volume.{Volume, read_sector, write_sector}
use ten_os.Fs.Table.{store_u16, allocate_clusters}
use ten_os.Fs.Directory.{attr_archive, store_u32, fat12_open, find_free_dir_entry}
use ten_os.Fs.Name.{to_dos_filename}
use ten_os.Util.{memcpy}
use ten_os.Word.{u32}
use ten_os.Prelude.{
  ℕ, zero, suc, ◌+◌, ◌*◌, ◌/◌, List, none, some, Bool, true, false, get_or, update,
}

-- The loop of `sync_fat`, from sector `i` of the table on.
pub sync_from : ℕ → ℕ → Volume → Volume
sync_from zero i v = v
sync_from (suc left) i v =
    let m = v.mount_info in
    let bytes : ℕ → ℕ = λ j. m.fat_buffer (i * 512 + j) in
    let v' = write_sector v (u32 (m.fat_start + i)) bytes in
    sync_from left (i + 1) (write_sector v' (u32 (m.fat_start + m.sectors_per_fat + i)) bytes)

unfoldable pub sync_fat : Volume → Volume
unfolding sync_from
sync_fat v = sync_from v.mount_info.sectors_per_fat 0 v

-- The writes to `entries[dir_index]` in `fat12_create`.
pub fill_entry : (ℕ → ℕ) → ℕ → List ℕ → ℕ → ℕ → ℕ → ℕ
fill_entry buf i dos_name first_cluster size =
    let named = memcpy buf (32 * i) (λ j. get_or dos_name j 0) 0 11 in
    let attributed = update named (32 * i + 11) attr_archive in
    store_u32 (store_u16 attributed (32 * i + 26) first_cluster) (32 * i + 28) size

-- The end of `fat12_create`, from the call of `sync_fat` on.
pub write_entry : ℕ → ℕ → List ℕ → ℕ → ℕ → Volume → Volume
unfolding fill_entry
write_entry dir_sector dir_index dos_name first_cluster size v =
    let lba = u32 (v.mount_info.root_start + dir_sector) in
    let synced = read_sector (sync_fat v) lba in
    let buf = fill_entry synced.sector_buffer dir_index dos_name first_cluster size in
    write_sector (record synced { sector_buffer = buf }) lba buf

-- The middle of `fat12_create`: the clusters for the file. True for 0, false for -1.
pub create_at : ℕ → ℕ → List ℕ → ℕ → Volume → Bool × Volume
unfolding write_entry
create_at dir_sector dir_index dos_name size v =
    let needed = u32 (size + 511) / 512 in
    let (fat, first) = allocate_clusters needed 0 needed v.mount_info.fat_buffer 0 0 in
    let v' = record v { mount_info = record v.mount_info { fat_buffer = fat } } in
    elim first [
      | none ↦ (false, v')
      | some cluster ↦ (true, write_entry dir_sector dir_index dos_name cluster size v')
    ]

unfoldable pub fat12_create : List ℕ → ℕ → Volume → Vmm → Bool × Volume × Vmm
unfolding create_at
fat12_create filename size v vm =
    let (existing, v', vm') = fat12_open filename v vm in
    elim existing [
      | some file ↦ (false, v', vm')
      | none ↦
          let (place, v'') = find_free_dir_entry v' in
          elim place [
            | none ↦ (false, v'', vm')
            | some at ↦
                let (done, w) = create_at at.0 at.1 (to_dos_filename filename) size v'' in
                (done, w, vm')
          ]
    ]
