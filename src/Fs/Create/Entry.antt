-- ===== src/Fs/Create/Entry.antt =====
-- The root directory behind `write_entry`: one entry is new, and the others stay.
use ten_os.Fs.Create.{write_entry, fill_entry, sync_fat}
use ten_os.Fs.Create.Sync.{
  IsLaidOut, write_sector_other, write_sector_self, mount_info-sync_fat, sync_fat_behind,
}
use ten_os.Fs.Create.Fill.{
  fill_entry_outside, has_name-fill_entry, entry_attributes-fill_entry,
  entry_first_cluster-fill_entry, entry_file_size-fill_entry, filename_0-fill_entry,
}
use ten_os.Fs.Directory.{attr_archive, filename_0, entry_file}
use ten_os.Fs.Directory.Slots.{slot_sector, ends_or_has}
use ten_os.Fs.Directory.Sectors.{sector_bytes, stops_at-ext, entry_file-ext}
use ten_os.Fs.Volume.{Volume, read_sector, write_sector}
use native.Mathlib.Decide.{ℕ_discrete}
use ten_os.Word.{u32}
use ten_os.Prelude.{
  ℕ, ◌+◌, ◌*◌, ◌/◌, ◌%◌, ◌^◌, ◌≤◌, ◌<◌, ◌≡◌, ◌≢◌, refl, ap, ◌∙◌, List, true, get_or, arith,
}

module _ (v : Volume) (k : ℕ) (dos_name : List ℕ) (cluster size : ℕ) (laid : IsLaidOut v.mount_info)
    (inside : k < 16 * v.mount_info.root_size) where
  abbrev lba : ℕ
  lba = u32 (v.mount_info.root_start + k / 16)

  abbrev written : Volume
  written = write_entry (k / 16) (k % 16) dos_name cluster size v

  abbrev buffered : ℕ → ℕ
  buffered = (read_sector (sync_fat v) lba).sector_buffer

  pub mount_info-write_entry : written.mount_info ≡ v.mount_info
  unfolding write_entry read_sector write_sector
  mount_info-write_entry = mount_info-sync_fat v

  lba_behind : v.mount_info.root_start ≤ lba
  lba_behind = omega (arith, laid.directory, laid.clusters)

  buffered_bytes : (j : ℕ) → j < 512 → buffered j ≡ v.disk lba j
  buffered_bytes j bound =
      sector_bytes (sync_fat v) lba j bound
      ∙ ap (λ (f : ℕ → ℕ). f j) (sync_fat_behind v lba laid lba_behind)

  written_sector :
      (j : ℕ) → j < 512 → written.disk lba j ≡ fill_entry buffered (k % 16) dos_name cluster size j
  unfolding write_entry
  written_sector j bound = write_sector_self _ lba j _ bound

  written_other :
      (other : ℕ)
      → v.mount_info.root_start ≤ other
      → lba ≢ other
      → written.disk other ≡ v.disk other
  unfolding write_entry
  written_other other behind apart =
      write_sector_other _ lba other _ apart
      ∙ (unfold read_sector in sync_fat_behind v other laid behind)

  -- A byte outside the new entry.
  slot_byte :
      (b j : ℕ)
      → b ≢ k
      → b < 16 * v.mount_info.root_size
      → 32 * (b % 16) ≤ j
      → j < 32 * (b % 16) + 32
      → slot_sector written b j ≡ slot_sector v b j
  slot_byte b j apart bound low high =
      rw mount_info-write_entry (elim (ℕ_discrete (b / 16) (k / 16)) [
        | yes same ↦
            rw (slot_sector, same)
              (written_sector j (omega arith)
                ∙ fill_entry_outside buffered (k % 16) dos_name cluster size j (ground arith)
                ∙ buffered_bytes j (omega arith))
        | no other ↦
            let numbers : lba ≢ u32 (v.mount_info.root_start + b / 16) =
              λ e. other (omega (arith, laid.directory, laid.clusters)) in
            ap (λ (f : ℕ → ℕ). f j)
              (written_other (u32 (v.mount_info.root_start + b / 16))
                (omega (arith, laid.directory, laid.clusters)) numbers)
      ])

  pub ends_or_has_others :
      (name : List ℕ) (b : ℕ)
      → b ≢ k
      → b < 16 * v.mount_info.root_size
      → ends_or_has written name b ≡ ends_or_has v name b
  ends_or_has_others name b apart bound =
      stops_at-ext _ _ name (b % 16) λ j low high. slot_byte b j apart bound low high

  pub entry_file_others :
      (name : List ℕ) (b : ℕ)
      → b ≢ k
      → b < 16 * v.mount_info.root_size
      → entry_file name (slot_sector written b) (b % 16)
        ≡ entry_file name (slot_sector v b) (b % 16)
  entry_file_others name b apart bound =
      entry_file-ext name (b % 16) _ _ λ j low high. slot_byte b j apart bound low high

  pub filename_0_others :
      (b : ℕ)
      → b ≢ k
      → b < 16 * v.mount_info.root_size
      → filename_0 (slot_sector written b) (b % 16) ≡ filename_0 (slot_sector v b) (b % 16)
  filename_0_others b apart bound = slot_byte b _ apart bound (omega arith) (omega arith)

  -- The new entry.
  new_byte :
      (j : ℕ)
      → j < 512
      → slot_sector written k j ≡ fill_entry buffered (k % 16) dos_name cluster size j
  new_byte j bound = rw mount_info-write_entry (written_sector j bound)

  pub filename_0_new : filename_0 (slot_sector written k) (k % 16) ≡ get_or dos_name 0 0
  filename_0_new =
      new_byte _ (omega arith) ∙ filename_0-fill_entry buffered (k % 16) dos_name cluster size

  pub ends_or_has_new : ends_or_has written dos_name k ≡ true
  ends_or_has_new =
      stops_at-ext _ (fill_entry buffered (k % 16) dos_name cluster size) dos_name (k % 16)
        (λ j low high. new_byte j (omega arith))
      ∙ rw (has_name-fill_entry buffered (k % 16) dos_name cluster size) (ground arith)

  pub entry_file_new :
      (name : List ℕ)
      → cluster < 2 ^ 16
      → size < 2 ^ 32
      → entry_file name (slot_sector written k) (k % 16) ≡ record {
        name = name;
        first_cluster = cluster;
        current_cluster = cluster;
        file_size = size;
        position = 0;
        attributes = attr_archive;
        eof = 0;
      }
  entry_file_new name cluster_fits size_fits =
      entry_file-ext name (k % 16) _ (fill_entry buffered (k % 16) dos_name cluster size)
        (λ j low high. new_byte j (omega arith))
      ∙ rw
          (
            entry_first_cluster-fill_entry buffered (k % 16) dos_name cluster size cluster_fits,
            entry_file_size-fill_entry buffered (k % 16) dos_name cluster size size_fits,
            entry_attributes-fill_entry buffered (k % 16) dos_name cluster size,
          )
          refl
