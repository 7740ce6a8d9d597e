-- ===== src/Fs/Volume.antt =====
-- The state of fs/fs.c and the sectors of the drive. The bytes behind a pointer are a memory of
-- their own: `sector_buffer`, `fat_buffer` and a caller's buffer do not overlap. The drive is a
-- function from the sector's number to its bytes, and a transfer from or to it does not fail.
mod Driver
mod Tests
use ten_os.Word.{u32, sub_u32}
use ten_os.Prelude.{ℕ, ◌+◌, ◌*◌, ltb, if◌then◌else◌, update}

-- FAT12_MountInfo, with the bytes at `fat_buffer`.
pub record MountInfo : Type 0 where
  pub fat_start : ℕ
  pub root_start : ℕ
  pub root_size : ℕ
  pub data_start : ℕ
  pub sectors_per_fat : ℕ
  pub bytes_per_sector : ℕ
  pub sectors_per_cluster : ℕ
  pub root_entries : ℕ
  pub fat_buffer : ℕ → ℕ

-- The file's static variables and the drive.
pub record Volume : Type 0 where
  pub mount_info : MountInfo
  pub sector_buffer : ℕ → ℕ
  pub disk : ℕ → ℕ → ℕ

-- `read_sector(lba, sector_buffer)`
unfoldable pub read_sector : Volume → ℕ → Volume
read_sector v lba = record v {
  sector_buffer = λ i. if ltb i 512 then v.disk lba i else v.sector_buffer i;
}

-- `write_sector(lba, buffer)`: a sector has 512 bytes, so no byte of `buffer` behind them is read.
unfoldable pub write_sector : Volume → ℕ → (ℕ → ℕ) → Volume
write_sector v lba buffer = record v {
  disk = update v.disk lba (λ i. if ltb i 512 then buffer i else v.disk lba i);
}

-- The first sector of a cluster.
abbrev pub cluster_lba : MountInfo → ℕ → ℕ
cluster_lba m cluster = u32 (m.data_start + sub_u32 cluster 2 * m.sectors_per_cluster)
