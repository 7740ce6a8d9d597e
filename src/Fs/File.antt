-- ===== src/Fs/File.antt =====
-- fat12_read, fat12_write and fat12_close of fs/fs.c. The handle of a file is a value, none for the
-- null pointer, and an operation returns the changed handle; its `name` is the string alone.
pub mod Chains
use ten_os.Fs.Volume.{MountInfo, Volume, read_sector, write_sector, cluster_lba}
use ten_os.Fs.Table.{get_next_cluster, fat12_eof_min}
use ten_os.Util.{memset, memcpy}
use ten_os.Word.{u32, sub_u32}
use ten_os.Prelude.{
  ℕ, zero, suc, ◌+◌, ◌-◌, List, Option, none, some, ltb, leb, ◌==◌, ◌||◌, ◌&&◌, if◌then◌else◌, not,
}

-- FAT12_File
pub record File : Type 0 where
  pub name : List ℕ
  pub first_cluster : ℕ
  pub current_cluster : ℕ
  pub file_size : ℕ
  pub position : ℕ
  pub attributes : ℕ
  pub eof : ℕ

-- `(size > 512) ? 512 : size`
abbrev pub piece : ℕ → ℕ
piece size = if ltb 512 size then 512 else size

-- What a round of the loop of `fat12_read` changes: the volume, the caller's buffer, and the file's
-- cluster. `at` is the offset of `buffer` behind the bytes read so far.
pub record Reading : Type 0 where
  pub volume : Volume
  pub buffer : ℕ → ℕ
  pub at : ℕ
  pub cluster : ℕ

pub read_round : Reading → ℕ → Reading
read_round r size =
    let v = read_sector r.volume (cluster_lba r.volume.mount_info r.cluster) in
    record {
      volume = v;
      buffer = memcpy r.buffer r.at v.sector_buffer 0 (piece size);
      at = r.at + piece size;
      cluster = get_next_cluster v.mount_info.fat_buffer r.cluster;
    }

-- The loop, with rounds that are left: each takes at least one byte of `size`.
pub read_loop : ℕ → ℕ → Reading → Reading
unfolding read_round
read_loop zero size r = r
read_loop (suc left) size r =
    let rest = read_loop left (size - piece size) (read_round r size) in
    if ltb 0 size && ltb r.cluster fat12_eof_min then rest else r

-- The number that is returned, the file, the bytes of `buffer` and the volume.
unfoldable pub fat12_read : Option File → (ℕ → ℕ) → ℕ → Volume → ℕ × Option File × (ℕ → ℕ) × Volume
unfolding read_loop
fat12_read none buffer size v = (0, none, buffer, v)
fat12_read (some file) buffer size v =
    let remaining = sub_u32 file.file_size file.position in
    let size' = if ltb remaining size then remaining else size in
    let r =
      read_loop size' size'
        (record { volume = v; buffer = buffer; at = 0; cluster = file.current_cluster }) in
    let file' = record file {
      current_cluster = r.cluster;
      position = u32 (file.position + r.at);
      eof = if leb fat12_eof_min r.cluster then 1 else file.eof;
    } in
    if not (file.eof == 0)
    then (0, some file, buffer, v)
    else (r.at, some file', r.buffer, r.volume)

-- The same for `fat12_write`.
pub record Writing : Type 0 where
  pub volume : Volume
  pub at : ℕ
  pub cluster : ℕ

pub write_round : (ℕ → ℕ) → Writing → ℕ → Writing
write_round buffer w size =
    let sector = memcpy (memset w.volume.sector_buffer 0 512) 0 buffer w.at (piece size) in
    let v =
      write_sector (record w.volume { sector_buffer = sector })
        (cluster_lba w.volume.mount_info w.cluster) sector in
    record {
      volume = v;
      at = w.at + piece size;
      cluster = get_next_cluster v.mount_info.fat_buffer w.cluster;
    }

pub write_loop : (ℕ → ℕ) → ℕ → ℕ → Writing → Writing
unfolding write_round
write_loop buffer zero size w = w
write_loop buffer (suc left) size w =
    let rest = write_loop buffer left (size - piece size) (write_round buffer w size) in
    if ltb 0 size && ltb w.cluster fat12_eof_min then rest else w

-- The number of bytes, or none for -1, the file and the volume.
unfoldable pub fat12_write : Option File → (ℕ → ℕ) → ℕ → Volume → Option ℕ × Option File × Volume
unfolding write_loop
fat12_write none buffer size v = (none, none, v)
fat12_write (some file) buffer size v =
    let w =
      write_loop buffer size size (record { volume = v; at = 0; cluster = file.first_cluster }) in
    (some w.at, some (record file { current_cluster = w.cluster }), w.volume)

-- None for -1.
abbrev pub fat12_close : Option File → Option ℕ
fat12_close none = none
fat12_close (some file) = some 0
