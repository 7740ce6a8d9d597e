-- ===== src/Fs/File/Chains/Roundtrip.antt =====
-- What `fat12_write` stores, `fat12_read` gives back.
use ten_os.Fs.File.Chains.{IsChain, lesser, separate}
use ten_os.Fs.File.Chains.Reads.{fat12_read_lem}
use ten_os.Fs.File.Chains.Writes.{fat12_write_lem}
use ten_os.Fs.File.{File, fat12_read, fat12_write}
use ten_os.Fs.Volume.{Volume}
use ten_os.Word.{sub_u32}
use ten_os.Prelude.{
  Bool-cases, inl, inr, ℕ, ◌*◌, ◌^◌, ◌≤◌, ◌<◌, ◌≡◌, List, length, ltb, if◌then◌else◌, arith, true,
  some, ap, ◌∙◌, refl,
}

-- The handle that `fat12_open` makes for the file.
abbrev pub reopened : File → File
reopened file = record file { current_cluster = file.first_cluster; position = 0; eof = 0 }

-- For every file on a chain whose sectors differ, and a size that the chain holds and that is at most
-- the file's: `fat12_write` writes all bytes, and `fat12_read` from the start of the file gives them
-- back, in a buffer that it changes nowhere else.
pub fat12_read-fat12_write :
    (file : File) (cs : List ℕ) (data_in buffer : ℕ → ℕ) (size : ℕ) (v : Volume)
    → IsChain v.mount_info.fat_buffer file.first_cluster cs
    → separate v.mount_info cs ≡ true
    → size ≤ 512 * length cs
    → size ≤ file.file_size
    → file.file_size < 2 ^ 32
    → let (written, file', v') = fat12_write (some file) data_in size v in
      let (n, file'', buffer', v'') = fat12_read (some (reopened file)) buffer size v' in
      (written ≡ some size)
      × (n ≡ size)
      × ((j : ℕ) → buffer' j ≡ (if ltb j size then data_in j else buffer j))
fat12_read-fat12_write file cs data_in buffer size v chain apart fits listed bound =
    let v' = (fat12_write (some file) data_in size v).2 in
    let wrote = fat12_write_lem file cs data_in size v chain apart in
    let same_mount = wrote.3 in
    let read_back = fat12_read_lem (reopened file) cs buffer size v' refl (rw same_mount chain) in
    let whole : lesser (512 * length cs) size ≡ size = ground arith in
    let asked : lesser (512 * length cs) (lesser (sub_u32 file.file_size 0) size) ≡ size =
      ground arith in
    (
      wrote.0 ∙ ap some whole,
      read_back.0 ∙ asked,
      λ j.
          read_back.1 j
          ∙ rw (same_mount, read_back.0, asked)
              (elim (Bool-cases (ltb j size)) [
                | inl inside ↦ rw inside (wrote.1 j (ground arith))
                | inr outside ↦ rw outside refl
              ]),
    )
