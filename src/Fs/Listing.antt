-- ===== src/Fs/Listing.antt =====
-- fat12_list_root of fs/fs.c: what it prints, and the number of files.
mod Names
mod Tests
use ten_os.Fs.Volume.{Volume, read_sector}
use ten_os.Fs.Directory.{char_int, filename_0, entry_attributes, entry_file_size}
use ten_os.Fs.Name.{space, dot}
use ten_os.Print.{print_int}
use ten_os.Word.{u32}
use ten_os.Prelude.{
  ℕ, zero, suc, ◌+◌, ◌*◌, List, [], ◌∷◌, ◌++◌, Bool, true, false, bit_and, bit_or, ◌==◌, not,
  if◌then◌else◌, codes, replicate,
}

abbrev pub attr_volume_id : ℕ
attr_volume_id = 0x08

abbrev pub attr_directory : ℕ
attr_directory = 0x10

abbrev pub newline : List ℕ
newline = 10 ∷ []

-- The loops that copy a part of the name, up to the padding.
unfoldable pub unpadded : ℕ → ℕ → (ℕ → ℕ) → List ℕ
unpadded zero at buf = []
unpadded (suc left) at buf =
    let rest = unpadded left (at + 1) buf in if buf at == space then [] else buf at ∷ rest

-- `printk("%s", name)` stops at a byte 0 in the name.
unfoldable pub c_string : List ℕ → List ℕ
c_string [] = []
c_string (c ∷ s) = if c == 0 then [] else c ∷ c_string s

-- `name` for entry `i`.
pub entry_name : (ℕ → ℕ) → ℕ → List ℕ
entry_name buf i =
    unpadded 8 (32 * i) buf
    ++ (if buf (32 * i + 8) == space then [] else dot ∷ unpadded 3 (32 * i + 8) buf)

pub print_entry : (ℕ → ℕ) → ℕ → List ℕ
print_entry buf i =
    c_string (entry_name buf i)
    ++ replicate 20 space
    ++ print_int (entry_file_size buf i)
    ++ newline

-- The part of the output behind `line`, with the count and whether the list ended.
abbrev pub behind : List ℕ → ℕ → List ℕ × ℕ × Bool → List ℕ × ℕ × Bool
behind line n (text, count, ended) = (line ++ text, n + count, ended)

-- The loop over a sector's entries, with those that are left: true for `goto end_list`.
pub list_entries : ℕ → ℕ → (ℕ → ℕ) → List ℕ × ℕ × Bool
list_entries zero i buf = ([], 0, false)
list_entries (suc left) i buf =
    let rest = list_entries left (i + 1) buf in
    if char_int (filename_0 buf i) == 0x00
    then ([], 0, true)
    else if char_int (filename_0 buf i) == 0xE5
    then rest
    else if not (bit_and (entry_attributes buf i) (bit_or attr_volume_id attr_directory) == 0)
    then rest
    else behind (print_entry buf i) 1 rest

-- The loop over the sectors.
pub list_sectors : ℕ → ℕ → Volume → List ℕ × ℕ × Volume
list_sectors zero sector v = ([], 0, v)
list_sectors (suc left) sector v =
    let v' = read_sector v (u32 (v.mount_info.root_start + sector)) in
    let (text, count, ended) = list_entries 16 0 v'.sector_buffer in
    let (text', count', v'') = list_sectors left (sector + 1) v' in
    if ended then (text, count, v') else (text ++ text', count + count', v'')

-- The text that is printed, the result and the volume.
pub fat12_list_root : Volume → List ℕ × ℕ × Volume
fat12_list_root v =
    let (text, count, v') = list_sectors v.mount_info.root_size 0 v in
    (
      codes "Root directory contents:"
          ++ newline
          ++ codes "Name                   Size"
          ++ newline
          ++ text
          ++ newline
          ++ codes "Total files: "
          ++ print_int count
          ++ newline,
      count,
      v',
    )
