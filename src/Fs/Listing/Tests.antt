-- ===== src/Fs/Listing/Tests.antt =====
-- A root directory of one sector, and the witness of the theorem on names.
use ten_os.Fs.Listing.{list_entries, list_sectors, entry_name, unpadded, c_string, fat12_list_root}
use ten_os.Fs.Listing.Names.{IsPlain, entry_name-to_dos_filename}
use ten_os.Fs.Name.{to_dos_filename, to_upper, dot}
use ten_os.Fs.Name.Padded.{to_dos_filename-padded}
use ten_os.Fs.Volume.{Volume, read_sector}
use ten_os.Prelude.{
  ℕ, ◌+◌, ◌*◌, ◌≡◌, refl, List, [], ◌∷◌, ◌++◌, map, ltb, ◌==◌, if◌then◌else◌, get_or, codes, arith,
  lt→ltb, ◌<◌, ap, ◌∙◌, sym,
}

abbrev dos_name : List ℕ
dos_name = codes "NOTES   TX "

-- The entry of a file of 7 bytes, then one that is a directory, then the end.
abbrev sector : ℕ → ℕ
sector j =
    if ltb j 11
    then get_or dos_name j 0
    else if j == 28
    then 7
    else if j == 32
    then b'd'
    else if j == 43
    then 0x10
    else 0

abbrev volume : Volume
volume = record {
  mount_info = record {
    fat_start = 1;
    root_start = 19;
    root_size = 14;
    data_start = 33;
    sectors_per_fat = 9;
    bytes_per_sector = 512;
    sectors_per_cluster = 1;
    root_entries = 224;
    fat_buffer = λ j. 0;
  };
  sector_buffer = λ j. 0;
  disk = λ lba. sector;
}

name-run : c_string (entry_name sector 0) ≡ codes "NOTES.TX"
unfolding entry_name unpadded c_string
name-run = refl

count-run : (fat12_list_root volume).1 ≡ 1
unfolding fat12_list_root list_sectors list_entries read_sector
count-run = refl

dos-run : to_dos_filename (codes "notes" ++ (dot ∷ b't' ∷ b'x' ∷ [])) ≡ dos_name
unfolding to_upper
dos-run = to_dos_filename-padded (codes "notes.tx")

bytes-run : (j : ℕ) → j < 11 → sector (32 * 0 + j) ≡ get_or dos_name j 0
bytes-run j h = let at : 32 * 0 + j ≡ j = omega arith in rw (at, lt→ltb j 11 h) refl

notes-IsPlain : IsPlain (codes "notes")
notes-IsPlain = (
  ((λ e. omega arith), (λ e. omega arith), (λ e. omega arith)),
  (
    ((λ e. omega arith), (λ e. omega arith), (λ e. omega arith)),
    (
      ((λ e. omega arith), (λ e. omega arith), (λ e. omega arith)),
      (
        ((λ e. omega arith), (λ e. omega arith), (λ e. omega arith)),
        (((λ e. omega arith), (λ e. omega arith), (λ e. omega arith)), tt),
      ),
    ),
  ),
)

entry_name-to_dos_filename_example :
    c_string (entry_name sector 0) ≡ map to_upper (codes "notes" ++ (dot ∷ b't' ∷ b'x' ∷ []))
entry_name-to_dos_filename_example =
    entry_name-to_dos_filename (codes "notes") b't' (b'x' ∷ []) sector 0 notes-IsPlain
      (
        ((λ e. omega arith), (λ e. omega arith), (λ e. omega arith)),
        (((λ e. omega arith), (λ e. omega arith), (λ e. omega arith)), tt),
      )
      (omega arith) (omega arith) (λ j h. bytes-run j h ∙ ap (λ s. get_or s j 0) (sym dos-run))
