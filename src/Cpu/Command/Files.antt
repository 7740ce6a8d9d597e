-- ===== src/Cpu/Command/Files.antt =====
-- The commands `create` and `cat` on the file system.
use ten_os.Cpu.Console.{Output, chars, System, ◌>>=◌, printk_color}
use ten_os.Cpu.Command.{
  space, line, break_line, string_front, fill_buffer, string_in, cmd_create_file, cmd_cat,
}
use ten_os.Cpu.Command.Words.{HasNoSpace, IsString, take_name-word, c_string_whole}
use ten_os.Drivers.Screen.Color
use ten_os.Drivers.Screen.{white_on_black}
use ten_os.Fs.Create.Sync.{IsLaidOut}
use ten_os.Fs.Create.Made.{IsNew}
use ten_os.Fs.Create.Contents.{fat12_read-fat12_create}
use ten_os.Fs.Create.{fat12_create}
use ten_os.Fs.Directory.{fat12_open}
use ten_os.Fs.File.{fat12_read, fat12_write}
use ten_os.Fs.Table.{find_free_cluster}
use ten_os.Fs.Table.Entries.{IsBytes}
use ten_os.Mm.Paging.{vmmngr_alloc_page}
use ten_os.Print.{vformat_print, directive}
use ten_os.Prelude.{
  ℕ, zero, suc, ◌+◌, ◌≤◌, ◌<◌, ◌≡◌, ◌≢◌, refl, ap, ◌∙◌, List, [], ◌∷◌, ◌++◌, append-nil,
  append_assoc, some, false, ltb, get_or, length, codes, arith, ne→==-false,
}

string_front_lem : (s rest : List ℕ) → IsString s → string_front (s ++ (0 ∷ rest)) ≡ some s
unfolding string_front
string_front_lem [] rest h = refl
string_front_lem (c ∷ s) rest (h, hs) = rw (ne→==-false c 0 h, string_front_lem s rest hs) refl

-- A string and its terminator in an array.
string_in_lem :
    (contents : List ℕ) (left i : ℕ) (buff : ℕ → ℕ)
    → IsString contents
    → length contents < left
    → ((j : ℕ) → j < left → buff (i + j) ≡ get_or contents j 0)
    → string_in left i buff ≡ some contents
unfolding string_in
string_in_lem contents zero i buff h fits holds = absurd (omega arith)
string_in_lem [] (suc left) i buff h fits holds =
    let ended : buff i ≡ 0 = ap buff (omega arith) ∙ holds 0 (omega arith) in rw ended refl
string_in_lem (c ∷ contents) (suc left) i buff (h, hs) fits holds =
    let here : buff i ≡ c = ap buff (omega arith) ∙ holds 0 (omega arith) in
    rw
      (
        here,
        ne→==-false c 0 h,
        string_in_lem contents left (i + 1) buff hs (omega arith)
            (λ j p. ap buff (omega arith) ∙ holds (suc j) (omega arith)),
      )
      refl

-- What the two commands print.
abbrev pub created_line : List ℕ → Output
created_line name = chars Color.yellow ((10 ∷ codes "File ") ++ (name ++ line " Created"))

abbrev pub listing : List ℕ → List ℕ → List Output
listing name contents =
    chars white_on_black ((10 ∷ codes "File ") ++ (name ++ line " Contents :- "))
    ∷ chars white_on_black contents
    ∷ chars white_on_black (break_line "File Ended")
    ∷ []

-- Four outputs, one behind the other.
four :
    (xs : List Output) (a b c d : Output)
    → (((xs ++ (a ∷ [])) ++ (b ∷ [])) ++ (c ∷ [])) ++ (d ∷ []) ≡ xs ++ (a ∷ b ∷ c ∷ d ∷ [])
four [] a b c d = refl
four (x ∷ xs) a b c d = ap (λ t. x ∷ t) (four xs a b c d)

-- The buffer of `cat` behind `create`.
abbrev read_back : List ℕ → List ℕ → System → ℕ → ℕ
read_back name contents s =
    let (done, v1, vm1) = fat12_create name 256 s.volume s.vmm in
    let (file, v2, vm2) = fat12_open name v1 vm1 in
    let (written, file', v3) = fat12_write file (λ j. get_or contents j 0) 256 v2 in
    let (file'', v4, vm4) = fat12_open name v3 vm2 in
    let (n, file_end, buffer', v5) = fat12_read file'' (λ j. 0) 256 v4 in buffer'

-- `create` with a name and contents.
module _ (name contents rest : List ℕ) (s : System) (k : ℕ) (word : HasNoSpace name)
    (fits : length name ≤ 11) (name_string : IsString name) (named : get_or name 0 1 ≢ 0)
    (string : IsString contents) (short : length contents ≤ 255)
    (laid : IsLaidOut s.volume.mount_info) (bytes : IsBytes s.volume.mount_info.fat_buffer)
    (free : find_free_cluster s.volume.mount_info.fat_buffer ≢ 0) (new : IsNew name s.volume k)
    (page : (vmmngr_alloc_page s.vmm).0 ≢ 0)
    (other_page : (vmmngr_alloc_page (vmmngr_alloc_page s.vmm).1).0 ≢ 0) where
  filled : fill_buffer contents ≡ some (λ j. get_or contents j 0)
  unfolding fill_buffer
  filled = let small : ltb 256 (length contents) ≡ false = ground arith in rw small refl

  -- A name of 1 to 11 bytes without a space or a terminator, and contents of at most 255 bytes
  -- without a terminator: `create` with both and then `cat` with the name and a space behind it have
  -- a result, and `cat` prints the contents, if the volume's parts stand behind one another, its
  -- table holds bytes, a cluster is free, two pages can be allocated, and the directory has an end
  -- mark and no entry in front of it with the name.
  pub cmd_cat-cmd_create_file :
      (cmd_create_file (name ++ (space ∷ contents)) s >>= λ s'.
      cmd_cat (name ++ (space ∷ rest)) s' >>= λ s''. some s''.output)
      ≡ some (s.output ++ (created_line name ∷ listing name contents))
  unfolding cmd_create_file cmd_cat vformat_print directive printk_color
  cmd_cat-cmd_create_file =
      let back =
        fat12_read-fat12_create name 256 256 (λ j. get_or contents j 0) (λ j. 0) s.volume s.vmm k
          laid bytes free new named (omega arith) (omega arith) (omega arith) (omega arith) page
          other_page in
      let shown =
        string_in_lem contents 256 0 (read_back name contents s) string (omega arith) (λ j p.
          back.3 (0 + j) ∙ (ground (arith, ap (λ i. get_or contents i 0) {x = 0 + j} {y = j}))) in
      rw
        (
          append_assoc name (space ∷ contents) (0 ∷ s.behind),
          take_name-word name 11 (contents ++ (0 ∷ s.behind)) word fits,
          string_front_lem contents s.behind string,
          filled,
          append_assoc name (space ∷ rest) (0 ∷ s.behind),
          take_name-word name 11 (rest ++ (0 ∷ s.behind)) word fits,
          c_string_whole name name_string,
          shown,
          append-nil contents,
        )
        (ap some (four s.output _ _ _ _))
