-- ===== src/Fs/Name/Tests.antt =====
-- Names through `to_dos_filename`, and the witness of its theorem.
use ten_os.Fs.Name.{to_dos_filename}
use ten_os.Fs.Name.Padded.{before_dot, after_dot, padded, to_dos_filename-padded}
use ten_os.Prelude.{ℕ, List, [], ◌∷◌, ◌≡◌, refl, ◌++◌}

-- "a.txt"
abbrev a_txt : List ℕ
a_txt = 97 ∷ 46 ∷ 116 ∷ 120 ∷ 116 ∷ []

a_txt-run : to_dos_filename a_txt ≡ 65 ∷ 32 ∷ 32 ∷ 32 ∷ 32 ∷ 32 ∷ 32 ∷ 32 ∷ 84 ∷ 88 ∷ 84 ∷ []
unfolding to_dos_filename
a_txt-run = refl

to_dos_filename-padded_example :
    to_dos_filename a_txt ≡ padded 8 (before_dot a_txt) ++ padded 3 (after_dot a_txt)
to_dos_filename-padded_example = to_dos_filename-padded a_txt
