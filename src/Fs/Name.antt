-- ===== src/Fs/Name.antt =====
-- `to_dos_filename` of fs/fs.c. A string is the list of its bytes, without the terminator; a byte
-- from 128 on is a negative `char`, which no test here takes for a letter or a dot.
pub mod Padded
mod Tests
use ten_os.Prelude.{
  ℕ, ◌+◌, ◌-◌, ◌||◌, ◌&&◌, List, [], ◌∷◌, leb, ◌==◌, if◌then◌else◌, set, replicate,
}

abbrev pub space : ℕ
space = 32

abbrev pub dot : ℕ
dot = b'.'

unfoldable pub to_upper : ℕ → ℕ
to_upper c = if leb b'a' c && leb c b'z' then c - 32 else c

-- The first loop, from index `j` of the output on: the output, and the string from where it stops.
unfoldable pub copy_name : List ℕ → ℕ → List ℕ → List ℕ × List ℕ
copy_name [] j output = (output, [])
copy_name (c ∷ s) j output =
    if c == dot || leb 8 j then (output, c ∷ s) else copy_name s (j + 1) (set output j (to_upper c))

-- The second loop.
unfoldable pub skip_to_dot : List ℕ → List ℕ
skip_to_dot [] = []
skip_to_dot (c ∷ s) = if c == dot then c ∷ s else skip_to_dot s

-- The third loop.
unfoldable pub copy_extension : List ℕ → ℕ → List ℕ → List ℕ
copy_extension [] j output = output
copy_extension (c ∷ s) j output =
    if leb 11 j then output else copy_extension s (j + 1) (set output j (to_upper c))

-- `if (input[i] == '.')`: the loops before it stop at a dot or at the end.
unfoldable pub after_name : List ℕ → List ℕ → List ℕ
after_name [] output = output
after_name (c ∷ s) output = copy_extension s 8 output

unfoldable pub to_dos_filename : List ℕ → List ℕ
unfolding to_upper copy_name skip_to_dot copy_extension after_name
to_dos_filename input =
    let (output, rest) = copy_name input 0 (replicate 11 space) in
    after_name (skip_to_dot rest) output
