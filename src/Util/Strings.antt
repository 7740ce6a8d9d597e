-- ===== src/Util/Strings.antt =====
-- strlen and reverse of lib/util.c. A string is the list of its bytes in front of the
-- terminator.
pub mod Reversal
mod Tests
use ten_os.Prelude.{
  ℕ, zero, suc, ◌+◌, ◌-◌, ◌/◌, ◌%◌, ◌^◌, List, [], ◌∷◌, ◌++◌, length, get_or, set, ltb, leb, ◌==◌,
  if◌then◌else◌,
}

abbrev pub strlen : List ℕ → ℕ
strlen s = length s

-- `for (...; i < j; i++, j--)`, with the rounds that are left: each brings `i` and `j` closer.
unfoldable pub swap_from : ℕ → ℕ → ℕ → List ℕ → List ℕ
swap_from zero i j s = s
swap_from (suc left) i j s =
    let rest = swap_from left (i + 1) (j - 1) (set (set s i (get_or s j 0)) j (get_or s i 0)) in
    if ltb i j then rest else s

-- `j` starts at -1 for the empty string, where the loop ends at once, as it does from 0.
unfoldable pub reverse : List ℕ → List ℕ
unfolding swap_from
reverse s = swap_from (strlen s) 0 (strlen s - 1) s
