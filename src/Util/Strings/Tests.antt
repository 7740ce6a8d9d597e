-- ===== src/Util/Strings/Tests.antt =====
-- A string that `reverse` turns round.
use ten_os.Util.Strings.{swap_from, reverse}
use ten_os.Prelude.{[], ◌∷◌, ◌≡◌, refl}

three-run : reverse (1 ∷ 2 ∷ 3 ∷ []) ≡ 3 ∷ 2 ∷ 1 ∷ []
unfolding swap_from reverse
three-run = refl
