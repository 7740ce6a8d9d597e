-- ===== src/Util/Ascii.antt =====
-- int_to_ascii of lib/util.c, on the 32 bits of an `int`; the string that it leaves in `str`.
use ten_os.Util.Strings.{reverse}
use ten_os.Word.{sub_u32}
use ten_os.Prelude.{ℕ, zero, suc, ◌+◌, ◌/◌, ◌%◌, ◌^◌, List, [], ◌∷◌, ◌++◌, ltb, leb, if◌then◌else◌}

-- The loop on a number that is not negative, with more rounds than it has digits.
unfoldable pub ascii_digits : ℕ → ℕ → List ℕ
ascii_digits zero n = []
ascii_digits (suc left) n =
    let rest = ascii_digits left (n / 10) in (n % 10 + b'0') ∷ (if ltb 0 (n / 10) then rest else [])

-- The smallest `int` stays negative, and so does its last digit: -8 + '0', and the loop ends.
unfoldable pub int_to_ascii : ℕ → List ℕ
int_to_ascii n =
    let magnitude = if leb (2 ^ 31) n then sub_u32 0 n else n in
    let str = if leb (2 ^ 31) magnitude then 40 ∷ [] else ascii_digits 11 magnitude in
    reverse (if leb (2 ^ 31) n then str ++ b'-' ∷ [] else str)
