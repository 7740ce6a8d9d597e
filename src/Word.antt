-- ===== src/Word.antt =====
-- The integer types of lib/types.h: a value is a number below 2 ^ 8, 2 ^ 16 or 2 ^ 32, and a
-- cast or an operation that wraps takes the remainder.
mod Step
pub mod Bits
use ten_os.Prelude.{ℕ, ◌+◌, ◌-◌, ◌*◌, ◌/◌, ◌%◌, ◌^◌}

abbrev pub u8 : ℕ → ℕ
u8 n = n % 2 ^ 8

abbrev pub u16 : ℕ → ℕ
u16 n = n % 2 ^ 16

abbrev pub u32 : ℕ → ℕ
u32 n = n % 2 ^ 32

-- `a - b` on u32
abbrev pub sub_u32 : ℕ → ℕ → ℕ
sub_u32 a b = u32 (a + 2 ^ 32 - b)

-- `~a` on u32
abbrev pub not_u32 : ℕ → ℕ
not_u32 a = 2 ^ 32 - 1 - a

infixl 75 ◌<<<◌ ◌>>>◌
abbrev pub ◌<<<◌ : ℕ → ℕ → ℕ
x <<< k = x * 2 ^ k

abbrev pub ◌>>>◌ : ℕ → ℕ → ℕ
x >>> k = x / 2 ^ k
