-- ===== src/Word/Bits.antt =====
-- Words by their bits: `|`, `&`, `~` and `1 << k` at each bit, for every width.
use Prim.Native.Nat.{bit_and-bitwise, bit_or-bitwise}
use native.Mathlib.Nat.{
  pow-suc, pow-succ', one-le-pow, pow-le-pow_right, div-div-eq-div-mul, div-add-mod, mod-lt,
  mod-eq_of_lt, add-mul-mod_self_left,
}
use ten_os.Word.Step.{bit_or_step, bit_and_step}
use ten_os.Prelude.{
  ℕ, zero, suc, ◌+◌, ◌-◌, ◌*◌, ◌/◌, ◌%◌, ◌^◌, ◌≤◌, ◌<◌, min, max, bit_and, bit_or, ◌≡◌, refl, ap,
  ◌∙◌, ◌==◌, if◌then◌else◌, arith,
}

-- The bit `i` of `a`, 0 or 1.
unfoldable pub bit : ℕ → ℕ → ℕ
bit zero a = a % 2
bit (suc i) a = bit i (a / 2)

pub bit-le-one : (i a : ℕ) → bit i a ≤ 1
unfolding bit
bit-le-one zero a = omega arith
bit-le-one (suc i) a = bit-le-one i (a / 2)

pub bit-bit_or : (i a b : ℕ) → bit i (bit_or a b) ≡ max (bit i a) (bit i b)
unfolding bit
bit-bit_or zero a b = omega (arith, bit_or_step a b)
bit-bit_or (suc i) a b =
    let half : bit_or a b / 2 ≡ bit_or (a / 2) (b / 2) = omega (arith, bit_or_step a b) in
    rw half (bit-bit_or i (a / 2) (b / 2))

pub bit-bit_and : (i a b : ℕ) → bit i (bit_and a b) ≡ min (bit i a) (bit i b)
unfolding bit
bit-bit_and zero a b = omega (arith, bit_and_step a b)
bit-bit_and (suc i) a b =
    let half : bit_and a b / 2 ≡ bit_and (a / 2) (b / 2) = omega (arith, bit_and_step a b) in
    rw half (bit-bit_and i (a / 2) (b / 2))

pub bit-zero : (i : ℕ) → bit i 0 ≡ 0
unfolding bit
bit-zero zero = refl
bit-zero (suc i) = bit-zero i

pub bit-pow : (i k : ℕ) → bit i (2 ^ k) ≡ (if k == i then 1 else 0)
unfolding bit
bit-pow zero zero = refl
bit-pow zero (suc k) = ground (arith, pow-suc 2 k)
bit-pow (suc i) zero = ground (arith, bit-zero i)
bit-pow (suc i) (suc k) =
    let half : 2 ^ suc k / 2 ≡ 2 ^ k = omega (arith, pow-suc 2 k) in
    rw half (ground (arith, bit-pow i k))

-- `~a` within `w` bits
pub bit-not : (i w a : ℕ) → i < w → a < 2 ^ w → bit i (2 ^ w - 1 - a) ≡ 1 - bit i a
unfolding bit
bit-not i zero a h fits = absurd (omega arith)
bit-not zero (suc w) a h fits = omega (arith, pow-suc 2 w)
bit-not (suc i) (suc w) a h fits =
    let half : (2 ^ suc w - 1 - a) / 2 ≡ 2 ^ w - 1 - a / 2 = omega (arith, pow-suc 2 w) in
    rw half (bit-not i w (a / 2) (omega arith) (omega (arith, pow-suc 2 w)))

pub bit_or-lt : (w a b : ℕ) → a < 2 ^ w → b < 2 ^ w → bit_or a b < 2 ^ w
bit_or-lt zero a b p q =
    let e : a ≡ 0 = omega arith in let e' : b ≡ 0 = omega arith in rw (e, e') (omega arith)
bit_or-lt (suc w) a b p q = omega (
  arith,
  pow-suc 2 w,
  bit_or_step a b,
  bit_or-lt w (a / 2) (b / 2) (omega (arith, pow-suc 2 w)) (omega (arith, pow-suc 2 w)),
)

pub bit_and-lt : (w a b : ℕ) → a < 2 ^ w → bit_and a b < 2 ^ w
bit_and-lt zero a b p = let e : a ≡ 0 = omega arith in rw e (omega (arith, bit_and-bitwise 0 b))
bit_and-lt (suc w) a b p = omega (
  arith,
  pow-suc 2 w,
  bit_and_step a b,
  bit_and-lt w (a / 2) (b / 2) (omega (arith, pow-suc 2 w)),
)

-- Words of `w` bits that agree at each of them are equal.
pub bit_ext : (w a b : ℕ) → a < 2 ^ w → b < 2 ^ w → ((i : ℕ) → i < w → bit i a ≡ bit i b) → a ≡ b
unfolding bit
bit_ext zero a b p q h = omega arith
bit_ext (suc w) a b p q h = omega (
  arith,
  h 0 (omega arith),
  bit_ext w (a / 2) (b / 2) (omega (arith, pow-suc 2 w)) (omega (arith, pow-suc 2 w))
      (λ i k. h (suc i) (omega arith)),
)

-- The shapes that masks and shifts of the source take, as arithmetic.
bit_or-zero_below : (n a : ℕ) → a ≤ n → bit_or a 0 ≡ a
bit_or-zero_below n zero h = refl
bit_or-zero_below zero (suc a) h = absurd (omega arith)
bit_or-zero_below (suc n) (suc a) h =
    omega (arith, bit_or_step (suc a) 0, bit_or-zero_below n (suc a / 2) (omega arith))

bit_or_comm_below : (n a b : ℕ) → a ≤ n → bit_or a b ≡ bit_or b a
bit_or_comm_below n zero b h =
    omega (arith, bit_or-bitwise 0 b, bit_or-zero_below b b (omega arith))
bit_or_comm_below zero (suc a) b h = absurd (omega arith)
bit_or_comm_below (suc n) (suc a) b h = omega (
  arith,
  bit_or_step (suc a) b,
  bit_or_step b (suc a),
  bit_or_comm_below n (suc a / 2) (b / 2) (omega arith),
)

pub bit_or_comm : (a b : ℕ) → bit_or a b ≡ bit_or b a
bit_or_comm a b = bit_or_comm_below a a b (omega arith)

bit_and-zero_below : (n a : ℕ) → a ≤ n → bit_and a 0 ≡ 0
bit_and-zero_below n zero h = refl
bit_and-zero_below zero (suc a) h = absurd (omega arith)
bit_and-zero_below (suc n) (suc a) h =
    omega (arith, bit_and_step (suc a) 0, bit_and-zero_below n (suc a / 2) (omega arith))

pub bit_and-zero : (a : ℕ) → bit_and a 0 ≡ 0
bit_and-zero a = bit_and-zero_below a a (omega arith)

twice_pow : (q k : ℕ) → q * 2 ^ suc k ≡ 2 * (q * 2 ^ k)
twice_pow q k = omega (arith, ap (λ (t : ℕ). q * t) (pow-suc 2 k))

-- `|` of fields that do not overlap is their sum.
pub bit_or-eq-add : (k q r : ℕ) → r < 2 ^ k → bit_or (q * 2 ^ k) r ≡ q * 2 ^ k + r
bit_or-eq-add zero q r fits =
    let e : r ≡ 0 = omega arith in
    let e' : q * 2 ^ 0 ≡ q = omega arith in
    rw (e, e') (omega (arith, bit_or-zero_below q q (omega arith)))
bit_or-eq-add (suc k) q r fits =
    let half : q * 2 ^ suc k / 2 ≡ q * 2 ^ k = omega (arith, twice_pow q k) in
    let low : r / 2 < 2 ^ k = omega (arith, pow-suc 2 k) in
    let ih : bit_or (q * 2 ^ suc k / 2) (r / 2) ≡ q * 2 ^ k + r / 2 =
      rw half (bit_or-eq-add k q (r / 2) low) in
    omega (arith, twice_pow q k, bit_or_step (q * 2 ^ suc k) r, ih)

-- A mask moved up by `k` bits.
pub bit_and-shift : (k a m : ℕ) → bit_and a (m * 2 ^ k) ≡ bit_and (a / 2 ^ k) m * 2 ^ k
bit_and-shift zero a m =
    let e : m * 2 ^ 0 ≡ m = omega arith in
    let e' : a / 2 ^ 0 ≡ a = omega arith in rw (e, e') (omega arith)
bit_and-shift (suc k) a m =
    let half : m * 2 ^ suc k / 2 ≡ m * 2 ^ k = omega (arith, twice_pow m k) in
    let down : a / 2 ^ suc k ≡ a / 2 / 2 ^ k = rw (div-div-eq-div-mul, pow-succ') refl in
    let ih : bit_and (a / 2) (m * 2 ^ suc k / 2) ≡ bit_and (a / 2 / 2 ^ k) m * 2 ^ k =
      rw half (bit_and-shift k (a / 2) m) in
    rw down (
      omega (
        arith,
        bit_and_step a (m * 2 ^ suc k),
        twice_pow m k,
        ih,
        twice_pow (bit_and (a / 2 / 2 ^ k) m) k,
      ))

mod-double : (m a : ℕ) → 0 < m → a % (m * 2) ≡ a / 2 % m * 2 + a % 2
mod-double m a h =
    let e : a ≡ a / 2 % m * 2 + a % 2 + m * 2 * (a / 2 / m) =
      omega (arith, div-add-mod (a / 2) m) in
    let small : a / 2 % m * 2 + a % 2 < m * 2 = omega (arith, mod-lt (a / 2) h) in
    ap (λ x. x % (m * 2)) e ∙ add-mul-mod_self_left _ _ _ ∙ mod-eq_of_lt small

mod-pow-suc : (k a : ℕ) → a % 2 ^ suc k ≡ a / 2 % 2 ^ k * 2 + a % 2
mod-pow-suc k a = rw pow-suc (mod-double (2 ^ k) a (one-le-pow k 2 (omega arith)))

-- A mask of the `k` low bits is the remainder.
pub bit_and-mask : (k a : ℕ) → bit_and a (2 ^ k - 1) ≡ a % 2 ^ k
bit_and-mask zero a = rw bit_and-zero (omega arith)
bit_and-mask (suc k) a =
    let half : (2 ^ suc k - 1) / 2 ≡ 2 ^ k - 1 =
      omega (arith, pow-suc 2 k, one-le-pow k 2 (omega arith)) in
    let ih : bit_and (a / 2) ((2 ^ suc k - 1) / 2) ≡ a / 2 % 2 ^ k =
      rw half (bit_and-mask k (a / 2)) in
    omega (
      arith,
      bit_and_step a (2 ^ suc k - 1),
      pow-suc 2 k,
      one-le-pow k 2 (omega arith),
      ih,
      mod-pow-suc k a,
    )

pub pow-lt-32 : (k : ℕ) → k < 32 → 1 * 2 ^ k < 2 ^ 32
pow-lt-32 k h = omega (
  arith,
  pow-le-pow_right {n = 2} (omega arith) {i = suc k} {j = 32} h,
  pow-suc 2 k,
  one-le-pow k 2 (omega arith),
)

-- A number shifted right by `k` has the bits of the number from `k` on.
pub bit-div : (k i a : ℕ) → bit i (a / 2 ^ k) ≡ bit (k + i) a
unfolding bit
bit-div zero i a =
    let e : a / 2 ^ 0 ≡ a = omega arith in let e' : 0 + i ≡ i = omega arith in rw (e, e')
bit-div (suc k) i a =
    let e : a / 2 ^ suc k ≡ a / 2 / 2 ^ k = rw (div-div-eq-div-mul, pow-succ') refl in
    let e' : suc k + i ≡ suc (k + i) = omega arith in rw (e, e') (bit-div k i (a / 2))

-- The test of one bit: `w & (1 << k)`.
pub bit_and-pow : (k w : ℕ) → bit_and w (1 * 2 ^ k) ≡ bit k w * 2 ^ k
unfolding bit
bit_and-pow k w =
    let e : k + 0 ≡ k = omega arith in
    let top : w / 2 ^ k % 2 ≡ bit k w = bit-div k 0 w ∙ ap (λ i. bit i w) e in
    rw (bit_and-shift, bit_and-mask 1 (w / 2 ^ k), ← top)

-- Cutting a number down to `k` bits keeps the bits below `k`.
pub bit-mod : (k i a : ℕ) → i < k → bit i (a % 2 ^ k) ≡ bit i a
unfolding bit
bit-mod zero i a h = absurd (omega arith)
bit-mod (suc k) zero a h = rw (mod-pow-suc k a) (omega arith)
bit-mod (suc k) (suc i) a h =
    let half : (a / 2 % 2 ^ k * 2 + a % 2) / 2 ≡ a / 2 % 2 ^ k = omega arith in
    rw (mod-pow-suc k a, half) (bit-mod k i (a / 2) (omega arith))
