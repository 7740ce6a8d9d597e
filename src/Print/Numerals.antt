-- ===== src/Print/Numerals.antt =====
-- The numerals that are printed denote the numbers.
use native.Mathlib.Nat.{pow-suc}
use ten_os.Print.{digits, print_uint, print_positive, print_int}
use ten_os.Util.Strings.{reverse}
use ten_os.Util.Strings.Reversal.{reversed, reverse-reversed}
use ten_os.Word.{sub_u32}
use ten_os.Prelude.{
  ==_iff, get_or, false, ℕ, zero, suc, ◌+◌, ◌-◌, ◌*◌, ◌/◌, ◌%◌, ◌^◌, ◌<◌, ◌≤◌, ◌≡◌, ◌≢◌, ◌⊎◌, refl,
  List, [], ◌∷◌, ◌++◌, ◌==◌, leb, arith, Bool-cases, inl, inr,
}

-- The number that a decimal numeral denotes behind one for `acc`.
abbrev pub numeral : ℕ → List ℕ → ℕ
numeral acc [] = acc
numeral acc (c ∷ s) = numeral (acc * 10 + (c - b'0')) s

numeral-append : (acc : ℕ) (a b : List ℕ) → numeral acc (a ++ b) ≡ numeral (numeral acc a) b
numeral-append acc [] b = refl
numeral-append acc (c ∷ a) b = numeral-append (acc * 10 + (c - b'0')) a b

digits_lem : (room value : ℕ) → value < 10 ^ room → numeral 0 (reversed (digits room value)) ≡ value
unfolding digits
digits_lem zero value p = ground arith
digits_lem (suc room) value p = elim (Bool-cases (value == 0)) [
  | inl none_left ↦ rw none_left (ground arith)
  | inr more ↦
      let ih = digits_lem room (value / 10) (omega (arith, pow-suc 10 room)) in
      rw
        (
          more,
          numeral-append 0 (reversed (digits room (value / 10))) ((value % 10 + b'0') ∷ []),
          ih,
        )
        (omega arith)
]

-- Every character is a decimal digit.
abbrev pub AreDigits : List ℕ → Type 0
AreDigits [] = Unit
AreDigits (c ∷ s) = (b'0' ≤ c) × (c ≤ b'9') × AreDigits s

-- A string is the decimal numeral of a number: digits that denote it, without a 0 in front unless it
-- is the one digit.
pub record IsDecimal (s : List ℕ) (n : ℕ) : Type 0 where
  pub digits : AreDigits s
  pub denotes : numeral 0 s ≡ n
  pub front : (get_or s 0 b'0' ≢ b'0') ⊎ (s ≡ b'0' ∷ [])

AreDigits-append : (a b : List ℕ) → AreDigits a → AreDigits b → AreDigits (a ++ b)
AreDigits-append [] b p q = q
AreDigits-append (c ∷ a) b (p, p', ps) q = (p, p', AreDigits-append a b ps q)

digits-AreDigits : (room value : ℕ) → AreDigits (reversed (digits room value))
unfolding digits
digits-AreDigits zero value = tt
digits-AreDigits (suc room) value = elim (Bool-cases (value == 0)) [
  | inl none_left ↦ rw none_left tt
  | inr more ↦ rw more (
      AreDigits-append (reversed (digits room (value / 10))) ((value % 10 + b'0') ∷ [])
        (digits-AreDigits room (value / 10)) (omega arith, omega arith, tt))
]

front-append : (a b : List ℕ) → get_or a 0 b'0' ≢ b'0' → get_or (a ++ b) 0 b'0' ≢ b'0'
front-append [] b p = absurd (p refl)
front-append (c ∷ a) b p = p

digits_zero : (room : ℕ) → digits room 0 ≡ []
unfolding digits
digits_zero zero = refl
digits_zero (suc room) = refl

digits-front :
    (room value : ℕ)
    → 0 < value
    → value < 10 ^ room
    → get_or (reversed (digits room value)) 0 b'0' ≢ b'0'
unfolding digits
digits-front zero value pos p = absurd (ground arith)
digits-front (suc room) value pos p =
    let more : (value == 0) ≡ false = ground arith in
    elim (Bool-cases (value / 10 == 0)) [
      | inl one ↦
          let small : value / 10 ≡ 0 = ground arith in
          rw (more, small, digits_zero room) (λ e. omega arith)
      | inr long ↦ rw more (
          front-append (reversed (digits room (value / 10))) ((value % 10 + b'0') ∷ [])
            (digits-front room (value / 10) (ground arith) (omega (arith, pow-suc 10 room))))
    ]

reverse-IsDecimal :
    (room value : ℕ) → 0 < value → value < 10 ^ room → IsDecimal (reverse (digits room value)) value
reverse-IsDecimal room value pos p = rw (reverse-reversed (digits room value)) (record {
  digits = digits-AreDigits room value;
  denotes = digits_lem room value p;
  front = inl (digits-front room value pos p);
})

zero-IsDecimal : IsDecimal (b'0' ∷ []) 0
zero-IsDecimal = record {
  digits = (omega arith, omega arith, tt);
  denotes = omega arith;
  front = inr refl;
}

-- For every number of 32 bits: `print_uint` prints its decimal numeral.
print_uint_lem : (value : ℕ) → value < 2 ^ 32 → IsDecimal (print_uint value) value
unfolding print_uint
print_uint_lem value p = elim (Bool-cases (value == 0)) [
  | inl nothing ↦ rw (nothing, (==_iff _ _).0 nothing) zero-IsDecimal
  | inr more ↦ rw more (reverse-IsDecimal 10 value (ground arith) (omega arith))
]

print_positive_lem :
    (value : ℕ) → 0 < value → value < 2 ^ 31 → IsDecimal (print_positive value) value
unfolding print_positive
print_positive_lem value pos p =
    let sign : leb (2 ^ 31) value ≡ false = ground arith in
    rw sign (reverse-IsDecimal 11 value pos (omega arith))

-- For every number of 32 bits but the smallest `int`: `print_int` prints the decimal numeral of a
-- number that is not negative, digits without a 0 in front but for 0 itself, and else a minus sign
-- and the decimal numeral of its opposite.
pub print_int_lem :
    (value : ℕ)
    → value < 2 ^ 32
    → value ≢ 2 ^ 31
    → ((value < 2 ^ 31) × IsDecimal (print_int value) value)
      ⊎ ((s : List ℕ) × (2 ^ 31 < value)
          × (print_int value ≡ b'-' ∷ s)
          × IsDecimal s (2 ^ 32 - value))
unfolding print_int
print_int_lem value bound other = elim (Bool-cases (leb (2 ^ 31) value)) [
  | inl sign ↦
      let big : 2 ^ 31 ≤ value = ground arith in
      let more : (value == 0) ≡ false = ground arith in
      let opposite : sub_u32 0 value ≡ 2 ^ 32 - value = omega arith in
      inr (
        print_positive (sub_u32 0 value),
        ground arith,
        rw (more, sign) refl,
        rw opposite (print_positive_lem (2 ^ 32 - value) (omega arith) (omega arith)),
      )
  | inr plain ↦ inl (
    ground arith,
    elim (Bool-cases (value == 0)) [
      | inl nothing ↦ rw (nothing, (==_iff _ _).0 nothing) zero-IsDecimal
      | inr more ↦ rw (more, plain) (print_positive_lem value (ground arith) (ground arith))
    ],
  )
]
