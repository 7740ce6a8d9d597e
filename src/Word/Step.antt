-- ===== src/Word/Step.antt =====
-- The native `bit_and` and `bit_or` as one equation on the lowest digit.
use Prim.Native.Nat.{digits, bit_and-bitwise, bit_or-bitwise}
use ten_os.Prelude.{
  ℕ, zero, suc, ◌+◌, ◌-◌, ◌*◌, ◌/◌, ◌%◌, ◌≤◌, min, max, bit_and, bit_or, ◌≡◌, refl, ap, ◌∙◌, arith,
}

-- Their definition halves the first number, on fuel; a round of fuel beyond that number changes
-- nothing.
module _ (rest : ℕ → ℕ) (digit : ℕ → ℕ → ℕ) where
  one_more :
      (fuel a b : ℕ) → a ≤ fuel → digits rest digit (suc fuel) a b ≡ digits rest digit fuel a b
  one_more zero zero b h = refl
  one_more (suc fuel) zero b h = refl
  one_more zero (suc a) b h = absurd (omega arith)
  one_more (suc fuel) (suc a) b h =
      ap (λ (high : ℕ). high * 2 + digit (suc a % 2) (b % 2))
        (one_more fuel (suc a / 2) (b / 2) (omega arith))

  spare_fuel :
      (spare fuel a b : ℕ)
      → a ≤ fuel
      → digits rest digit (spare + fuel) a b ≡ digits rest digit fuel a b
  spare_fuel zero fuel a b h = ap (λ n. digits rest digit n a b) (omega arith)
  spare_fuel (suc spare) fuel a b h =
      let e : suc spare + fuel ≡ suc (spare + fuel) = omega arith in
      rw e (one_more (spare + fuel) a b (omega arith) ∙ spare_fuel spare fuel a b h)

  high_digits :
      (a b : ℕ) → digits rest digit a (suc a / 2) b ≡ digits rest digit (suc a / 2) (suc a / 2) b
  high_digits a b =
      let e : a ≡ a - suc a / 2 + suc a / 2 = omega arith in
      ap (λ n. digits rest digit n (suc a / 2) b) e
      ∙ spare_fuel (a - suc a / 2) (suc a / 2) (suc a / 2) b (omega arith)

pub bit_or_step : (a b : ℕ) → bit_or a b ≡ bit_or (a / 2) (b / 2) * 2 + max (a % 2) (b % 2)
bit_or_step zero b = omega (arith, bit_or-bitwise 0 b, bit_or-bitwise 0 (b / 2))
bit_or_step (suc a) b = omega (
  arith,
  bit_or-bitwise (suc a) b,
  bit_or-bitwise (suc a / 2) (b / 2),
  high_digits (λ y. y) max a (b / 2),
)

pub bit_and_step : (a b : ℕ) → bit_and a b ≡ bit_and (a / 2) (b / 2) * 2 + min (a % 2) (b % 2)
bit_and_step zero b = omega (arith, bit_and-bitwise 0 b, bit_and-bitwise 0 (b / 2))
bit_and_step (suc a) b = omega (
  arith,
  bit_and-bitwise (suc a) b,
  bit_and-bitwise (suc a / 2) (b / 2),
  high_digits (λ y. 0) min a (b / 2),
)
