-- ===== src/Prelude/Least.antt =====
-- The outcome of a search upwards for the first number that passes a test.
use mathlib.Core.Path.{subst}
use Prim.Native.Nat.{ℕ, ◌≤◌, ◌<◌}
use mathlib.Core.Path.{◌≡◌, fun_ext, refl, ap}
use mathlib.Core.Bool.{Bool, true, false}
use mathlib.Core.Option.{Option, none, some}
use native.Mathlib.Omega.{arith}

-- `r` is the least number from `lo` up to `hi` that passes `p`, or none if none does.
abbrev pub IsLeast : (ℕ → Bool) → ℕ → ℕ → Option ℕ → Type 0
IsLeast p lo hi none = (b : ℕ) → lo ≤ b → b < hi → p b ≡ false
IsLeast p lo hi (some f) =
    (lo ≤ f) × (f < hi) × (p f ≡ true) × ((b : ℕ) → lo ≤ b → b < f → p b ≡ false)

pub IsLeast-skip :
    (p : ℕ → Bool) (lo mid hi : ℕ) (r : Option ℕ)
    → lo ≤ mid
    → ((b : ℕ) → lo ≤ b → b < mid → p b ≡ false)
    → IsLeast p mid hi r
    → IsLeast p lo hi r
IsLeast-skip p lo mid hi none h below rest = λ b q k. ground (arith, below b, rest b)
IsLeast-skip p lo mid hi (some f) h below rest =
    (omega arith, omega arith, rest.2, λ b q k. ground (arith, below b, rest.3 b))

pub IsLeast-ext :
    (p q : ℕ → Bool) (lo hi : ℕ) (r : Option ℕ)
    → ((b : ℕ) → p b ≡ q b)
    → IsLeast p lo hi r
    → IsLeast q lo hi r
IsLeast-ext p q lo hi r e h = subst (λ t. IsLeast t lo hi r) (fun_ext e) h

-- The result of a first search, or of a second one behind it.
pub IsLeast-or :
    (p : ℕ → Bool) (lo mid hi : ℕ) (r rest : Option ℕ)
    → lo ≤ mid
    → mid ≤ hi
    → IsLeast p lo mid r
    → IsLeast p mid hi rest
    → IsLeast p lo hi (elim r [ some f ↦ some f | none ↦ rest ])
IsLeast-or p lo mid hi none rest h k first second = IsLeast-skip p lo mid hi rest h first second
IsLeast-or p lo mid hi (some f) rest h k first second = (first.0, omega arith, first.2, first.3)

pub IsLeast_unique :
    (p : ℕ → Bool) (lo hi : ℕ) (r s : Option ℕ) → IsLeast p lo hi r → IsLeast p lo hi s → r ≡ s
IsLeast_unique p lo hi none none a b = refl
IsLeast_unique p lo hi none (some k) a b = ground (arith, a k b.0 b.1, b.2)
IsLeast_unique p lo hi (some k) none a b = ground (arith, b k a.0 a.1, a.2)
IsLeast_unique p lo hi (some k) (some l) a b = ap some (ground (arith, a.3 l, b.3 k, a, b))
