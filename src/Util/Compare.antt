-- ===== src/Util/Compare.antt =====
-- `memcmp` gives 0 exactly on equal bytes.
use ten_os.Util.{memcmp, same}
use ten_os.Prelude.{
  ℕ, zero, suc, ◌+◌, ◌-◌, ◌==◌, sym, ◌<◌, ◌≡◌, refl, ap, ◌∙◌, false, ltb, Bool-cases, inl, inr,
  arith,
}

pub memcmp-equal :
    (n from to : ℕ) (src dst : ℕ → ℕ)
    → ((j : ℕ) → j < n → src (from + j) ≡ dst (to + j))
    → memcmp src from dst to n ≡ same
unfolding memcmp
memcmp-equal zero from to src dst h = refl
memcmp-equal (suc n) from to src dst h =
    let here : src from ≡ dst to =
      ap src (omega arith) ∙ h 0 (omega arith) ∙ ap dst (omega arith) in
    let ih =
      memcmp-equal n (from + 1) (to + 1) src dst
        (λ j k. ap src (omega arith) ∙ h (suc j) (omega arith) ∙ ap dst (omega arith)) in
    let irreflexive : ltb (dst to) (dst to) ≡ false = ground arith in rw (here, irreflexive) ih

pub memcmp-same :
    (n from to : ℕ) (src dst : ℕ → ℕ) (j : ℕ)
    → memcmp src from dst to n ≡ same
    → j < n
    → src (from + j) ≡ dst (to + j)
unfolding memcmp
memcmp-same zero from to src dst j e h = absurd (omega arith)
memcmp-same (suc n) from to src dst j e h = elim (Bool-cases (ltb (src from) (dst to))) [
  | inl below ↦ absurd (cc (rw below at e))
  | inr above ↦ elim (Bool-cases (ltb (dst to) (src from))) [
    | inl below ↦ absurd (cc (rw (above, below) at e))
    | inr equal ↦ elim (Bool-cases (j == 0)) [
      | inl first ↦
          let at : j ≡ 0 = ground arith in
          let here : src from ≡ dst to = ground arith in
          ap src {y = from} (omega arith) ∙ here ∙ ap dst {y = to + j} (omega arith)
      | inr later ↦
          let shift : (i : ℕ) → i + 1 + (j - 1) ≡ i + j = λ i. ground arith in
          ap src (sym (shift from))
          ∙ memcmp-same n (from + 1) (to + 1) src dst (j - 1) (rw (above, equal) at e)
              (ground arith)
          ∙ ap dst (shift to)
    ]
  ]
]
