-- ===== src/User/Shell/Compare.antt =====
-- `strcmp_user` gives 0 exactly on equal strings.
use ten_os.User.Shell.{strcmp_user}
use ten_os.Prelude.{
  ℕ, ◌<◌, ◌≡◌, ◌≢◌, ◌↔◌, refl, ap, ap₂, sym, ◌∙◌, List, [], ◌∷◌, ◌==◌, Bool-cases, inl, inr, arith,
}

-- Bytes, and no terminator among them.
abbrev pub IsBytes : List ℕ → Type 0
IsBytes [] = Unit
IsBytes (c ∷ s) = ((c ≢ 0) × (c < 256)) × IsBytes s

pub strcmp_user_refl : (s : List ℕ) → strcmp_user s s ≡ 0
unfolding strcmp_user
strcmp_user_refl [] = refl
strcmp_user_refl (c ∷ s) = ground (arith, strcmp_user_refl s)

strcmp_user-zero : (s t : List ℕ) → IsBytes s → IsBytes t → strcmp_user s t ≡ 0 → s ≡ t
unfolding strcmp_user
strcmp_user-zero [] [] p q e = refl
strcmp_user-zero [] (d ∷ t) p ((q, r), qs) e = absurd (q (omega arith))
strcmp_user-zero (c ∷ s) [] ((p, r), ps) q e = absurd (p e)
strcmp_user-zero (c ∷ s) (d ∷ t) ((p, r), ps) ((q, r'), qs) e = elim (Bool-cases (c == d)) [
  | inl same ↦
      let c-d : c ≡ d = ground arith in
      ap₂ (λ x (xs : List ℕ). x ∷ xs) c-d (strcmp_user-zero s t ps qs (rw same at e))
  | inr other ↦ absurd (ground arith)
]

-- For strings of bytes.
pub strcmp_user_lem : (s t : List ℕ) → IsBytes s → IsBytes t → (strcmp_user s t ≡ 0) ↔ (s ≡ t)
strcmp_user_lem s t p q =
    (strcmp_user-zero s t p q, λ e. ap (strcmp_user s) (sym e) ∙ strcmp_user_refl s)
