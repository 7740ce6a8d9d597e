-- ===== src/Fs/Name/Padded.antt =====
-- The 8.3 form: the name and the extension, in upper case and padded with spaces.
use ten_os.Fs.Name.{
  space, dot, to_upper, copy_name, skip_to_dot, copy_extension, after_name, to_dos_filename,
}
use ten_os.Prelude.{
  ℕ, zero, suc, ◌+◌, ◌≡◌, refl, ap, ap₂, sym, ◌∙◌, List, [], ◌∷◌, ◌++◌, append_assoc, leb, ◌==◌,
  if◌then◌else◌, set, replicate, length, length-append, true, false, Bool-cases, inl, inr, ◌⊎◌,
  arith,
}

-- What stands before the first dot, and behind it.
abbrev pub before_dot : List ℕ → List ℕ
before_dot [] = []
before_dot (c ∷ s) = if c == dot then [] else c ∷ before_dot s

abbrev pub after_dot : List ℕ → List ℕ
after_dot [] = []
after_dot (c ∷ s) = if c == dot then s else after_dot s

-- The first `n` bytes in upper case, with spaces behind them up to `n`.
abbrev pub padded : ℕ → List ℕ → List ℕ
padded zero s = []
padded (suc n) [] = space ∷ padded n []
padded (suc n) (c ∷ s) = to_upper c ∷ padded n s

pub length-padded : (n : ℕ) (s : List ℕ) → length (padded n s) ≡ n
length-padded zero s = refl
length-padded (suc n) [] = ap suc (length-padded n [])
length-padded (suc n) (c ∷ s) = ap suc (length-padded n s)

padded-nil : (n : ℕ) → replicate n space ≡ padded n []
padded-nil zero = refl
padded-nil (suc n) = ap (λ s. space ∷ s) (padded-nil n)

-- A write just behind `pre`.
set-append :
    (pre : List ℕ) (j x v : ℕ) (rest : List ℕ)
    → length pre ≡ j
    → set (pre ++ (x ∷ rest)) j v ≡ (pre ++ (v ∷ [])) ++ rest
set-append [] zero x v rest h = refl
set-append [] (suc j) x v rest h = absurd (omega arith)
set-append (p ∷ pre) zero x v rest h = absurd (omega arith)
set-append (p ∷ pre) (suc j) x v rest h = ap (λ s. p ∷ s) (set-append pre j x v rest (omega arith))

skip_to_dot-go : (c : ℕ) (s : List ℕ) → (c == dot) ≡ false → skip_to_dot (c ∷ s) ≡ skip_to_dot s
unfolding skip_to_dot
skip_to_dot-go c s go = rw go refl

copy_name-padded :
    (s : List ℕ) (n j : ℕ) (pre tail : List ℕ)
    → length pre ≡ j
    → j + n ≡ 8
    → ((copy_name s j (pre ++ (replicate n space ++ tail))).0
        ≡ pre ++ (padded n (before_dot s) ++ tail))
      × (skip_to_dot (copy_name s j (pre ++ (replicate n space ++ tail))).1 ≡ skip_to_dot s)
unfolding copy_name
copy_name-padded [] n j pre tail h e = (ap (λ p. pre ++ (p ++ tail)) (padded-nil n), refl)
copy_name-padded (c ∷ s) zero j pre tail h e =
    let full : leb 8 j ≡ true = ground arith in
    elim (Bool-cases (c == dot)) [
      | inl stop ↦ rw (full, stop) (refl, refl)
      | inr go ↦ rw (full, go) (refl, refl)
    ]
copy_name-padded (c ∷ s) (suc n) j pre tail h e =
    let open_place : leb 8 j ≡ false = ground arith in
    elim (Bool-cases (c == dot)) [
      | inl stop ↦ rw stop (ap (λ p. pre ++ (p ++ tail)) (padded-nil (suc n)), refl)
      | inr go ↦
          let ih =
            copy_name-padded s n (j + 1) (pre ++ (to_upper c ∷ [])) tail
              (omega (arith, length-append pre (to_upper c ∷ []))) (omega arith) in
          rw (go, open_place, set-append pre j space (to_upper c) (replicate n space ++ tail) h)
            (
              ih.0 ∙ append_assoc pre (to_upper c ∷ []) (padded n (before_dot s) ++ tail),
              ih.1 ∙ sym (skip_to_dot-go c s go),
            )
    ]

copy_extension-padded :
    (s : List ℕ) (n j : ℕ) (pre : List ℕ)
    → length pre ≡ j
    → j + n ≡ 11
    → copy_extension s j (pre ++ replicate n space) ≡ pre ++ padded n s
unfolding copy_extension
copy_extension-padded [] n j pre h e = ap (λ p. pre ++ p) (padded-nil n)
copy_extension-padded (c ∷ s) zero j pre h e = let full : leb 11 j ≡ true = ground arith in rw full
copy_extension-padded (c ∷ s) (suc n) j pre h e =
    let open_place : leb 11 j ≡ false = ground arith in
    let ih =
      copy_extension-padded s n (j + 1) (pre ++ (to_upper c ∷ []))
        (omega (arith, length-append pre (to_upper c ∷ []))) (omega arith) in
    rw (open_place, set-append pre j space (to_upper c) (replicate n space) h)
      (ih ∙ append_assoc pre (to_upper c ∷ []) (padded n s))

skip_to_dot-cases :
    (s : List ℕ) → ((skip_to_dot s ≡ []) × (after_dot s ≡ [])) ⊎ (skip_to_dot s ≡ dot ∷ after_dot s)
unfolding skip_to_dot
skip_to_dot-cases [] = inl (refl, refl)
skip_to_dot-cases (c ∷ s) = ground (arith, skip_to_dot-cases s)

after_name-padded :
    (s : List ℕ)
    → after_name (skip_to_dot s) (padded 8 (before_dot s) ++ replicate 3 space)
      ≡ padded 8 (before_dot s) ++ padded 3 (after_dot s)
unfolding after_name
after_name-padded s = elim (skip_to_dot-cases s) [
  | inl (none_left, no_extension) ↦
      rw (none_left, no_extension) (ap (λ p. padded 8 (before_dot s) ++ p) (padded-nil 3))
  | inr found ↦ rw found (
      copy_extension-padded (after_dot s) 3 8 (padded 8 (before_dot s))
        (length-padded 8 (before_dot s)) refl)
]

-- For every string: the output of `to_dos_filename` is the part before the first dot in 8 bytes
-- and the part behind it in 3, each in upper case, cut or padded with spaces.
pub to_dos_filename-padded :
    (s : List ℕ) → to_dos_filename s ≡ padded 8 (before_dot s) ++ padded 3 (after_dot s)
unfolding to_dos_filename
to_dos_filename-padded s =
    let name = copy_name-padded s 8 0 [] (replicate 3 space) refl refl in
    ap₂ after_name name.1 name.0 ∙ after_name-padded s
