-- ===== src/Util/Strings/Reversal.antt =====
-- The loop of `reverse` turns a string round.
use ten_os.Util.Strings.{swap_from, reverse}
use ten_os.Prelude.{
  ℕ, zero, suc, ◌+◌, ◌-◌, ◌≤◌, ◌<◌, ◌≡◌, refl, ap, ap₂, sym, ◌∙◌, List, [], ◌∷◌, ◌++◌, length,
  length-append, length-set, get_or, set, ltb, leb, ◌&&◌, ◌==◌, if◌then◌else◌, arith, Bool-cases,
  inl, inr,
}

get_or-set :
    (s : List ℕ) (i k v : ℕ)
    → i < length s
    → get_or (set s i v) k 0 ≡ (if i == k then v else get_or s k 0)
get_or-set [] i k v p = absurd (omega arith)
get_or-set (c ∷ s) zero zero v p = refl
get_or-set (c ∷ s) zero (suc k) v p = ground arith
get_or-set (c ∷ s) (suc i) zero v p = ground arith
get_or-set (c ∷ s) (suc i) (suc k) v p = get_or-set s i k v (omega arith) ∙ ground arith

length-swap_from : (left i j : ℕ) (s : List ℕ) → length (swap_from left i j s) ≡ length s
unfolding swap_from
length-swap_from zero i j s = refl
length-swap_from (suc left) i j s = elim (Bool-cases (ltb i j)) [
  | inl more ↦ rw more (
      length-swap_from left (i + 1) (j - 1) (set (set s i (get_or s j 0)) j (get_or s i 0))
      ∙ length-set (set s i (get_or s j 0)) j (get_or s i 0)
      ∙ length-set s i (get_or s j 0))
  | inr done ↦ rw done refl
]

get_or-swap_from :
    (left i j k : ℕ) (s : List ℕ)
    → j < length s
    → j ≤ i + left
    → get_or (swap_from left i j s) k 0
      ≡ (if leb i k && leb k j then get_or s (i + j - k) 0 else get_or s k 0)
unfolding swap_from
get_or-swap_from zero i j k s p q = ground (arith, ap (λ t. get_or s t 0) {x = i + j - k} {y = k})
get_or-swap_from (suc left) i j k s p q =
    let once = set s i (get_or s j 0) in
    let both = set once j (get_or s i 0) in
    let len : length both ≡ length s =
      length-set once j (get_or s i 0) ∙ length-set s i (get_or s j 0) in
    let at : (t : ℕ)
        → i < j
        → get_or both t 0
          ≡ (if j == t then get_or s i 0 else if i == t then get_or s j 0 else get_or s t 0) =
      λ t h.
        get_or-set once j t (get_or s i 0) (omega (arith, length-set s i (get_or s j 0)))
        ∙ rw (get_or-set s i t (get_or s j 0) (omega arith)) refl in
    elim (Bool-cases (ltb i j)) [
      | inl more ↦
          let closer : i < j = ground arith in
          rw more (
            get_or-swap_from left (i + 1) (j - 1) k both (omega arith) (omega arith)
            ∙ ground (
              arith,
              at (i + 1 + (j - 1) - k) closer,
              at k closer,
              ap (λ t. get_or s t 0) {x = i + 1 + (j - 1) - k} {y = i + j - k},
              ap (λ t. get_or s t 0) {x = j} {y = i + j - k},
              ap (λ t. get_or s t 0) {x = i} {y = i + j - k},
            ))
      | inr done ↦ rw done (ground (arith, ap (λ t. get_or s t 0) {x = i + j - k} {y = k}))
    ]

-- The list turned round.
abbrev pub reversed : List ℕ → List ℕ
reversed [] = []
reversed (c ∷ s) = reversed s ++ (c ∷ [])

length-reversed : (s : List ℕ) → length (reversed s) ≡ length s
length-reversed [] = refl
length-reversed (c ∷ s) = omega (arith, length-append (reversed s) (c ∷ []), length-reversed s)

get_or-append :
    (a b : List ℕ) (k : ℕ)
    → get_or (a ++ b) k 0 ≡ (if ltb k (length a) then get_or a k 0 else get_or b (k - length a) 0)
get_or-append [] b k = ground (arith, ap (λ t. get_or b t 0) {x = k} {y = k - 0})
get_or-append (c ∷ a) b zero = ground arith
get_or-append (c ∷ a) b (suc k) =
    get_or-append a b k
    ∙ ground (arith, ap (λ t. get_or b t 0) {x = k - length a} {y = suc k - suc (length a)})

get_or-suc : (c : ℕ) (s : List ℕ) (k : ℕ) → 0 < k → get_or (c ∷ s) k 0 ≡ get_or s (k - 1) 0
get_or-suc c s zero p = absurd (omega arith)
get_or-suc c s (suc k) p = ap (λ t. get_or s t 0) {x = k} {y = suc k - 1} (omega arith)

get_or-reversed :
    (s : List ℕ) (k : ℕ) → k < length s → get_or (reversed s) k 0 ≡ get_or s (length s - 1 - k) 0
get_or-reversed [] k p = absurd (omega arith)
get_or-reversed (c ∷ s) k p =
    get_or-append (reversed s) (c ∷ []) k ∙ elim (Bool-cases (ltb k (length s))) [
      | inl front ↦
          rw (length-reversed s, front)
            (get_or-reversed s k (ground arith)
              ∙ sym (
                  get_or-suc c s (suc (length s) - 1 - k) (ground arith)
                  ∙ ap (λ t. get_or s t 0) {x = suc (length s) - 1 - k - 1} {y = length s - 1 - k}
                      (omega arith)))
      | inr last ↦
          rw (length-reversed s, last)
            (ap (λ t. get_or (c ∷ []) t 0) {x = k - length s} {y = 0} (ground arith)
              ∙ sym (
                  ap (λ t. get_or (c ∷ s) t 0) {x = suc (length s) - 1 - k} {y = 0} (ground arith)))
    ]

list_ext :
    (a b : List ℕ)
    → length a ≡ length b
    → ((k : ℕ) → k < length a → get_or a k 0 ≡ get_or b k 0)
    → a ≡ b
list_ext [] [] e h = refl
list_ext [] (d ∷ b) e h = absurd (omega arith)
list_ext (c ∷ a) [] e h = absurd (omega arith)
list_ext (c ∷ a) (d ∷ b) e h =
    ap₂ (λ x y. x ∷ y) (h 0 (omega arith))
      (list_ext a b (omega arith) (λ k p. h (suc k) (omega arith)))

-- For every string: `reverse` turns it round.
pub reverse-reversed : (s : List ℕ) → reverse s ≡ reversed s
unfolding reverse
reverse-reversed [] = unfold swap_from in refl
reverse-reversed (c ∷ s) =
    let n = suc (length s) in
    list_ext (swap_from n 0 (n - 1) (c ∷ s)) (reversed (c ∷ s))
      (length-swap_from n 0 (n - 1) (c ∷ s) ∙ sym (length-reversed (c ∷ s)))
      (λ k p.
        let inside : k < n = omega (arith, length-swap_from n 0 (n - 1) (c ∷ s)) in
        get_or-swap_from n 0 (n - 1) k (c ∷ s) (omega arith) (omega arith)
        ∙ ground (
          arith,
          get_or-reversed (c ∷ s) k inside,
          ap (λ t. get_or (c ∷ s) t 0) {x = 0 + (n - 1) - k} {y = n - 1 - k},
        ))
