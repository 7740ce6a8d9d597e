-- ===== src/Fs/Listing/Names.antt =====
-- The name that the list shows for an entry, and the name that the file was given.
use ten_os.Fs.Listing.{unpadded, c_string, entry_name}
use ten_os.Fs.Name.{space, dot, to_upper, to_dos_filename}
use ten_os.Fs.Name.Padded.{before_dot, after_dot, padded, length-padded, to_dos_filename-padded}
use ten_os.Prelude.{
  ℕ, zero, suc, ◌+◌, ◌*◌, ◌≤◌, ◌<◌, ◌≡◌, ◌≢◌, refl, sym, ap, ap₂, ◌∙◌, List, [], ◌∷◌, ◌++◌, map,
  append-nil, ne→==-false, ◌==◌, get_or, length, arith, false,
}

-- No dot, no padding and no terminator.
abbrev pub IsPlain : List ℕ → Type 0
IsPlain [] = Unit
IsPlain (c ∷ s) = ((c ≢ space) × (c ≢ dot) × (c ≢ 0)) × IsPlain s

to_upper-ne : (c : ℕ) → c ≢ space → c ≢ 0 → (to_upper c ≢ space) × (to_upper c ≢ 0)
unfolding to_upper
to_upper-ne c p q = (ground arith, ground arith)

get_or-left : (xs ys : List ℕ) (j : ℕ) → j < length xs → get_or (xs ++ ys) j 0 ≡ get_or xs j 0
get_or-left [] ys j h = absurd (omega arith)
get_or-left (x ∷ xs) ys zero h = refl
get_or-left (x ∷ xs) ys (suc j) h = get_or-left xs ys j (omega arith)

get_or-right : (xs ys : List ℕ) (j : ℕ) → get_or (xs ++ ys) (length xs + j) 0 ≡ get_or ys j 0
get_or-right [] ys j = let e : 0 + j ≡ j = omega arith in rw e refl
get_or-right (x ∷ xs) ys j =
    let e : suc (length xs) + j ≡ suc (length xs + j) = omega arith in rw e (get_or-right xs ys j)

unpadded-padded :
    (n at : ℕ) (s : List ℕ) (buf : ℕ → ℕ)
    → IsPlain s
    → length s ≤ n
    → ((j : ℕ) → j < n → buf (at + j) ≡ get_or (padded n s) j 0)
    → unpadded n at buf ≡ map to_upper s
unfolding unpadded
unpadded-padded zero at [] buf p h same = refl
unpadded-padded zero at (c ∷ s) buf p h same = absurd (omega arith)
unpadded-padded (suc n) at [] buf p h same =
    let here : buf at ≡ space = ap buf (omega arith) ∙ same 0 (omega arith) in rw here refl
unpadded-padded (suc n) at (c ∷ s) buf (p, ps) h same =
    let here : buf at ≡ to_upper c = ap buf (omega arith) ∙ same 0 (omega arith) in
    let kept : (to_upper c == space) ≡ false = ground (arith, to_upper-ne c p.0 p.2) in
    let ih =
      unpadded-padded n (at + 1) s buf ps (omega arith)
        (λ j k. ap buf (omega arith) ∙ same (suc j) (omega arith)) in
    rw (here, kept, ih) refl

upper-append : (s t : List ℕ) → map to_upper (s ++ t) ≡ map to_upper s ++ map to_upper t
upper-append [] t = refl
upper-append (c ∷ s) t = ap (λ r. to_upper c ∷ r) (upper-append s t)

before_dot-plain : (s t : List ℕ) → IsPlain s → before_dot (s ++ (dot ∷ t)) ≡ s
before_dot-plain [] t p = refl
before_dot-plain (c ∷ s) t (p, ps) =
    let kept : (c == dot) ≡ false = ground (arith, p.1) in rw (kept, before_dot-plain s t ps) refl

after_dot-plain : (s t : List ℕ) → IsPlain s → after_dot (s ++ (dot ∷ t)) ≡ t
after_dot-plain [] t p = refl
after_dot-plain (c ∷ s) t (p, ps) =
    let kept : (c == dot) ≡ false = ground (arith, p.1) in rw (kept, after_dot-plain s t ps) refl

c_string-plain :
    (s t : List ℕ) → IsPlain s → c_string (map to_upper s ++ t) ≡ map to_upper s ++ c_string t
unfolding c_string
c_string-plain [] t p = refl
c_string-plain (c ∷ s) t (p, ps) =
    let kept : (to_upper c == 0) ≡ false = ground (arith, to_upper-ne c p.0 p.2) in
    rw (kept, c_string-plain s t ps) refl

dot-upper : to_upper dot ≡ dot
unfolding to_upper
dot-upper = refl

-- A file whose name is a part of at most 8 bytes, a dot, and a part of 1 to 3 bytes, neither part
-- with a dot, a space or a terminator in it: if the 11 bytes of an entry are those that
-- `to_dos_filename` makes of the name, the list shows the name in upper case.
pub entry_name-to_dos_filename :
    (base : List ℕ) (e : ℕ) (ext : List ℕ) (buf : ℕ → ℕ) (i : ℕ)
    → IsPlain base
    → IsPlain (e ∷ ext)
    → length base ≤ 8
    → length (e ∷ ext) ≤ 3
    → ((j : ℕ) → j < 11 → buf (32 * i + j) ≡ get_or (to_dos_filename (base ++ (dot ∷ e ∷ ext))) j 0)
    → c_string (entry_name buf i) ≡ map to_upper (base ++ (dot ∷ e ∷ ext))
unfolding entry_name c_string
entry_name-to_dos_filename base e ext buf i p q short short' same =
    let dos : to_dos_filename (base ++ (dot ∷ e ∷ ext)) ≡ padded 8 base ++ padded 3 (e ∷ ext) =
      to_dos_filename-padded (base ++ (dot ∷ e ∷ ext))
      ∙ ap₂ (λ a b. padded 8 a ++ padded 3 b) (before_dot-plain base (e ∷ ext) p)
          (after_dot-plain base (e ∷ ext) p) in
    let front = unpadded-padded 8 (32 * i) base buf p short (λ j k.
      same j (omega arith)
      ∙ ap (λ s. get_or s j 0) dos
      ∙ get_or-left (padded 8 base) (padded 3 (e ∷ ext)) j (omega (arith, length-padded 8 base))) in
    let extension : (j : ℕ) → j < 3 → buf (32 * i + 8 + j) ≡ get_or (padded 3 (e ∷ ext)) j 0 =
      λ j k.
        ap buf (omega arith)
        ∙ same (8 + j) (omega arith)
        ∙ ap (λ s. get_or s (8 + j) 0) dos
        ∙ ap (λ n. get_or (padded 8 base ++ padded 3 (e ∷ ext)) (n + j) 0)
            (sym (length-padded 8 base))
        ∙ get_or-right (padded 8 base) (padded 3 (e ∷ ext)) j in
    let back = unpadded-padded 3 (32 * i + 8) (e ∷ ext) buf q short' extension in
    let start : buf (32 * i + 8) ≡ to_upper e = ap buf (omega arith) ∙ extension 0 (omega arith) in
    let first : (buf (32 * i + 8) == space) ≡ false =
      rw start (ne→==-false (to_upper e) space (to_upper-ne e q.0.0 q.0.2).0) in
    let shown : c_string (map to_upper (e ∷ ext)) ≡ map to_upper (e ∷ ext) =
      ap c_string (sym (append-nil (map to_upper (e ∷ ext))))
      ∙ c_string-plain (e ∷ ext) [] q
      ∙ append-nil _ in
    rw (front, first, back)
      (c_string-plain base (dot ∷ map to_upper (e ∷ ext)) p
        ∙ ap (λ t. map to_upper base ++ (dot ∷ t)) shown
        ∙ ap (λ d. map to_upper base ++ (d ∷ map to_upper (e ∷ ext))) (sym dot-upper)
        ∙ sym (upper-append base (dot ∷ e ∷ ext)))
