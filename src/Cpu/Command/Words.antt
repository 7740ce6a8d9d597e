-- ===== src/Cpu/Command/Words.antt =====
-- How `process_cmd` and the commands cut their line into words.
use ten_os.Cpu.Console.{System, ◌>>=◌}
use ten_os.Cpu.Command.{space, take_name, take_cmd, skip_spaces, run_cmd, process_cmd}
use ten_os.Fs.Listing.{c_string}
use ten_os.Prelude.{
  ℕ, zero, suc, ◌≤◌, ◌<◌, ◌≡◌, ◌≢◌, ◌⊎◌, inl, inr, refl, ap, List, [], ◌∷◌, ◌++◌, none, some,
  length, replicate, ne→==-false, Option-cases, arith,
}

abbrev pub HasNoSpace : List ℕ → Type 0
HasNoSpace [] = Unit
HasNoSpace (c ∷ s) = (c ≢ space) × HasNoSpace s

-- A string that does not begin with a space.
abbrev pub IsTrimmed : List ℕ → Type 0
IsTrimmed [] = Unit
IsTrimmed (c ∷ s) = c ≢ space

skip_spaces-trimmed : (s : List ℕ) → IsTrimmed s → skip_spaces s ≡ s
unfolding skip_spaces
skip_spaces-trimmed [] h = refl
skip_spaces-trimmed (c ∷ s) h = rw (ne→==-false c space h) refl

skip_spaces-replicate :
    (n : ℕ) (s : List ℕ) → IsTrimmed s → skip_spaces (replicate n space ++ s) ≡ s
unfolding skip_spaces
skip_spaces-replicate zero s h = skip_spaces-trimmed s h
skip_spaces-replicate (suc n) s h = skip_spaces-replicate n s h

take_cmd-word :
    (w : List ℕ) (room : ℕ) (rest : List ℕ)
    → HasNoSpace w
    → length w ≤ room
    → take_cmd room (w ++ (space ∷ rest)) ≡ some (w, space ∷ rest)
unfolding take_cmd
take_cmd-word [] zero rest h fits = refl
take_cmd-word [] (suc room) rest h fits = refl
take_cmd-word (c ∷ w) zero rest h fits = absurd (omega arith)
take_cmd-word (c ∷ w) (suc room) rest (h, hs) fits =
    rw (ne→==-false c space h, take_cmd-word w room rest hs (omega arith)) refl

take_cmd-last :
    (w : List ℕ) (room : ℕ) → HasNoSpace w → length w ≤ room → take_cmd room w ≡ some (w, [])
unfolding take_cmd
take_cmd-last [] room h fits = refl
take_cmd-last (c ∷ w) zero h fits = absurd (omega arith)
take_cmd-last (c ∷ w) (suc room) (h, hs) fits =
    rw (ne→==-false c space h, take_cmd-last w room hs (omega arith)) refl

take_cmd-long :
    (w : List ℕ) (room : ℕ) (rest : List ℕ)
    → HasNoSpace w
    → room < length w
    → take_cmd room (w ++ rest) ≡ none
unfolding take_cmd
take_cmd-long [] room rest h long = absurd (omega arith)
take_cmd-long (c ∷ w) zero rest (h, hs) long = rw (ne→==-false c space h) refl
take_cmd-long (c ∷ w) (suc room) rest (h, hs) long =
    rw (ne→==-false c space h, take_cmd-long w room rest hs (omega arith)) refl

word-IsTrimmed : (w rest : List ℕ) → HasNoSpace w → w ≢ [] → IsTrimmed (w ++ rest)
word-IsTrimmed [] rest h some_word = absurd (some_word refl)
word-IsTrimmed (c ∷ w) rest (h, hs) some_word = h

-- A line of any spaces, a word of 1 to 19 bytes, and then some spaces and a string that does not
-- begin with one: `process_cmd` runs the command that the word stands for on this string, and
-- returns 0 if that has a result.
pub process_cmd-words :
    (n m : ℕ) (w args : List ℕ) (s : System)
    → HasNoSpace w
    → w ≢ []
    → length w ≤ 19
    → IsTrimmed args
    → process_cmd (replicate n space ++ (w ++ (replicate (suc m) space ++ args))) s
      ≡ (run_cmd w args s >>= λ s'. some (0, s'))
unfolding process_cmd
process_cmd-words n m w args s word some_word fits trimmed =
    rw
      (
        skip_spaces-replicate n (w ++ (replicate (suc m) space ++ args))
            (word-IsTrimmed w _ word some_word),
        take_cmd-word w 19 (replicate m space ++ args) word fits,
        skip_spaces-replicate (suc m) args trimmed,
      )
      refl

-- A word of 20 bytes or more in front of anything overruns the array: `process_cmd` has no result.
pub process_cmd-long :
    (n : ℕ) (w rest : List ℕ) (s : System)
    → HasNoSpace w
    → 19 < length w
    → process_cmd (replicate n space ++ (w ++ rest)) s ≡ none
unfolding process_cmd
process_cmd-long n w rest s word long =
    let some_word : w ≢ [] = λ e. omega (arith, ap length e) in
    rw
      (
        skip_spaces-replicate n (w ++ rest) (word-IsTrimmed w rest word some_word),
        take_cmd-long w 19 rest word long,
      )
      refl

pub take_name-word :
    (name : List ℕ) (room : ℕ) (rest : List ℕ)
    → HasNoSpace name
    → length name ≤ room
    → take_name room (name ++ (space ∷ rest)) ≡ some (name, space ∷ rest)
unfolding take_name
take_name-word [] zero rest h fits = refl
take_name-word [] (suc room) rest h fits = refl
take_name-word (c ∷ name) zero rest h fits = absurd (omega arith)
take_name-word (c ∷ name) (suc room) rest (h, hs) fits =
    rw (ne→==-false c space h, take_name-word name room rest hs (omega arith)) refl

-- No terminator.
abbrev pub IsString : List ℕ → Type 0
IsString [] = Unit
IsString (c ∷ s) = (c ≢ 0) × IsString s

pub c_string-IsString : (s rest : List ℕ) → IsString s → c_string (s ++ (0 ∷ rest)) ≡ s
unfolding c_string
c_string-IsString [] rest h = refl
c_string-IsString (c ∷ s) rest (h, hs) = rw (ne→==-false c 0 h, c_string-IsString s rest hs) refl

pub c_string_whole : (s : List ℕ) → IsString s → c_string s ≡ s
unfolding c_string
c_string_whole [] h = refl
c_string_whole (c ∷ s) (h, hs) = rw (ne→==-false c 0 h, c_string_whole s hs) refl

-- A result is 0.
pub process_cmd-zero :
    (buff : List ℕ) (s : System)
    → (process_cmd buff s ≡ none) ⊎ ((s' : System) × (process_cmd buff s ≡ some (0, s')))
unfolding process_cmd
process_cmd-zero buff s = elim (Option-cases (take_cmd 19 (skip_spaces buff))) [
  | inl e ↦ inl (rw e refl)
  | inr (r, e) ↦ elim (Option-cases (run_cmd r.0 (skip_spaces r.1) s)) [
    | inl e' ↦ inl (rw (e, e') refl)
    | inr (s', e') ↦ inr (s', rw (e, e') refl)
  ]
]
