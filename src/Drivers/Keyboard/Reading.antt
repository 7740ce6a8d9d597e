-- ===== src/Drivers/Keyboard/Reading.antt =====
-- What `keyboard_read` gives while a line is typed, and how one byte changes it.
use ten_os.Drivers.Keyboard.{
  Keyboard, buffer_size, newline, scancode_to_ascii, commit_line, keyboard_callback,
  has_complete_line, read_bytes, keyboard_read, echoing,
}
use ten_os.Drivers.Keyboard.Ring.{
  IsValid, waiting, contents, slice, commit_line_appends, commit_line-IsValid,
}
use ten_os.Drivers.Keyboard.Lines.{has_newline, has_complete_line_lem, take_line, read_bytes_lem}
use ten_os.Drivers.Keyboard.Keys.{is_plain, typed, is_silent, next_shift, next_caps, modified}
use ten_os.Prelude.{
  if◌then◌else◌, ℕ, zero, suc, ◌+◌, ◌-◌, ◌<◌, ◌≡◌, refl, ap, ap₂, ◌∙◌, ◌||◌, ◌&&◌, Bool, true,
  false, Option, some, List, [], ◌∷◌, ◌++◌, length, set, length-set, get_or-set_self, get_or-set_ne,
  append_assoc, arith,
}

slice-set_end :
    (buf : List ℕ) (i n j c : ℕ)
    → i + n ≡ j
    → j < length buf
    → slice (set buf j c) i (suc n) ≡ slice buf i n ++ (c ∷ [])
slice-set_end buf i zero j c h q =
    let same : i ≡ j = omega arith in rw (same, get_or-set_self buf j c 0 q)
slice-set_end buf i (suc n) j c h q =
    ap₂ ◌∷◌ (get_or-set_ne buf j i c 0 (omega arith))
      (slice-set_end buf (i + 1) n j c (omega arith) q)

take_line_whole :
    (s : List ℕ) (room : ℕ)
    → has_newline s ≡ false
    → length s < room
    → take_line room (s ++ (newline ∷ [])) ≡ (s ++ (newline ∷ []), [])
take_line_whole s zero h q = absurd (omega arith)
take_line_whole [] (suc room) h q = refl
take_line_whole (c ∷ s) (suc room) h q = ground (arith, take_line_whole s room)

pub has_newline-append : (s t : List ℕ) → has_newline (s ++ t) ≡ (has_newline s || has_newline t)
has_newline-append [] t = refl
has_newline-append (c ∷ s) t = ground (arith, has_newline-append s t)

length-slice : (buf : List ℕ) (i n : ℕ) → length (slice buf i n) ≡ n
length-slice buf i zero = refl
length-slice buf i (suc n) = ap suc (length-slice buf (i + 1) n)

-- The characters that bytes from the keyboard give, from Shift and Caps Lock as given on.
abbrev pub chars : Bool → Bool → List ℕ → List ℕ
chars shift caps [] = []
chars shift caps (sc ∷ codes) =
    let rest = chars (next_shift sc shift) (next_caps sc caps) codes in
    if is_silent sc then rest else scancode_to_ascii sc shift caps ∷ rest

-- Keys of a line: each byte is a release, a modifier or a key that gives a character for the line.
abbrev pub are_plain : Bool → Bool → List ℕ → Bool
are_plain shift caps [] = true
are_plain shift caps (sc ∷ codes) =
    (is_silent sc || is_plain shift caps sc)
    && are_plain (next_shift sc shift) (next_caps sc caps) codes

-- The line that is being edited.
abbrev pub edited : Keyboard → List ℕ
edited k = slice k.line_buffer 0 k.line_pos

-- What `keyboard_read` gives.
abbrev pub Read : Type 0
Read = Option (List ℕ × Keyboard × List ℕ × List ℕ)

-- `out` is a return with the edited line, `s` and a newline, after which nothing waits, and the
-- echo is `s` and a newline.
pub record Reads (k : Keyboard) (s rest : List ℕ) (out : Read) : Type 0 where
  pub after : Keyboard
  pub returns : out ≡ some (edited k ++ (s ++ (newline ∷ [])), after, rest, s ++ (newline ∷ []))
  pub drained : contents after ≡ []
  pub valid : IsValid after

-- Nothing is read while no line is complete.
pub waits :
    (k : Keyboard) (byte : ℕ) (codes : List ℕ) (count : ℕ)
    → IsValid k
    → contents k ≡ []
    → keyboard_read (byte ∷ codes) k count
      ≡ echoing
          (keyboard_callback k byte).1
          (keyboard_read codes (keyboard_callback k byte).0 count)
unfolding keyboard_read
waits k byte codes count v none_waiting =
    let no_line : has_complete_line k ≡ some false =
      has_complete_line_lem k v ∙ ap (λ s. some (has_newline s)) none_waiting in
    rw (no_line, keyboard_read)

reads_now :
    (k : Keyboard) (codes : List ℕ) (count : ℕ)
    → has_complete_line k ≡ some true
    → keyboard_read codes k count ≡ some ((read_bytes count k).0, (read_bytes count k).1, codes, [])
unfolding keyboard_read
reads_now k [] count h = rw (h, keyboard_read)
reads_now k (byte ∷ codes) count h = rw (h, keyboard_read)

-- Enter, and the read of the line.
pub enter_Reads :
    (k : Keyboard) (rest : List ℕ) (count : ℕ)
    → IsValid k
    → contents k ≡ []
    → waiting k ≡ 0
    → k.line_pos < buffer_size - 1
    → has_newline (edited k) ≡ false
    → k.line_pos < count
    → Reads k [] rest (echoing (newline ∷ []) (keyboard_read rest (commit_line k) count))
enter_Reads k rest count v none_waiting zero_waiting room clean space = record {
  after = (read_bytes count (commit_line k)).1;
  returns =
      ap (echoing (newline ∷ [])) (reads_now (commit_line k) rest count complete)
      ∙ ap
          (λ (bytes : List ℕ).
            some (bytes, (read_bytes count (commit_line k)).1, rest, newline ∷ []))
          (ap (λ (p : List ℕ × List ℕ). p.0) read);
  drained = ap (λ (p : List ℕ × List ℕ). p.1) read;
  valid = (read_bytes_lem count (commit_line k) v').1;
}
  where
    v' : IsValid (commit_line k)
    v' = commit_line-IsValid k v

    committed : contents (commit_line k) ≡ edited k ++ (newline ∷ [])
    committed =
        commit_line_appends k v (omega arith)
        ∙ ap (λ s. s ++ (edited k ++ (newline ∷ []))) none_waiting

    complete : has_complete_line (commit_line k) ≡ some true
    complete =
        has_complete_line_lem (commit_line k) v'
        ∙ ap (λ s. some (has_newline s)) committed
        ∙ ap some (has_newline-append (edited k) (newline ∷ []) ∙ rw clean)

    read :
        ◌≡◌ {A = List ℕ × List ℕ}
          ((read_bytes count (commit_line k)).0, contents (read_bytes count (commit_line k)).1)
          (edited k ++ (newline ∷ []), [])
    read =
        (read_bytes_lem count (commit_line k) v').0
        ∙ ap (take_line count) committed
        ∙ take_line_whole (edited k) count clean
            (omega (arith, length-slice k.line_buffer 0 k.line_pos))

pub typed-IsValid :
    (k : Keyboard) (sc : ℕ) → IsValid k → k.line_pos < buffer_size - 1 → IsValid (typed k sc)
typed-IsValid k sc v h = record {
  input_size = v.input_size;
  line_size =
      length-set k.line_buffer k.line_pos (scancode_to_ascii sc k.shift_pressed k.caps_lock)
      ∙ v.line_size;
  read_in = v.read_in;
  write_in = v.write_in;
  line_in = omega arith;
}

pub edited-typed :
    (k : Keyboard) (sc : ℕ)
    → IsValid k
    → edited (typed k sc) ≡ edited k ++ (scancode_to_ascii sc k.shift_pressed k.caps_lock ∷ [])
edited-typed k sc v =
    let longer : k.line_pos + 1 ≡ suc k.line_pos = omega arith in
    let c = scancode_to_ascii sc k.shift_pressed k.caps_lock in
    ap (slice (set k.line_buffer k.line_pos c) 0) longer
    ∙ slice-set_end k.line_buffer 0 k.line_pos k.line_pos c (omega arith) (omega arith)

-- A read of the line with one more key in front.
pub Reads-typed :
    (k : Keyboard) (sc : ℕ) (s rest : List ℕ) (out : Read)
    → IsValid k
    → Reads (typed k sc) s rest out
    → Reads k
        (scancode_to_ascii sc k.shift_pressed k.caps_lock ∷ s)
        rest
        (echoing (scancode_to_ascii sc k.shift_pressed k.caps_lock ∷ []) out)
Reads-typed k sc s rest out v r =
    let c = scancode_to_ascii sc k.shift_pressed k.caps_lock in
    let moved : edited (typed k sc) ++ (s ++ (newline ∷ []))
        ≡ edited k ++ (c ∷ (s ++ (newline ∷ []))) =
      ap (λ t. t ++ (s ++ (newline ∷ []))) (edited-typed k sc v)
      ∙ append_assoc (edited k) (c ∷ []) (s ++ (newline ∷ [])) in
    record {
      after = r.after;
      returns =
          ap (echoing (c ∷ [])) r.returns
          ∙ ap (λ (bytes : List ℕ). some (bytes, r.after, rest, c ∷ (s ++ (newline ∷ [])))) moved;
      drained = r.drained;
      valid = r.valid;
    }

-- A byte that gives no character leaves the line.
pub Reads-silent :
    (k : Keyboard) (sc : ℕ) (s rest : List ℕ) (out : Read)
    → Reads (modified k sc) s rest out
    → Reads k s rest (echoing [] out)
Reads-silent k sc s rest out r = record {
  after = r.after;
  returns = ap (echoing []) r.returns;
  drained = r.drained;
  valid = r.valid;
}

pub modified-IsValid : (k : Keyboard) (sc : ℕ) → IsValid k → IsValid (modified k sc)
modified-IsValid k sc v = record {
  input_size = v.input_size;
  line_size = v.line_size;
  read_in = v.read_in;
  write_in = v.write_in;
  line_in = v.line_in;
}
