-- ===== src/Drivers/Keyboard/Typing.antt =====
-- From keys to the reader: the interrupt handler, the line and the ring together.
use ten_os.Drivers.Keyboard.Reading.{
  chars, are_plain, edited, Reads, waits, enter_Reads, typed-IsValid, edited-typed, Reads-typed,
  Reads-silent, modified-IsValid, has_newline-append,
}
use ten_os.Drivers.Keyboard.{Keyboard, buffer_size, newline, scancode_to_ascii, keyboard_read}
use ten_os.Drivers.Keyboard.Ring.{IsValid, queued, waiting, contents, slice}
use ten_os.Drivers.Keyboard.Lines.{has_newline}
use ten_os.Drivers.Keyboard.Keys.{
  is_plain, typed, keyboard_callback_plain, keyboard_callback_enter, is_silent, next_shift,
  next_caps, modified, keyboard_callback_silent,
}
use ten_os.Prelude.{
  inl, inr, Bool-cases, ℕ, suc, ◌+◌, ◌-◌, ◌<◌, ◌≡◌, refl, ap, ◌∙◌, Bool, true, false, some, List,
  [], ◌∷◌, ◌++◌, length, arith,
}

-- A key that gives a character leaves the modifiers.
plain_modifiers :
    (shift caps : Bool) (sc : ℕ)
    → is_plain shift caps sc ≡ true
    → (is_silent sc ≡ false) × (next_shift sc shift ≡ shift) × (next_caps sc caps ≡ caps)
plain_modifiers shift caps sc plain = ground arith

-- The keys of a line, one by one.
line_Reads :
    (codes : List ℕ) (k : Keyboard) (rest : List ℕ) (count : ℕ)
    → IsValid k
    → waiting k ≡ 0
    → are_plain k.shift_pressed k.caps_lock codes ≡ true
    → k.line_pos + length (chars k.shift_pressed k.caps_lock codes) < buffer_size - 1
    → has_newline (edited k) ≡ false
    → k.line_pos + length (chars k.shift_pressed k.caps_lock codes) < count
    → Reads k
        (chars k.shift_pressed k.caps_lock codes)
        rest
        (keyboard_read (codes ++ (0x1C ∷ rest)) k count)
line_Reads [] k rest count v zero_waiting plain room clean space =
    let none_waiting = ap (queued k.input_buffer k.read_pos) zero_waiting in
    rw (waits k 0x1C rest count v none_waiting, keyboard_callback_enter k)
      (enter_Reads k rest count v none_waiting zero_waiting (omega arith) clean (omega arith))
line_Reads (sc ∷ codes) k rest count v zero_waiting plain room clean space =
    let none_waiting = ap (queued k.input_buffer k.read_pos) zero_waiting in
    let shift = k.shift_pressed in
    let caps = k.caps_lock in
    let others : are_plain (next_shift sc shift) (next_caps sc caps) codes ≡ true = ground arith in
    elim (Bool-cases (is_silent sc)) [
      | inl silent ↦
          let same : chars shift caps (sc ∷ codes)
              ≡ chars (next_shift sc shift) (next_caps sc caps) codes =
            rw silent refl in
          rw
            (
              waits k sc (codes ++ (0x1C ∷ rest)) count v none_waiting,
              keyboard_callback_silent k sc silent,
              same,
            )
            (Reads-silent k sc _ rest _ (
              line_Reads codes (modified k sc) rest count (modified-IsValid k sc v) zero_waiting
                others (rw same at room) clean (rw same at space)))
      | inr sounds ↦
          let this : is_plain shift caps sc ≡ true = ground arith in
          let (_, kept_shift, kept_caps) = plain_modifiers shift caps sc this in
          let same : chars shift caps (sc ∷ codes)
              ≡ scancode_to_ascii sc shift caps ∷ chars shift caps codes =
            rw (sounds, kept_shift, kept_caps) refl in
          let shorter : length (chars shift caps (sc ∷ codes))
              ≡ suc (length (chars shift caps codes)) =
            ap length same in
          let clean' : has_newline (edited (typed k sc)) ≡ false =
            ap has_newline (edited-typed k sc v) ∙ has_newline-append (edited k) _ ∙ ground arith in
          rw
            (
              waits k sc (codes ++ (0x1C ∷ rest)) count v none_waiting,
              keyboard_callback_plain k sc this (omega arith),
              same,
            )
            (Reads-typed k sc _ rest _ v (
              line_Reads codes (typed k sc) rest count (typed-IsValid k sc v (omega arith))
                zero_waiting (rw (kept_shift, kept_caps) at others) (omega arith) clean'
                (omega arith)))
    ]

-- Presses and releases of keys for a line of at most 254 characters, with Shift and Caps Lock among
-- them but no press of Enter, of Backspace or of a key whose character is `?`, and then the press of
-- Enter, when nothing waits and no line is begun, make `keyboard_read` return exactly the characters
-- typed and a newline, if the buffer has room for them, and these bytes are also what is echoed;
-- then nothing waits again, and the codes behind Enter are left.
pub keyboard_read-typed :
    (k : Keyboard) (codes rest : List ℕ) (count : ℕ)
    → IsValid k
    → k.read_pos ≡ k.write_pos
    → k.line_pos ≡ 0
    → are_plain k.shift_pressed k.caps_lock codes ≡ true
    → length (chars k.shift_pressed k.caps_lock codes) < buffer_size - 1
    → length (chars k.shift_pressed k.caps_lock codes) < count
    → let line = chars k.shift_pressed k.caps_lock codes ++ (newline ∷ []) in
      (after : Keyboard) × (keyboard_read (codes ++ (0x1C ∷ rest)) k count
        ≡ some (line, after, rest, line))
      × (contents after ≡ [])
      × IsValid after
keyboard_read-typed k codes rest count v empty fresh plain room space =
    let no_line : edited k ≡ [] = ap (slice k.line_buffer 0) fresh in
    let r =
      line_Reads codes k rest count v (omega arith) plain (omega arith) (ap has_newline no_line)
        (omega arith) in
    let s = chars k.shift_pressed k.caps_lock codes ++ (newline ∷ []) in
    (
      r.after,
      r.returns ∙ ap (λ (l : List ℕ). some (l ++ s, r.after, rest, s)) no_line,
      r.drained,
      r.valid,
    )
