-- ===== src/Drivers/Keyboard/Lines.antt =====
-- Reading lines from the ring.
use ten_os.Drivers.Keyboard.{
  Keyboard, buffer_size, newline, line_from, has_complete_line, read_bytes,
}
use ten_os.Drivers.Keyboard.Ring.{IsValid, queued, waiting, contents}
use ten_os.Prelude.{
  ℕ, zero, suc, ◌+◌, ◌-◌, ◌%◌, ◌<◌, ◌≡◌, refl, ap, ◌≢◌, ◌==◌, if◌then◌else◌, Bool, true, false,
  some, List, [], ◌∷◌, get_or, ==_iff, ==-false→ne, Bool-cases, inl, inr, arith,
}

-- Whether a list holds a newline.
abbrev pub has_newline : List ℕ → Bool
has_newline [] = false
has_newline (c ∷ s) = if c == newline then true else has_newline s

line_from_lem :
    (n fuel pos : ℕ) (k : Keyboard)
    → IsValid k
    → pos < buffer_size
    → n < fuel
    → n ≡ (k.write_pos + buffer_size - pos) % buffer_size
    → line_from fuel pos k ≡ some (has_newline (queued k.input_buffer pos n))
unfolding line_from
line_from_lem n zero pos k v p q e = absurd (omega arith)
line_from_lem zero (suc fuel) pos k v p q e = ground arith
line_from_lem (suc n) (suc fuel) pos k v p q e =
    ground (arith, line_from_lem n fuel ((pos + 1) % buffer_size) k)

-- The scan of `has_complete_line` ends, and tells whether a newline is among the waiting bytes.
pub has_complete_line_lem :
    (k : Keyboard) → IsValid k → has_complete_line k ≡ some (has_newline (contents k))
unfolding has_complete_line
has_complete_line_lem k v =
    line_from_lem (waiting k) buffer_size k.read_pos k v v.read_in (omega arith) refl

-- The bytes up to the first newline, at most `room` of them, and the rest.
abbrev pub take_line : ℕ → List ℕ → List ℕ × List ℕ
take_line zero s = ([], s)
take_line (suc room) [] = ([], [])
take_line (suc room) (c ∷ s) =
    if c == newline then (c ∷ [], s) else (c ∷ (take_line room s).0, (take_line room s).1)

abbrev advance : Keyboard → Keyboard
advance k = record k { read_pos = (k.read_pos + 1) % buffer_size }

contents-none : (k : Keyboard) → IsValid k → k.read_pos ≡ k.write_pos → contents k ≡ []
contents-none k v e =
    let zero_waiting : waiting k ≡ 0 = omega arith in
    ap (queued k.input_buffer k.read_pos) zero_waiting

contents-more :
    (k : Keyboard)
    → IsValid k
    → k.read_pos ≢ k.write_pos
    → contents k ≡ get_or k.input_buffer k.read_pos 0 ∷ contents (advance k)
contents-more k v ne =
    let one_less : waiting k ≡ suc (waiting (advance k)) = omega arith in
    ap (queued k.input_buffer k.read_pos) one_less

advance-IsValid : (k : Keyboard) → IsValid k → IsValid (advance k)
advance-IsValid k v = record {
  input_size = v.input_size;
  line_size = v.line_size;
  read_in = omega arith;
  write_in = v.write_in;
  line_in = v.line_in;
}

-- The loop of `keyboard_read` gives the waiting bytes up to the first newline, as far as they fit
-- `user_buf`, and leaves the others waiting.
pub read_bytes_lem :
    (room : ℕ) (k : Keyboard)
    → IsValid k
    → let (bytes, k') = read_bytes room k in
      ((bytes, contents k') ≡ take_line room (contents k)) × IsValid k'
unfolding read_bytes
read_bytes_lem zero k v = (refl, v)
read_bytes_lem (suc room) k v = elim (Bool-cases (k.read_pos == k.write_pos)) [
  | inl empty ↦ rw (empty, contents-none k v ((==_iff _ _).0 empty)) (refl, v)
  | inr more ↦
      let c = get_or k.input_buffer k.read_pos 0 in
      let ih = read_bytes_lem room (advance k) (advance-IsValid k v) in
      rw (more, contents-more k v (==-false→ne _ _ more))
        (elim (Bool-cases (c == newline)) [
          | inl last ↦ rw last (refl, advance-IsValid k v)
          | inr inner ↦ rw inner (ap (λ (p : List ℕ × List ℕ). (c ∷ p.0, p.1)) ih.0, ih.1)
        ])
]
