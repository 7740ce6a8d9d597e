-- ===== src/Drivers/Keyboard/Tests.antt =====
-- The keyboard driver at concrete keys.
use ten_os.Drivers.Keyboard.{
  Keyboard, newline, backspace, scancode_to_ascii, put, copy_line, commit_line, accept_char,
  keyboard_callback, line_from, has_complete_line, read_bytes, keyboard_read,
}
use ten_os.Drivers.Keyboard.Ring.{IsValid, contents, commit_line_overflow}
use ten_os.Drivers.Keyboard.Lines.{has_newline, has_complete_line_lem}
use ten_os.Drivers.Keyboard.Keys.{keyboard_callback-IsValid}
use ten_os.Drivers.Keyboard.Typing.{keyboard_read-typed}
use ten_os.Prelude.{
  ℕ, ◌≡◌, refl, true, false, Option, none, some, List, [], ◌∷◌, replicate, length-replicate, arith,
}

abbrev fresh : Keyboard
fresh = record {
  input_buffer = replicate 256 0;
  read_pos = 0;
  write_pos = 0;
  line_buffer = replicate 256 0;
  line_pos = 0;
  shift_pressed = false;
  ctrl_pressed = false;
  alt_pressed = false;
  caps_lock = false;
}

-- A line of 255 characters, not committed.
abbrev long_line : Keyboard
long_line = record fresh { line_buffer = replicate 256 b'x'; line_pos = 255 }

fresh-IsValid : IsValid fresh
fresh-IsValid = record {
  input_size = length-replicate {A = ℕ} 256 0;
  line_size = length-replicate {A = ℕ} 256 0;
  read_in = omega arith;
  write_in = omega arith;
  line_in = omega arith;
}

long_line-IsValid : IsValid long_line
long_line-IsValid = record {
  input_size = length-replicate {A = ℕ} 256 0;
  line_size = length-replicate {A = ℕ} 256 b'x';
  read_in = omega arith;
  write_in = omega arith;
  line_in = omega arith;
}

letters :
    (scancode_to_ascii 0x10 false false ≡ b'q')
    × (scancode_to_ascii 0x10 true false ≡ b'Q')
    × (scancode_to_ascii 0x10 true true ≡ b'q')
    × (scancode_to_ascii 0x02 true true ≡ b'!')
unfolding scancode_to_ascii
letters = (refl, refl, refl, refl)

abbrev bytes_of_read : Option (List ℕ × Keyboard × List ℕ × List ℕ) → List ℕ × List ℕ
bytes_of_read none = ([], [])
bytes_of_read (some (s, _, _, echo)) = (s, echo)

-- Shift down, h, Shift up, i, x, Backspace, Enter.
abbrev keys : List ℕ
keys = 0x2A ∷ 0x23 ∷ 0xA3 ∷ 0xAA ∷ 0x17 ∷ 0x2D ∷ 0x0E ∷ 0x1C ∷ []

types_a_line :
    bytes_of_read (keyboard_read keys fresh 255)
    ≡ (b'H' ∷ b'i' ∷ newline ∷ [], b'H' ∷ b'i' ∷ b'x' ∷ backspace ∷ newline ∷ [])
unfolding keyboard_read keyboard_callback accept_char commit_line copy_line put has_complete_line
    line_from read_bytes scancode_to_ascii
types_a_line = refl

keyboard_callback-IsValid_example : IsValid (keyboard_callback long_line 0x1E).0
keyboard_callback-IsValid_example = keyboard_callback-IsValid long_line 0x1E long_line-IsValid

commit_line_overflow_example : contents (commit_line long_line) ≡ []
commit_line_overflow_example = commit_line_overflow long_line long_line-IsValid (omega arith)

has_complete_line_lem_example : has_complete_line fresh ≡ some (has_newline (contents fresh))
has_complete_line_lem_example = has_complete_line_lem fresh fresh-IsValid

abbrev two_lines : Keyboard
two_lines = record fresh {
  input_buffer = b'a' ∷ newline ∷ b'b' ∷ newline ∷ replicate 252 0;
  write_pos = 4;
}

two_lines-IsValid : IsValid two_lines
two_lines-IsValid = record {
  input_size = omega (arith, length-replicate {A = ℕ} 252 0);
  line_size = length-replicate {A = ℕ} 256 0;
  read_in = omega arith;
  write_in = omega arith;
  line_in = omega arith;
}

-- Shift down, l, its release, Shift up, s, its release and Enter, whose release is left.
keyboard_read-typed_example :
    (after : Keyboard) × (keyboard_read
        (0x2A ∷ 0x26 ∷ 0xA6 ∷ 0xAA ∷ 0x1F ∷ 0x9F ∷ 0x1C ∷ 0x9C ∷ [])
        fresh
        255
      ≡ some (b'L' ∷ b's' ∷ newline ∷ [], after, 0x9C ∷ [], b'L' ∷ b's' ∷ newline ∷ []))
    × (contents after ≡ [])
    × IsValid after
unfolding scancode_to_ascii
keyboard_read-typed_example =
    keyboard_read-typed fresh (0x2A ∷ 0x26 ∷ 0xA6 ∷ 0xAA ∷ 0x1F ∷ 0x9F ∷ []) (0x9C ∷ []) 255
      fresh-IsValid refl refl refl (omega arith) (omega arith)
