-- ===== src/Drivers/Keyboard/Keys.antt =====
-- The interrupt handler of the keyboard, key by key.
use ten_os.Drivers.Keyboard.{
  Keyboard, buffer_size, newline, backspace, scancode_to_ascii, commit_line, accept_char,
  keyboard_callback,
}
use ten_os.Drivers.Keyboard.Ring.{IsValid, commit_line-IsValid}
use ten_os.Word.Bits.{bit, bit_and-pow, bit_and-mask}
use ten_os.Prelude.{
  ◌≤◌, if◌then◌else◌, leb, [], ◌∷◌, ℕ, ◌+◌, ◌-◌, ◌<◌, ◌≡◌, refl, ◌==◌, ◌||◌, ◌&&◌, not, Bool, true,
  false, set, length-set, bit_and, ltb, arith,
}

accept_char-IsValid : (k : Keyboard) (c : ℕ) → IsValid k → IsValid (accept_char k c).0
unfolding accept_char
accept_char-IsValid k c v =
    ground (arith, commit_line-IsValid k v, length-set k.line_buffer k.line_pos c)

-- Every byte from the keyboard keeps the positions within their buffers.
pub keyboard_callback-IsValid :
    (k : Keyboard) (byte : ℕ) → IsValid k → IsValid (keyboard_callback k byte).0
unfolding keyboard_callback
keyboard_callback-IsValid k byte v = ground (
  arith,
  accept_char-IsValid k (scancode_to_ascii (bit_and byte 0x7F) k.shift_pressed k.caps_lock) v,
)

-- A key, not a modifier, that is pressed and gives a character for the line.
abbrev pub is_plain : Bool → Bool → ℕ → Bool
is_plain shift caps sc =
    let c = scancode_to_ascii sc shift caps in
    ltb sc 0x80
    && not (sc == 0x2A || sc == 0x36 || sc == 0x1D || sc == 0x38 || sc == 0x3A)
    && not (c == newline || c == backspace || c == b'?')

-- The state after such a key.
abbrev pub typed : Keyboard → ℕ → Keyboard
typed k sc = record k {
  line_buffer = set k.line_buffer k.line_pos (scancode_to_ascii sc k.shift_pressed k.caps_lock);
  line_pos = k.line_pos + 1;
}

press_bits : (sc : ℕ) → sc < 0x80 → (bit_and sc 0x80 ≡ 0) × (bit_and sc 0x7F ≡ sc)
unfolding bit
press_bits sc h = (omega (arith, bit_and-pow 7 sc), omega (arith, bit_and-mask 7 sc))

pub keyboard_callback_plain :
    (k : Keyboard) (sc : ℕ)
    → is_plain k.shift_pressed k.caps_lock sc ≡ true
    → k.line_pos < buffer_size - 1
    → keyboard_callback k sc ≡ (typed k sc, scancode_to_ascii sc k.shift_pressed k.caps_lock ∷ [])
unfolding keyboard_callback accept_char
keyboard_callback_plain k sc plain room = ground (arith, press_bits sc)

-- A byte that gives no character: a release, or a modifier that is pressed.
abbrev pub is_silent : ℕ → Bool
is_silent sc =
    ltb sc 256
    && (leb 0x80 sc || sc == 0x2A || sc == 0x36 || sc == 0x1D || sc == 0x38 || sc == 0x3A)

-- Shift is held from its press to its release; Caps Lock changes at each press.
abbrev pub next_shift : ℕ → Bool → Bool
next_shift sc shift =
    if sc == 0x2A || sc == 0x36 then true else if sc == 0xAA || sc == 0xB6 then false else shift

abbrev pub next_caps : ℕ → Bool → Bool
next_caps sc caps = if sc == 0x3A then not caps else caps

-- The state after such a byte.
abbrev pub modified : Keyboard → ℕ → Keyboard
modified k sc = record k {
  shift_pressed = next_shift sc k.shift_pressed;
  ctrl_pressed = if sc == 0x1D then true else if sc == 0x9D then false else k.ctrl_pressed;
  alt_pressed = if sc == 0x38 then true else if sc == 0xB8 then false else k.alt_pressed;
  caps_lock = next_caps sc k.caps_lock;
}

release_bits :
    (sc : ℕ) → 0x80 ≤ sc → sc < 256 → (bit_and sc 0x80 ≡ 0x80) × (bit_and sc 0x7F ≡ sc - 0x80)
unfolding bit
release_bits sc p h = (omega (arith, bit_and-pow 7 sc), omega (arith, bit_and-mask 7 sc))

pub keyboard_callback_silent :
    (k : Keyboard) (sc : ℕ) → is_silent sc ≡ true → keyboard_callback k sc ≡ (modified k sc, [])
unfolding keyboard_callback
keyboard_callback_silent k sc silent = ground (arith, press_bits sc, release_bits sc)

enter_newline : (shift caps : Bool) → scancode_to_ascii 0x1C shift caps ≡ newline
unfolding scancode_to_ascii
enter_newline true true = refl
enter_newline true false = refl
enter_newline false true = refl
enter_newline false false = refl

pub keyboard_callback_enter :
    (k : Keyboard) → keyboard_callback k 0x1C ≡ (commit_line k, newline ∷ [])
unfolding keyboard_callback accept_char
keyboard_callback_enter k = rw (enter_newline k.shift_pressed k.caps_lock) refl
