-- ===== src/Drivers/Keyboard/Layout.antt =====
-- `scancode_to_ascii`: Shift and Caps Lock.
use ten_os.Drivers.Keyboard.{scancode_to_ascii}
use ten_os.Prelude.{
  ℕ, ◌≤◌, ◌≡◌, refl, Bool, true, false, not, ◌&&◌, ◌==◌, ltb, leb, if◌then◌else◌, passes_below,
  passes_below_lem, Bool-cases, ==_iff, ltb-false→le, ltb→lt, inl, inr, arith,
}

abbrev pub is_letter : ℕ → Bool
is_letter c = leb b'a' c && leb c b'z'

-- The character of a key with Caps Lock on, by those of the key with it off.
abbrev pub with_caps : ℕ → Bool → ℕ
with_caps scancode shift =
    if is_letter (scancode_to_ascii scancode false false)
    then scancode_to_ascii scancode (not shift) false
    else scancode_to_ascii scancode shift false

caps_table :
    (shift : Bool)
    → passes_below 0x59 (λ sc. scancode_to_ascii sc shift true == with_caps sc shift) ≡ true
unfolding scancode_to_ascii passes_below
caps_table true = refl
caps_table false = refl

beyond :
    (scancode : ℕ) (shift caps : Bool)
    → 0x59 ≤ scancode
    → scancode_to_ascii scancode shift caps ≡ b'?'
unfolding scancode_to_ascii
beyond scancode shift caps h = ground arith

-- For every scan code, with or without Shift: Caps Lock turns the meaning of Shift round on the
-- keys that give letters, and changes nothing on the others.
scancode_to_ascii_caps :
    (scancode : ℕ) (shift : Bool)
    → scancode_to_ascii scancode shift true ≡ (
        if is_letter (scancode_to_ascii scancode false false)
        then scancode_to_ascii scancode (not shift) false
        else scancode_to_ascii scancode shift false)
scancode_to_ascii_caps scancode shift = elim (Bool-cases (ltb scancode 0x59)) [
  | inl low ↦ (==_iff _ _).0 (
      passes_below_lem 0x59 (λ sc. scancode_to_ascii sc shift true == with_caps sc shift) scancode
        (caps_table shift) (ltb→lt _ _ low))
  | inr high ↦
      let out = ltb-false→le _ _ high in
      rw (
        beyond scancode shift true out,
        beyond scancode false false out,
        beyond scancode shift false out,
      )
]
