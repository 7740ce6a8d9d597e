-- ===== src/Drivers/Screen/Cursor.antt =====
-- The cursor after a character.
use ten_os.Drivers.Screen.{
  Screen, get_offset, get_offset_row, get_cursor_offset, set_cursor_offset, place_char, print_char,
  newline, backspace, minus_one, white_on_black, reaches,
}
use ten_os.Drivers.Screen.Scroll.{scroll_lem}
use ten_os.Word.Bits.{bit_and-mask}
use ten_os.Word.{u32, sub_u32}
use ten_os.Prelude.{
  ℕ, Bool-cases, inl, inr, ne→==-false, true, false, ◌+◌, ◌/◌, ◌%◌, ◌^◌, ◌≤◌, ◌<◌, ◌≡◌, ◌≢◌, refl,
  ltb, leb, ◌==◌, if◌then◌else◌, update, arith,
}

-- For every even offset below 2 ^ 17: the controller's registers give it back.
get_cursor_offset-set_cursor_offset :
    (s : Screen) (offset : ℕ)
    → offset % 2 ≡ 0
    → offset < 2 ^ 17
    → get_cursor_offset (set_cursor_offset s offset) ≡ offset
unfolding get_cursor_offset set_cursor_offset
get_cursor_offset-set_cursor_offset s offset even bound =
    let positive : leb (2 ^ 31) offset ≡ false = ground arith in
    rw (positive, bit_and-mask 8 (offset / 2)) (omega arith)

-- A position of a character on the screen.
abbrev pub IsPlace : ℕ → Type 0
IsPlace offset = (offset < 4000) × (offset % 2 ≡ 0)

-- Where the next character goes, before any scrolling.
place_char-next :
    (c attr start : ℕ) (vidmem : ℕ → ℕ)
    → IsPlace start
    → (c ≡ backspace → 2 ≤ start)
    → ((place_char c attr start vidmem).0 ≤ 4000) × ((place_char c attr start vidmem).0 % 2 ≡ 0)
unfolding place_char get_offset get_offset_row
place_char-next c attr start vidmem place room = ground (arith, place, room)

wrapped-IsPlace :
    (next : ℕ)
    → next ≤ 4000
    → next % 2 ≡ 0
    → IsPlace (if reaches next 4000 then sub_u32 next 160 else next)
wrapped-IsPlace next bound even = ground arith

-- With the cursor at a place on the screen, for every character but a backspace at the first place:
-- printing at the cursor leaves the cursor at the place that `print_char` returns, and that is again
-- a place on the screen.
pub print_char-IsPlace :
    (c attr : ℕ) (s : Screen)
    → IsPlace (get_cursor_offset s)
    → (c ≡ backspace → 2 ≤ get_cursor_offset s)
    → let (offset, s') = print_char c minus_one minus_one attr s in
      IsPlace offset × (get_cursor_offset s' ≡ offset)
unfolding print_char
print_char-IsPlace c attr s place room =
    let attr' = if attr == 0 then white_on_black else attr in
    let next = place_char-next c attr' (get_cursor_offset s) s.vidmem place room in
    let inside =
      wrapped-IsPlace (place_char c attr' (get_cursor_offset s) s.vidmem).0 next.0 next.1 in
    (inside, get_cursor_offset-set_cursor_offset _ _ inside.1 (omega (arith, inside.0)))

-- For every character but newline and backspace, with a colour: printing at a cursor on the screen
-- puts the character and the colour there and moves on by one place; behind the last place the
-- screen scrolls, and the cursor is at the start of the last row.
print_char_lem :
    (c attr : ℕ) (s : Screen)
    → IsPlace (get_cursor_offset s)
    → c ≢ newline
    → c ≢ backspace
    → attr ≢ 0
    → let start = get_cursor_offset s in
      let written = update (update s.vidmem start c) (start + 1) attr in
      let (offset, s') = print_char c minus_one minus_one attr s in
      (offset ≡ (if start == 3998 then 3840 else start + 2))
      × ((j : ℕ)
          → s'.vidmem j ≡ (
              if start == 3998
              then if ltb j 3840 then written (j + 160) else if ltb j 4000 then 0 else written j
              else written j))
unfolding print_char place_char set_cursor_offset
print_char_lem c attr s place line back colour =
    let start = get_cursor_offset s in
    let next : u32 (start + 2) ≡ start + 2 = omega arith in
    let second : u32 (start + 1) ≡ start + 1 = omega arith in
    rw
      (
        ne→==-false c newline line,
        ne→==-false c backspace back,
        ne→==-false attr 0 colour,
        next,
        second,
      )
      (elim (Bool-cases (start == 3998)) [
        | inl last ↦
            let full : reaches (start + 2) 4000 ≡ true = ground arith in
            rw (last, full) (ground arith, λ j. scroll_lem _ j)
        | inr inner ↦
            let more : reaches (start + 2) 4000 ≡ false = ground arith in
            rw (inner, more) (refl, λ j. refl)
      ])
