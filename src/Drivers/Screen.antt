-- ===== src/Drivers/Screen.antt =====
-- drivers/screen.c: text on the video memory. An `int` is its 32 bits; `vidmem` is indexed by the
-- offset from VIDEO_ADDRESS, and a negative offset is a place in front of it. The cursor's position
-- stands in the registers 14 and 15 of the screen controller.
pub mod Scroll
pub mod Cursor
pub mod Color
mod Tests
use ten_os.Util.{memcpy, memset_from}
use ten_os.Word.{u8, u32, sub_u32, ◌<<<◌, ◌>>>◌}
use ten_os.Prelude.{
  ℕ, zero, suc, ◌+◌, ◌-◌, ◌*◌, ◌/◌, ◌%◌, ◌^◌, Bool, List, [], ◌∷◌, ltb, leb, ◌==◌, ◌&&◌, ◌||◌, not,
  if◌then◌else◌, update, bit_and,
}

abbrev pub max_rows : ℕ
max_rows = 25

abbrev pub max_cols : ℕ
max_cols = 80

abbrev pub white_on_black : ℕ
white_on_black = 0x0f

abbrev pub red_on_white : ℕ
red_on_white = 0xf4

abbrev pub newline : ℕ
newline = 10

abbrev pub backspace : ℕ
backspace = 8

-- `x < 0`, and `x / d` for a positive `d`, which rounds towards 0.
abbrev pub is_negative : ℕ → Bool
is_negative x = leb (2 ^ 31) x

abbrev pub div_int : ℕ → ℕ → ℕ
div_int x d = if is_negative x then u32 (2 ^ 32 - (2 ^ 32 - x) / d) else x / d

-- `x >= n` for an `int` and a small number.
abbrev pub reaches : ℕ → ℕ → Bool
reaches x n = not (is_negative x) && leb n x

pub record Screen : Type 0 where
  pub vidmem : ℕ → ℕ
  pub cursor_high : ℕ
  pub cursor_low : ℕ

pub get_offset : ℕ → ℕ → ℕ
get_offset col row = u32 (2 * (row * max_cols + col))

pub get_offset_row : ℕ → ℕ
get_offset_row offset = div_int offset (2 * max_cols)

pub get_offset_col : ℕ → ℕ
unfolding get_offset_row
get_offset_col offset = div_int (sub_u32 offset (u32 (get_offset_row offset * 2 * max_cols))) 2

pub get_cursor_offset : Screen → ℕ
get_cursor_offset s = u32 (((s.cursor_high <<< 8) + s.cursor_low) * 2)

pub set_cursor_offset : Screen → ℕ → Screen
set_cursor_offset s offset =
    let half = div_int offset 2 in
    record s { cursor_high = u8 (half >>> 8); cursor_low = bit_and half 0xff }

-- `for (i = 1; i < MAX_ROWS; i++)`: a row is copied over the one in front of it, on bytes that do not
-- overlap.
pub scroll_from : ℕ → ℕ → (ℕ → ℕ) → ℕ → ℕ
scroll_from zero i vidmem = vidmem
scroll_from (suc left) i vidmem =
    scroll_from left (i + 1)
      (memcpy vidmem (get_offset 0 (i - 1)) vidmem (get_offset 0 i) (max_cols * 2))

-- The rows move up by one, and the last one is blanked.
pub scroll : (ℕ → ℕ) → ℕ → ℕ
unfolding scroll_from
scroll vidmem =
    memset_from (get_offset 0 (max_rows - 1)) (scroll_from (max_rows - 1) 1 vidmem) 0 (max_cols * 2)

-- The character at `offset`, and where the next one goes.
pub place_char : ℕ → ℕ → ℕ → (ℕ → ℕ) → ℕ × (ℕ → ℕ)
place_char c attr offset vidmem =
    if c == newline
    then (get_offset 0 (u32 (get_offset_row offset + 1)), vidmem)
    else if c == backspace
    then (let back = sub_u32 offset 2 in
        (back, update (update vidmem back b' ') (u32 (back + 1)) 0x0F))
    else (u32 (offset + 2), update (update vidmem offset c) (u32 (offset + 1)) attr)

pub print_char : ℕ → ℕ → ℕ → ℕ → Screen → ℕ × Screen
unfolding place_char
print_char c col row attr s =
    let attr' = if attr == 0 then white_on_black else attr in
    if reaches col max_cols || reaches row max_rows
    then (
      get_offset col row,
      record s {
        vidmem =
            update (update s.vidmem (2 * max_cols * max_rows - 2) b'E')
              (2 * max_cols * max_rows - 1) red_on_white;
      },
    )
    else let start =
        if reaches col 0 && reaches row 0 then get_offset col row else get_cursor_offset s in
      let (next, vidmem) = place_char c attr' start s.vidmem in
      let full = reaches next (max_rows * max_cols * 2) in
      let offset = if full then sub_u32 next (2 * max_cols) else next in
      (
        offset,
        set_cursor_offset (record s { vidmem = if full then scroll vidmem else vidmem }) offset,
      )

-- -1
abbrev pub minus_one : ℕ
minus_one = 2 ^ 32 - 1

pub put_char : ℕ → ℕ → Screen → Screen
unfolding print_char
put_char a attr s =
    (print_char a minus_one minus_one (if attr == 0 then white_on_black else attr) s).1

-- The loop of `kprint_at`.
pub print_from : List ℕ → ℕ → ℕ → Screen → Screen
unfolding print_char
print_from [] col row s = s
print_from (c ∷ message) col row s =
    let (offset, s') = print_char c col row white_on_black s in
    print_from message (get_offset_col offset) (get_offset_row offset) s'

pub kprint_at : List ℕ → ℕ → ℕ → Screen → Screen
unfolding print_from
kprint_at message col row s =
    if reaches col 0 && reaches row 0
    then print_from message col row s
    else let offset = get_cursor_offset s in
      print_from message (get_offset_col offset) (get_offset_row offset) s

pub kprint : List ℕ → Screen → Screen
unfolding kprint_at
kprint message s = kprint_at message minus_one minus_one s

-- The loop of `clear_screen`.
pub clear_from : ℕ → ℕ → (ℕ → ℕ) → ℕ → ℕ
clear_from zero i screen = screen
clear_from (suc left) i screen =
    clear_from left (i + 1) (update (update screen (i * 2) b' ') (i * 2 + 1) white_on_black)

pub clear_screen : Screen → Screen
unfolding clear_from
clear_screen s =
    set_cursor_offset (record s { vidmem = clear_from (max_cols * max_rows) 0 s.vidmem })
      (get_offset 0 0)
