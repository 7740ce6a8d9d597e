-- ===== src/Drivers/Screen/Tests.antt =====
-- A character and a scroll at the end of the screen, and the witnesses of the theorems on the screen.
use ten_os.Drivers.Screen.{
  Screen, get_offset, get_offset_row, get_offset_col, get_cursor_offset, print_char, minus_one,
}
use ten_os.Drivers.Screen.Cursor.{IsPlace, print_char-IsPlace}
use ten_os.Prelude.{◌≡◌, refl, arith}

offset-run : get_offset_col (get_offset 7 3) ≡ 7
unfolding get_offset get_offset_row get_offset_col
offset-run = refl

-- The cursor at the last place, 3998 = 2 * (7 * 256 + 207).
abbrev full_screen : Screen
full_screen = record { vidmem = λ j. j; cursor_high = 7; cursor_low = 207 }

start-run : get_cursor_offset full_screen ≡ 3998
unfolding get_cursor_offset
start-run = refl

on_screen : IsPlace (get_cursor_offset full_screen)
unfolding get_cursor_offset
on_screen = (omega arith, refl)

print_char-IsPlace_example :
    let (offset, s') = print_char 65 minus_one minus_one 15 full_screen in
    IsPlace offset × (get_cursor_offset s' ≡ offset)
print_char-IsPlace_example =
    print_char-IsPlace 65 15 full_screen on_screen (λ e. absurd (omega arith))
