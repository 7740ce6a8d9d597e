-- ===== src/Drivers/Screen/Color.antt =====
-- The colours of drivers/screen.h that the kernel uses.
use ten_os.Word.{◌<<<◌}
use ten_os.Prelude.{ℕ, bit_or}

abbrev pub black : ℕ
black = 0

abbrev pub blue : ℕ
blue = 1

abbrev pub green : ℕ
green = 2

abbrev pub cyan : ℕ
cyan = 3

abbrev pub red : ℕ
red = 4

abbrev pub magenta : ℕ
magenta = 5

abbrev pub light_grey : ℕ
light_grey = 7

abbrev pub light_red : ℕ
light_red = 12

abbrev pub yellow : ℕ
yellow = 14

abbrev pub vga_color : ℕ → ℕ → ℕ
vga_color fg bg = bit_or (bg <<< 4) fg
