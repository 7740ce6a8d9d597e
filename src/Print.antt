-- ===== src/Print.antt =====
-- lib/print.c: what the functions hand to `put_char`, as a list of bytes. A number is its 32 bits;
-- the colour is that of the caller, and part of the result only in `printk_core`.
pub mod Numerals
pub mod Ascii
mod Tests
use ten_os.Util.Strings.{reverse}
use ten_os.Word.{u32, sub_u32, ◌>>>◌}
use ten_os.Drivers.Screen.Color
use ten_os.Drivers.Screen.{newline}
use ten_os.Prelude.{
  ltb, ℕ, zero, suc, ◌+◌, ◌-◌, ◌*◌, ◌/◌, ◌%◌, ◌^◌, bit_and, List, [], ◌∷◌, ◌++◌, Option, none, some,
  get_or, leb, ◌==◌, ◌||◌, if◌then◌else◌,
}

-- The loop that collects the digits, lowest first, in `room` places. Division of a negative number
-- is not met: `print_int` ends the loop there.
pub digits : ℕ → ℕ → List ℕ
digits zero value = []
digits (suc room) value =
    let rest = digits room (value / 10) in if value == 0 then [] else (value % 10 + b'0') ∷ rest

unfoldable pub print_uint : ℕ → List ℕ
print_uint value = if value == 0 then b'0' ∷ [] else reverse (digits 10 value)

-- The part of `print_int` behind the sign: no digits for a value that is still negative.
pub print_positive : ℕ → List ℕ
print_positive value = if leb (2 ^ 31) value then [] else reverse (digits 11 value)

unfoldable pub print_int : ℕ → List ℕ
print_int value =
    if value == 0
    then b'0' ∷ []
    else if leb (2 ^ 31) value
    then b'-' ∷ print_positive (sub_u32 0 value)
    else print_positive value

-- "0123456789ABCDEF"
abbrev pub hex_map : List ℕ
hex_map = 48 ∷ 49 ∷ 50 ∷ 51 ∷ 52 ∷ 53 ∷ 54 ∷ 55 ∷ 56 ∷ 57 ∷ 65 ∷ 66 ∷ 67 ∷ 68 ∷ 69 ∷ 70 ∷ []

pub hex_digits : ℕ → ℕ → List ℕ
hex_digits zero value = []
hex_digits (suc room) value =
    let rest = hex_digits room (value >>> 4) in
    if value == 0 then [] else get_or hex_map (bit_and value 0xF) 0 ∷ rest

unfoldable pub print_hex : ℕ → List ℕ
print_hex value = b'0' ∷ b'x' ∷ (if value == 0 then b'0' ∷ [] else reverse (hex_digits 8 value))

-- An argument of `printk`.
pub data Arg : Type 0 where
  number : ℕ → Arg
  text : List ℕ → Arg

-- One directive, with the arguments that are left: none where the code would read an argument that
-- is missing or of another type.
unfoldable pub directive : ℕ → List Arg → Option (List ℕ × List Arg)
directive p [] =
    if p == b'%'
    then some (b'%' ∷ [], [])
    else if p == b'c' || p == b'x' || p == b'd' || p == b'i' || p == b's' || p == b'u'
    then none
    else some (b'%' ∷ p ∷ [], [])
directive p (number n ∷ args) =
    if p == b'c'
    then some (n % 256 ∷ [], args)
    else if p == b'x'
    then some (print_hex n, args)
    else if p == b'd' || p == b'i'
    then some (print_int n, args)
    else if p == b's'
    then none
    else if p == b'u'
    then some (print_uint n, args)
    else if p == b'%'
    then some (b'%' ∷ [], number n ∷ args)
    else some (b'%' ∷ p ∷ [], number n ∷ args)
directive p (text s ∷ args) =
    if p == b's'
    then some (s, args)
    else if p == b'%'
    then some (b'%' ∷ [], text s ∷ args)
    else if p == b'c' || p == b'x' || p == b'd' || p == b'i' || p == b'u'
    then none
    else some (b'%' ∷ p ∷ [], text s ∷ args)

-- The rest of the output behind a part of it.
abbrev pub behind : List ℕ → Option (List ℕ) → Option (List ℕ)
behind s none = none
behind s (some t) = some (s ++ t)

-- A `%` at the end of the format makes the code read behind the terminator: none.
unfoldable pub vformat_print : List ℕ → List Arg → Option (List ℕ)
vformat_print [] args = some []
vformat_print (c ∷ []) args = if c == b'%' then none else some (c ∷ [])
vformat_print (c ∷ p ∷ fmt) args =
    let plain = vformat_print (p ∷ fmt) args in
    if c == b'%'
    then elim (directive p args) [
      | none ↦ none
      | some (s, left) ↦ behind s (vformat_print fmt left)
    ]
    else behind (c ∷ []) plain

-- The log levels.
abbrev pub kern_debug : ℕ
kern_debug = 0

abbrev pub kern_info : ℕ
kern_info = 1

abbrev pub kern_warn : ℕ
kern_warn = 2

abbrev pub kern_err : ℕ
kern_err = 3

-- Of debug messages, information, warnings and errors.
abbrev pub level_colors : List ℕ
level_colors =
    Color.vga_color Color.blue Color.black
    ∷ Color.vga_color Color.light_grey Color.black
    ∷ Color.vga_color Color.yellow Color.black
    ∷ Color.vga_color Color.light_red Color.black
    ∷ []

-- `[module]:` in front of a message, nothing for the empty module.
abbrev pub module_prefix : List ℕ → List ℕ
module_prefix [] = []
module_prefix (c ∷ s) = (b'[' ∷ c ∷ s) ++ b']' ∷ b':' ∷ []

-- The bytes and their colour: none for a level that has no colour, and as `vformat_print`.
unfoldable pub printk_core : ℕ → ℕ → List ℕ → List ℕ → List Arg → Option (ℕ × List ℕ)
printk_core current_level level origin fmt args =
    if ltb level current_level
    then some (0, [])
    else if leb 4 level
    then none
    else elim (vformat_print fmt args) [
      | none ↦ none
      | some s ↦ some (get_or level_colors level 0, module_prefix origin ++ s ++ newline ∷ [])
    ]
