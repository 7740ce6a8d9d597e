-- ===== src/Print/Tests.antt =====
-- Formats that are printed, and the witness of the theorem on print_int.
use ten_os.Print.{
  printk_core, kern_info, kern_err, kern_debug, number, digits, print_int, print_positive,
  print_hex, hex_digits, directive, vformat_print,
}
use ten_os.Print.Numerals.{IsDecimal, print_int_lem}
use ten_os.Util.Strings.{reverse, swap_from}
use ten_os.Prelude.{ℕ, ◌-◌, ◌^◌, ◌<◌, ◌≡◌, ◌⊎◌, refl, List, [], ◌∷◌, ◌++◌, codes, some, arith}

-- "%x=%d" with 255 and -42 gives "0xFF=-42".
mixed-run :
    vformat_print (37 ∷ 120 ∷ 61 ∷ 37 ∷ 100 ∷ []) (number 255 ∷ number (2 ^ 32 - 42) ∷ [])
    ≡ some (48 ∷ 120 ∷ 70 ∷ 70 ∷ 61 ∷ 45 ∷ 52 ∷ 50 ∷ [])
unfolding vformat_print directive print_hex print_int print_positive hex_digits digits reverse
    swap_from
mixed-run = refl

-- The smallest `int` comes out as its sign.
smallest-run : print_int (2 ^ 31) ≡ 45 ∷ []
unfolding print_int print_positive
smallest-run = refl

-- An error has its colour, module and line break, and a message below the level is dropped.
error-run :
    printk_core kern_info kern_err (codes "ATA") (codes "at %d") (number 7 ∷ [])
    ≡ some (12, codes "[ATA]:at 7" ++ 10 ∷ [])
unfolding printk_core vformat_print directive print_int print_positive digits reverse swap_from
error-run = refl

debug-run : printk_core kern_info kern_debug (codes "KERNEL") (codes "called") [] ≡ some (0, [])
unfolding printk_core
debug-run = refl

print_int_lem_example :
    ((4294967254 < 2 ^ 31) × IsDecimal (print_int 4294967254) 4294967254)
    ⊎ ((s : List ℕ) × (2 ^ 31 < 4294967254)
        × (print_int 4294967254 ≡ b'-' ∷ s)
        × IsDecimal s (2 ^ 32 - 4294967254))
print_int_lem_example = print_int_lem 4294967254 (omega arith) (λ e. omega arith)
