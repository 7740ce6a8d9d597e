-- ===== src/Print/Ascii.antt =====
-- The two functions of the library that make a numeral of an `int` agree.
use ten_os.Print.{digits, print_positive, print_int}
use ten_os.Util.Ascii.{ascii_digits, int_to_ascii}
use ten_os.Util.Strings.{reverse, swap_from}
use ten_os.Util.Strings.Reversal.{reversed, reverse-reversed}
use ten_os.Word.{sub_u32}
use native.Mathlib.Nat.{pow-suc}
use ten_os.Prelude.{
  ℕ, zero, suc, ◌+◌, ◌-◌, ◌/◌, ◌%◌, ◌^◌, ◌<◌, ◌≡◌, ◌≢◌, refl, sym, ap, ◌∙◌, List, [], ◌∷◌, ◌++◌,
  ◌==◌, ltb, leb, false, ne→==-false, ==-false→ne, Bool-cases, inl, inr, arith,
}

digits-zero : (room : ℕ) → digits room 0 ≡ []
unfolding digits
digits-zero zero = refl
digits-zero (suc room) = refl

ascii_digits-digits : (room n : ℕ) → n < 10 ^ room → n ≢ 0 → ascii_digits room n ≡ digits room n
unfolding ascii_digits digits
ascii_digits-digits zero n bound pos = absurd (pos (ground arith))
ascii_digits-digits (suc room) n bound pos = rw (ne→==-false n 0 pos) (
    ap (λ s. (n % 10 + b'0') ∷ s)
      (elim (Bool-cases (ltb 0 (n / 10))) [
        | inl more ↦
            rw more (
              ascii_digits-digits room (n / 10) (omega (arith, pow-suc 10 room))
                (λ e. ground arith))
        | inr last ↦
            let nothing : n / 10 ≡ 0 = ground arith in rw last (rw nothing (sym (digits-zero room)))
      ]))

reversed-last : (s : List ℕ) (c : ℕ) → reversed (s ++ (c ∷ [])) ≡ c ∷ reversed s
reversed-last [] c = refl
reversed-last (d ∷ s) c = ap (λ t. t ++ d ∷ []) (reversed-last s c)

zero-run : int_to_ascii 0 ≡ b'0' ∷ []
unfolding int_to_ascii ascii_digits reverse swap_from
zero-run = refl

-- For every `int` but the smallest: `int_to_ascii` leaves the string that `print_int` prints.
int_to_ascii-print_int : (n : ℕ) → n < 2 ^ 32 → n ≢ 2 ^ 31 → int_to_ascii n ≡ print_int n
unfolding int_to_ascii print_int print_positive
int_to_ascii-print_int n bound other = elim (Bool-cases (leb (2 ^ 31) n)) [
  | inl sign ↦
      let opposite : sub_u32 0 n ≡ 2 ^ 32 - n = ground arith in
      let plain : leb (2 ^ 31) (2 ^ 32 - n) ≡ false = ground arith in
      let more : n ≢ 0 = λ e. ground arith in
      rw
        (
          sign,
          ne→==-false n 0 more,
          opposite,
          plain,
          ascii_digits-digits 11 (2 ^ 32 - n) (omega arith) (λ e. omega arith),
        )
        (reverse-reversed (digits 11 (2 ^ 32 - n) ++ b'-' ∷ [])
          ∙ reversed-last (digits 11 (2 ^ 32 - n)) b'-'
          ∙ ap (λ t. b'-' ∷ t) (sym (reverse-reversed (digits 11 (2 ^ 32 - n)))))
  | inr plain ↦ elim (Bool-cases (n == 0)) [
    | inl nothing ↦ let zeroed : n ≡ 0 = ground arith in rw zeroed zero-run
    | inr more ↦
        let pos : n ≢ 0 = ==-false→ne n 0 more in
        rw (plain, more, ascii_digits-digits 11 n (ground arith) pos) (rw plain refl)
  ]
]
