-- ===== src/Cpu/Isr/Clock.antt =====
-- The divisor that the timer gets.
use ten_os.Cpu.Isr.{Machine, init_timer}
use native.Mathlib.Nat.{div-lt_iff_lt-mul}
use ten_os.Word.Bits.{bit_and-mask}
use ten_os.Prelude.{ℕ, ◌+◌, ◌*◌, ◌/◌, ◌%◌, ◌^◌, ◌≤◌, ◌<◌, ◌≡◌, ◌↔◌, List, [], ◌∷◌, arith}

-- What the timer makes of the writes: the command, and the two bytes of the divisor.
abbrev pub latch : List (ℕ × ℕ) → ℕ
latch ((_, command) ∷ (_, low) ∷ (_, high) ∷ []) = low + 2 ^ 8 * high
latch _ = 0

two_bytes : (freq : ℕ) (m : Machine) → latch (init_timer freq m).1 ≡ 1193180 / freq % 2 ^ 16
unfolding init_timer
two_bytes freq m =
    rw (bit_and-mask 8 (1193180 / freq), bit_and-mask 8 (1193180 / freq / 2 ^ 8)) (omega arith)

-- For every positive frequency: the two bytes that the timer gets are its divisor exactly if the
-- frequency is at least 19.
init_timer-latch :
    (freq : ℕ) (m : Machine)
    → 0 < freq
    → (latch (init_timer freq m).1 ≡ 1193180 / freq) ↔ (19 ≤ freq)
init_timer-latch freq m pos =
    let fits : (1193180 / freq < 2 ^ 16) ↔ (1193180 < 2 ^ 16 * freq) = div-lt_iff_lt-mul pos in
    rw (two_bytes freq m)
      (λ e. omega (arith, fits.0 (omega (arith, e))), λ p. omega (arith, fits.1 (omega arith)))
