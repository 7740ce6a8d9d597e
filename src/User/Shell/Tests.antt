-- ===== src/User/Shell/Tests.antt =====
-- Rounds of the shell, and the witnesses of the theorems on it.
use ten_os.User.Shell.{shell_round}
use ten_os.User.Shell.Compare.{IsBytes}
use ten_os.User.Shell.Rounds.{Handled, prompted, shell_round_lem}
use ten_os.Cpu.Console.Samples.{idle, idle-IsValid}
use ten_os.Drivers.Keyboard.{Keyboard, scancode_to_ascii}
use ten_os.Drivers.Keyboard.Ring.{IsValid, contents}
use ten_os.Drivers.Keyboard.Reading.{chars as typed_chars}
use ten_os.Prelude.{ℕ, ◌<◌, ◌≡◌, ◌≢◌, refl, [], ◌∷◌, ◌++◌, false, codes, arith}

byte : (c : ℕ) → 0 < c → c < 256 → (c ≢ 0) × (c < 256)
byte c p q = (λ e. omega arith, q)

ls_bytes : IsBytes (codes "ls")
ls_bytes = (byte b'l' (omega arith) (omega arith), (byte b's' (omega arith) (omega arith), tt))

ll_bytes : IsBytes (codes "ll")
ll_bytes = (byte b'l' (omega arith) (omega arith), (byte b'l' (omega arith) (omega arith), tt))

-- The keys l and s with their releases, and Enter.
shell_round_lem_example :
    (after : Keyboard) × (contents after ≡ [])
    × IsValid after
    × Handled
        (typed_chars false false (0x26 ∷ 0xA6 ∷ 0x1F ∷ 0x9F ∷ []))
        (prompted (codes "ls") after idle)
        (shell_round ((0x26 ∷ 0xA6 ∷ 0x1F ∷ 0x9F ∷ []) ++ (0x1C ∷ [])) idle)
unfolding scancode_to_ascii
shell_round_lem_example =
    shell_round_lem (0x26 ∷ 0xA6 ∷ 0x1F ∷ 0x9F ∷ []) [] idle (omega arith) idle-IsValid refl refl
      refl (omega arith) ls_bytes
