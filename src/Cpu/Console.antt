-- ===== src/Cpu/Console.antt =====
-- The state that the system calls of cpu/syscall.c share with the drivers, and their output.
pub mod Samples
use ten_os.Drivers.Keyboard.{Keyboard}
use ten_os.Drivers.Screen.{Screen, white_on_black, put_char, clear_screen}
use ten_os.Fs.Volume.{Volume}
use ten_os.Mm.Paging.{Vmm}
use ten_os.Print.{kern_info, Arg, vformat_print, printk_core}
use ten_os.Word.{u8}
use ten_os.Prelude.{ℕ, List, [], ◌∷◌, ◌++◌, Option, none, some, codes}

-- What reaches the screen: bytes in a colour, or that it is cleared.
pub data Output : Type 0 where
  chars : ℕ → List ℕ → Output
  cleared : Output

-- `behind` is what stands in memory behind the terminator of the line that `process_cmd` is given,
-- as far as it is known.
pub record System : Type 0 where
  pub volume : Volume
  pub vmm : Vmm
  pub keyboard : Keyboard
  pub current_level : ℕ
  pub output : List Output
  pub behind : List ℕ

-- The calls of `put_char` and `clear_screen` that the output stands for.
pub put_chars : ℕ → List ℕ → Screen → Screen
put_chars color [] s = s
put_chars color (c ∷ text) s = put_chars color text (put_char c color s)

pub show : List Output → Screen → Screen
unfolding put_chars
show [] s = s
show (chars color text ∷ output) s = show output (put_chars color text s)
show (cleared ∷ output) s = show output (clear_screen s)

abbrev pub emit : Output → System → System
emit o s = record s { output = s.output ++ o ∷ [] }

infixl 5 ◌>>=◌
abbrev pub ◌>>=◌ : {A B : Type 0} → Option A → (A → Option B) → Option B
none >>= f = none
some a >>= f = f a

-- None where `vformat_print` has none.
unfoldable pub printk_color : ℕ → List ℕ → List Arg → System → Option System
printk_color attr fmt args s =
    vformat_print fmt args >>= λ text. some (emit (chars (u8 attr) text) s)

abbrev pub printk : List ℕ → List Arg → System → Option System
printk fmt args s = printk_color white_on_black fmt args s

unfoldable pub log : ℕ → List ℕ → List ℕ → List Arg → System → Option System
log level origin fmt args s = printk_core s.current_level level origin fmt args >>= λ line.
    some (emit (chars line.0 line.1) s)

pub set_log_level : ℕ → System → System
set_log_level level s = record s { current_level = level }

-- With its message.
pub printk_init : System → Option System
printk_init s =
    log kern_info (codes "PRINTK") (codes "Kernel print initialized..") []
      (record s { current_level = kern_info })
