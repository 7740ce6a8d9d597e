-- ===== src/Cpu/Syscall/Calls.antt =====
-- What the system calls return.
use ten_os.Cpu.Console.{System, chars, emit, ◌>>=◌, printk_color, printk, log}
use ten_os.Cpu.Command.{line, process_cmd}
use ten_os.Cpu.Syscall.{
  returned, halted, sys_exit_num, sys_exec_cmd_num, sys_exit, sys_print_num, sys_read_num,
  sys_color_print_num, measure, sys_print, sys_read, syscall_dispatcher,
}
use ten_os.Drivers.Keyboard.{Keyboard, buffer_size}
use ten_os.Drivers.Keyboard.Ring.{IsValid, contents}
use ten_os.Drivers.Keyboard.Reading.{are_plain, chars as typed_chars}
use ten_os.Drivers.Keyboard.Typing.{keyboard_read-typed}
use ten_os.Drivers.Screen.{white_on_black, minus_one}
use ten_os.Print.{text, number, print_int, vformat_print, directive, printk_core}
use ten_os.Word.{u8}
use ten_os.Prelude.{
  ℕ, zero, suc, ◌-◌, ◌≤◌, ◌<◌, ◌≡◌, ◌≢◌, ◌⊎◌, inl, inr, refl, ap, List, [], ◌∷◌, ◌++◌, append-nil,
  some, Bool-cases, true, ◌==◌, leb, if◌then◌else◌, length, codes, ne→==-false, lt→ltb, min, arith,
}

measure_lem : (n : ℕ) (str : List ℕ) → measure n str ≡ min n (length str)
unfolding measure
measure_lem zero str = omega arith
measure_lem (suc n) [] = omega arith
measure_lem (suc n) (c ∷ str) = omega (arith, measure_lem n str)

-- A string in a colour, as `printk_color(color, "%s", str)` prints it.
printed :
    (color : ℕ) (str : List ℕ) (s : System)
    → printk_color color (codes "%s") (text str ∷ []) s ≡ some (emit (chars (u8 color) str) s)
unfolding printk_color vformat_print directive
printed color str s = ap (λ t. some (emit (chars (u8 color) t) s)) (append-nil str)

too_long :
    (s : System)
    → printk (line "[KERNEL] String too long") [] s
      ≡ some (emit (chars white_on_black (line "[KERNEL] String too long")) s)
unfolding printk_color vformat_print
too_long s = refl

-- A string of fewer than 4096 bytes is printed in the colour, white for the colour 0, and its length
-- returned. Of a longer one nothing is printed but the message, and -1 returned. Nothing else of
-- the system changes.
sys_print_lem :
    (str : List ℕ) (color : ℕ) (s : System)
    → ((length str < 4096)
        × (sys_print str color s
            ≡ some (
                returned
                  (length str)
                  []
                  (emit (chars (u8 (if color == 0 then white_on_black else color)) str) s))))
      ⊎ ((4096 ≤ length str)
          × (sys_print str color s
              ≡ some (
                  returned minus_one []
                    (emit (chars white_on_black (line "[KERNEL] String too long")) s))))
unfolding sys_print
sys_print_lem str color s = elim (Bool-cases (leb 4096 (length str))) [
  | inl long ↦
      let over : 4096 ≤ length str = ground arith in
      let full : measure 4096 str ≡ 4096 = omega (arith, measure_lem 4096 str) in
      inr (over, rw (full, too_long s) refl)
  | inr short ↦
      let whole : measure 4096 str ≡ length str = ground (arith, measure_lem 4096 str) in
      inl (
        ground arith,
        rw (whole, short, printed (if color == 0 then white_on_black else color) str s) refl,
      )
]

unknown :
    (num : ℕ) (s : System)
    → printk (line "[KERNEL] Unknown syscall: %d") (number num ∷ []) s
      ≡ some (
          emit
            (chars white_on_black
              (codes "[KERNEL] Unknown syscall: " ++ (print_int num ++ 10 ∷ [])))
            s)
unfolding printk_color vformat_print directive
unknown num s = refl

-- A number that is no system call's: the call returns -1 and prints the number; nothing else of the
-- system changes.
syscall_dispatcher-unknown :
    (num arg1 arg2 arg3 : ℕ) (strings : ℕ → List ℕ) (scancodes : List ℕ) (s : System)
    → 4 < num
    → syscall_dispatcher num arg1 arg2 arg3 strings scancodes s
      ≡ some (
          returned minus_one [] (
            emit
              (chars white_on_black
                (codes "[KERNEL] Unknown syscall: " ++ (print_int num ++ 10 ∷ [])))
              s))
unfolding syscall_dispatcher
syscall_dispatcher-unknown num arg1 arg2 arg3 strings scancodes s h =
    rw
      (
        ne→==-false num 0 (omega arith),
        ne→==-false num 1 (omega arith),
        ne→==-false num 2 (omega arith),
        ne→==-false num 3 (omega arith),
        ne→==-false num 4 (omega arith),
        unknown num s,
      )
      refl

-- A message of the level "debug" while that is not shown.
silent :
    (fmt : List ℕ) (s : System)
    → 1 ≤ s.current_level
    → log 0 (codes "KERNEL") fmt [] s ≡ some (emit (chars 0 []) s)
unfolding log printk_core
silent fmt s h = rw (lt→ltb 0 s.current_level (omega arith)) refl

-- Reading from another file than 0 returns -1, and the keyboard's lines stay. Reading from file 0
-- while keys for a line of at most 254 characters and Enter are pressed, when nothing waits and no
-- line is begun, shows the characters and the newline, returns their number, and stores them, if the
-- buffer has room; then nothing waits. Debug messages are taken to be off.
pub syscall_dispatcher-typed :
    (fd buf count : ℕ) (strings : ℕ → List ℕ) (scancodes rest : List ℕ) (s : System)
    → 1 ≤ s.current_level
    → IsValid s.keyboard
    → s.keyboard.read_pos ≡ s.keyboard.write_pos
    → s.keyboard.line_pos ≡ 0
    → are_plain s.keyboard.shift_pressed s.keyboard.caps_lock scancodes ≡ true
    → length (typed_chars s.keyboard.shift_pressed s.keyboard.caps_lock scancodes) < buffer_size - 1
    → length (typed_chars s.keyboard.shift_pressed s.keyboard.caps_lock scancodes) < count
    → let typed =
        typed_chars s.keyboard.shift_pressed s.keyboard.caps_lock scancodes ++ (10 ∷ []) in
      let out =
        syscall_dispatcher sys_read_num fd buf count strings (scancodes ++ (0x1C ∷ rest)) s in
      ((fd ≢ 0) × (out ≡ some (returned minus_one [] (emit (chars 0 []) s))))
      ⊎ ((fd ≡ 0)
          × ((after : Keyboard) × (out
                ≡ some (
                    returned
                      (length typed)
                      typed
                      (record (emit (chars white_on_black typed) (emit (chars 0 []) s)) {
                        keyboard = after;
                      })))
              × (contents after ≡ [])
              × IsValid after))
unfolding syscall_dispatcher sys_read
syscall_dispatcher-typed fd buf count strings scancodes rest s quiet v empty fresh plain room
      space =
    let silence = silent (line "sys_read handler called") s quiet in
    elim (Bool-cases (fd == 0)) [
      | inl zero_file ↦
          let (after, e, drained, valid) =
            keyboard_read-typed s.keyboard scancodes rest count v empty fresh plain room space in
          inr (ground arith, (after, rw (silence, zero_file, e) refl, drained, valid))
      | inr other ↦ inl (ground arith, rw (silence, other) refl)
    ]

-- The calls by their numbers.
pub dispatch-color_print :
    (color : ℕ) (str : List ℕ) (s : System)
    → length str < 4096
    → syscall_dispatcher sys_color_print_num 0 color 0 (λ address. str) [] s
      ≡ some (
          returned
            (length str)
            []
            (emit (chars (u8 (if color == 0 then white_on_black else color)) str) s))
unfolding syscall_dispatcher
dispatch-color_print color str s short = elim (sys_print_lem str color s) [
  | inl (_, e) ↦ e
  | inr (long, _) ↦ absurd (omega arith)
]

pub dispatch-print :
    (str : List ℕ) (s : System)
    → length str < 4096
    → syscall_dispatcher sys_print_num 0 0 0 (λ address. str) [] s
      ≡ some (returned (length str) [] (emit (chars white_on_black str) s))
unfolding syscall_dispatcher
dispatch-print str s short = elim (sys_print_lem str 0 s) [
  | inl (_, e) ↦ e
  | inr (long, _) ↦ absurd (omega arith)
]

pub dispatch-exec_cmd :
    (str : List ℕ) (s : System)
    → syscall_dispatcher sys_exec_cmd_num 0 0 0 (λ address. str) [] s
      ≡ (process_cmd str s >>= λ r. some (returned r.0 [] r.1))
unfolding syscall_dispatcher
dispatch-exec_cmd str s = refl

-- What `exit` prints.
abbrev pub farewell : ℕ → System → System
farewell code s = emit (chars white_on_black (line "[KERNEL] System halted.")) (
    emit
      (chars white_on_black
        (10 ∷ codes "[KERNEL] Process exited with code: " ++ (print_int code ++ 10 ∷ [])))
      s)

pub dispatch-exit :
    (code : ℕ) (s : System)
    → syscall_dispatcher sys_exit_num code 0 0 (λ address. []) [] s
      ≡ some (halted (farewell code s))
unfolding syscall_dispatcher sys_exit printk_color vformat_print directive
dispatch-exit code s = refl
