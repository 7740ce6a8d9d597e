-- ===== src/Cpu/Syscall.antt =====
-- syscall_dispatcher of cpu/syscall.c. A pointer to a string is an address, and the strings of the
-- caller are a function from addresses to their bytes. A call that stops the machine, or that does
-- what C leaves open, or that waits for a line that is not there, has no number as its result.
pub mod Calls
use ten_os.Cpu.Console.{System, chars, emit, ◌>>=◌, printk_color, printk, log}
use ten_os.Cpu.Command.{line, break_line, process_cmd}
use ten_os.Drivers.Keyboard.{keyboard_read}
use ten_os.Drivers.Screen.{white_on_black, minus_one}
use ten_os.Print.{Arg, text, number, kern_debug}
use ten_os.Prelude.{
  ℕ, zero, suc, ◌+◌, List, [], ◌∷◌, Option, none, some, ◌==◌, leb, not, if◌then◌else◌, length,
  codes,
}

-- The bytes that a call stores in the caller's buffer are part of its return.
pub data Outcome : Type 0 where
  returned : ℕ → List ℕ → System → Outcome
  halted : System → Outcome

abbrev pub sys_exit_num : ℕ
sys_exit_num = 0

abbrev pub sys_print_num : ℕ
sys_print_num = 1

abbrev pub sys_read_num : ℕ
sys_read_num = 2

abbrev pub sys_exec_cmd_num : ℕ
sys_exec_cmd_num = 3

abbrev pub sys_color_print_num : ℕ
sys_color_print_num = 4

pub sys_exit : ℕ → System → Option Outcome
sys_exit code s =
    printk (break_line "[KERNEL] Process exited with code: %d") (number code ∷ []) s >>= λ s.
    printk (line "[KERNEL] System halted.") [] s >>= λ s. some (halted s)

-- `while(*p && len < 4096)`, with the rounds that are left: the value of `len`.
pub measure : ℕ → List ℕ → ℕ
measure zero str = 0
measure (suc left) [] = 0
measure (suc left) (c ∷ str) = 1 + measure left str

pub sys_print : List ℕ → ℕ → System → Option Outcome
sys_print str color s =
    let len = measure 4096 str in
    if leb 4096 len
    then (printk (line "[KERNEL] String too long") [] s >>= λ s. some (returned minus_one [] s))
    else printk_color (if color == 0 then white_on_black else color) (codes "%s") (text str ∷ []) s
      >>= λ s. some (returned len [] s)

-- With the scan codes that arrive while the call waits, whose characters are echoed then.
pub sys_read : ℕ → ℕ → List ℕ → System → Option Outcome
sys_read fd count scancodes s =
    log kern_debug (codes "KERNEL") (line "sys_read handler called") [] s >>= λ s.
    if not (fd == 0)
    then some (returned minus_one [] s)
    else keyboard_read scancodes s.keyboard count >>= λ r.
        some (
          returned (length r.0) r.0 (record (emit (chars white_on_black r.3) s) { keyboard = r.1 }))

pub syscall_dispatcher : ℕ → ℕ → ℕ → ℕ → (ℕ → List ℕ) → List ℕ → System → Option Outcome
syscall_dispatcher syscall_num arg1 arg2 arg3 strings scancodes s =
    if syscall_num == sys_exit_num
    then sys_exit arg1 s
    else if syscall_num == sys_print_num
    then sys_print (strings arg1) 0 s
    else if syscall_num == sys_read_num
    then sys_read arg1 arg3 scancodes s
    else if syscall_num == sys_exec_cmd_num
    then (process_cmd (strings arg1) s >>= λ r. some (returned r.0 [] r.1))
    else if syscall_num == sys_color_print_num
    then sys_print (strings arg1) arg2 s
    else printk (line "[KERNEL] Unknown syscall: %d") (number syscall_num ∷ []) s >>= λ s.
        some (returned minus_one [] s)
