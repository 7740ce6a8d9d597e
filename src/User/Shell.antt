-- ===== src/User/Shell.antt =====
-- user/shell.c and the calls of user/userlib.c. What is typed is given for each round of the loop:
-- the scan codes that arrive while the shell waits in `read`.
pub mod Compare
pub mod Rounds
mod Tests
use Prim.Native.String.{String}
use ten_os.Cpu.Console.{System, ◌>>=◌}
use ten_os.Cpu.Command.{skip_spaces}
use ten_os.Cpu.Syscall.{
  Outcome, returned, halted, sys_exit_num, sys_print_num, sys_read_num, sys_exec_cmd_num,
  sys_color_print_num, syscall_dispatcher,
}
use ten_os.Drivers.Screen.{is_negative}
use ten_os.Fs.Listing.{c_string}
use ten_os.Word.{sub_u32}
use ten_os.Prelude.{
  ℕ, zero, suc, List, [], ◌∷◌, ◌++◌, Option, none, some, ◌==◌, if◌then◌else◌, length, codes,
}

-- The calls of userlib.c. A pointer is the address 0, at which the one string of the call stands.
abbrev pub exit : ℕ → System → Option Outcome
exit code s = syscall_dispatcher sys_exit_num code 0 0 (λ address. []) [] s

abbrev pub print : List ℕ → System → Option Outcome
print str s = syscall_dispatcher sys_print_num 0 0 0 (λ address. str) [] s

abbrev pub read : ℕ → ℕ → List ℕ → System → Option Outcome
read fd count scancodes s = syscall_dispatcher sys_read_num fd 0 count (λ address. []) scancodes s

abbrev pub print_color : List ℕ → ℕ → System → Option Outcome
print_color str color s = syscall_dispatcher sys_color_print_num 0 color 0 (λ address. str) [] s

abbrev pub sys_exec_command : List ℕ → System → Option Outcome
sys_exec_command cmd s = syscall_dispatcher sys_exec_cmd_num 0 0 0 (λ address. cmd) [] s

-- What follows a call that comes back: its number, the bytes it stored, and the system.
infixl 5 ◌>>>=◌
abbrev pub ◌>>>=◌ : Option Outcome → (ℕ → List ℕ → System → Option Outcome) → Option Outcome
none >>>= f = none
some (halted s) >>>= f = some (halted s)
some (returned value bytes s) >>>= f = f value bytes s

-- The difference of the first bytes that differ, or of the terminators.
unfoldable pub strcmp_user : List ℕ → List ℕ → ℕ
strcmp_user [] [] = 0
strcmp_user [] (d ∷ t) = sub_u32 0 d
strcmp_user (c ∷ s) [] = c
strcmp_user (c ∷ s) (d ∷ t) = let rest = strcmp_user s t in if c == d then rest else sub_u32 c d

-- `if (line[len-1] == '\n') line[len-1] = '\0';`
unfoldable pub drop_newline : List ℕ → List ℕ
drop_newline [] = []
drop_newline (c ∷ []) = if c == 10 then [] else c ∷ []
drop_newline (c ∷ d ∷ s) = c ∷ drop_newline (d ∷ s)

-- The line is passed on: -1 or less has two messages.
pub exec_line : List ℕ → System → Option Outcome
exec_line line s = sys_exec_command line s >>>= λ result bytes s.
    if is_negative result
    then (print (10 ∷ codes "Command failed or unknown command" ++ 10 ∷ []) s >>>= λ n b s.
        print (codes "Type 'help' for available commands" ++ 10 ∷ []) s)
    else some (returned result [] s)

-- From the loop over spaces on. A round that ends by `continue` has the number 0.
pub handle_string : List ℕ → System → Option Outcome
handle_string line s =
    let p = skip_spaces line in
    if length p == 0
    then some (returned 0 [] s)
    else if strcmp_user p (codes "exit") == 0
    then (print (10 ∷ codes "Goodbye!" ++ 10 ∷ []) s >>>= λ n b s. exit 0 s)
    else exec_line line s

-- The body behind `read`, which has stored these bytes.
pub handle_line : List ℕ → System → Option Outcome
handle_line [] s = some (returned 0 [] s)
handle_line (c ∷ bytes) s = handle_string (c_string (drop_newline (c ∷ bytes))) s

-- A round of the loop; a result of `read` that is not positive has no line. The length of a line is
-- below 256, and -1 is stored with no bytes.
pub shell_round : List ℕ → System → Option Outcome
shell_round scancodes s = print_color (codes "TenOS> ") 2 s >>>= λ n b s.
    read 0 255 scancodes s >>>= λ len line s. handle_line line s

-- Each round has its scan codes, and what stands in `line` behind the terminator then.
pub shell_loop : List (List ℕ × List ℕ) → System → Option Outcome
shell_loop [] s = some (returned 0 [] s)
shell_loop ((scancodes, behind) ∷ rounds) s =
    shell_round scancodes (record s { behind = behind }) >>>= λ n b s. shell_loop rounds s

-- A literal and a line break.
abbrev pub line_of : String → List ℕ
line_of s = codes s ++ 10 ∷ []

abbrev pub banner : List (List ℕ)
banner =
    (10 ∷ line_of "========================================")
    ∷ line_of "  TenOS Shell v0.2 (User Mode)"
    ∷ line_of "  Running in Ring 3!"
    ∷ line_of "  Type 'help' for commands"
    ∷ (line_of "========================================" ++ 10 ∷ [])
    ∷ []

pub print_lines : List (List ℕ) → System → Option Outcome
print_lines [] s = some (returned 0 [] s)
print_lines (l ∷ lines) s = print l s >>>= λ n b s. print_lines lines s

pub shell_main : List (List ℕ × List ℕ) → System → Option Outcome
shell_main rounds s = print_lines banner s >>>= λ n b s. shell_loop rounds s
