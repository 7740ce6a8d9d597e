-- ===== src/Cpu/Command.antt =====
-- process_cmd of cpu/syscall.c and the commands. A string is the list of its bytes in front of the
-- terminator; what stands behind that of the line is the system's `behind`. Where the code reads behind
-- what is known there, or writes behind an array, there is no result.
pub mod Words
pub mod Dispatch
pub mod Files
mod Tests
use Prim.Native.String.{String}
use ten_os.Drivers.Screen.Color
use ten_os.Drivers.Screen.{white_on_black}
use ten_os.Cpu.Console.{Output, chars, cleared, System, emit, ◌>>=◌, printk_color, printk}
use ten_os.Fs.Create.{fat12_create}
use ten_os.Fs.Directory.{fat12_open, is_same}
use ten_os.Fs.File.{fat12_read, fat12_write}
use ten_os.Fs.Listing.{c_string, fat12_list_root}
use ten_os.Print.{Arg, text}
use ten_os.Util.{memcmp}
use ten_os.Prelude.{
  ℕ, zero, suc, ◌+◌, List, [], ◌∷◌, ◌++◌, Option, none, some, Bool, true, false, ◌==◌, ltb, leb,
  if◌then◌else◌, get_or, length, codes,
}

abbrev pub space : ℕ
space = b' '

-- A literal with a line break in front, behind or on both sides.
abbrev pub line : String → List ℕ
line s = codes s ++ 10 ∷ []

abbrev pub break_line : String → List ℕ
break_line s = 10 ∷ line s

-- The names and the descriptions of `commands`.
abbrev pub commands : List (String × String)
commands =
    ("help", "show all the commands")
    ∷ ("clear", "Clear screen")
    ∷ ("echo", "Echo text")
    ∷ ("create", "Create a new file")
    ∷ ("ls", "List files")
    ∷ ("cat", "Display file contents")
    ∷ ("meminfo", "Show memory info")
    ∷ []

abbrev pub rule : String
rule = "---------------------------------------------------"

pub help_from : List (String × String) → System → Option System
help_from [] s = some s
help_from ((name, description) ∷ rest) s =
    printk_color Color.cyan (line "Name of the cmd -----> %s") (text (codes name) ∷ []) s >>= λ s.
    printk_color Color.cyan (line "Description of the cmd ------> %s")
      (text (codes description) ∷ []) s
    >>= λ s. printk_color Color.green (line rule) [] s >>= λ s. help_from rest s

pub cmd_help : System → Option System
cmd_help s =
    printk_color Color.magenta (break_line "==============Available Commands=============") [] s
    >>= λ s. printk_color Color.green (line rule) [] s >>= λ s. help_from commands s

pub cmd_clear : System → Option System
cmd_clear s = some (emit cleared s)

pub cmd_echo : List ℕ → System → Option System
cmd_echo args s = printk (line "") [] s >>= λ s. printk (line "%s") (text args ∷ []) s

-- `while(*args != ' ')`, with the places that are left in `name`: the bytes for it, and what stands from
-- the space on. It goes on at a terminator. The last place is the terminator's.
pub take_name : ℕ → List ℕ → Option (List ℕ × List ℕ)
take_name room [] = none
take_name zero (c ∷ args) = if c == space then some ([], c ∷ args) else none
take_name (suc room) (c ∷ args) =
    if c == space then some ([], c ∷ args) else take_name room args >>= λ r. some (c ∷ r.0, r.1)

abbrev pub behind_space : List ℕ → List ℕ
behind_space [] = []
behind_space (c ∷ args) = args

-- `while (*args != '\0')`: the string in front of a terminator.
pub string_front : List ℕ → Option (List ℕ)
string_front [] = none
string_front (c ∷ args) =
    let rest = string_front args in if c == 0 then some [] else rest >>= λ t. some (c ∷ t)

-- The memory from the arguments on.
abbrev pub from_args : List ℕ → System → List ℕ
from_args args s = args ++ (0 ∷ s.behind)

-- `buff` of 256 bytes, with the contents and zeros behind them.
pub fill_buffer : List ℕ → Option (ℕ → ℕ)
fill_buffer contents = if ltb 256 (length contents) then none else some (λ j. get_or contents j 0)

pub cmd_create_file : List ℕ → System → Option System
cmd_create_file args s = take_name 11 (from_args args s) >>= λ r.
    string_front (behind_space r.1) >>= λ contents. fill_buffer contents >>= λ buff.
    let name = c_string r.0 in
    let (done, v, vm) = fat12_create name 256 s.volume s.vmm in
    let (fp, v', vm') = fat12_open name v vm in
    let (written, fp', v'') = fat12_write fp buff 256 v' in
    printk_color Color.yellow (break_line "File %s Created") (text name ∷ [])
      (record s { volume = v''; vmm = vm' })

-- The string at the start of an array, from the place `i` on; none if no terminator is in it.
pub string_in : ℕ → ℕ → (ℕ → ℕ) → Option (List ℕ)
string_in zero i buff = none
string_in (suc left) i buff =
    let rest = string_in left (i + 1) buff in
    if buff i == 0 then some [] else rest >>= λ t. some (buff i ∷ t)

pub cmd_cat : List ℕ → System → Option System
cmd_cat args s = take_name 11 (from_args args s) >>= λ r.
    let name = c_string r.0 in
    let (fp, v, vm) = fat12_open name s.volume s.vmm in
    let (count, fp', buff, v') = fat12_read fp (λ j. 0) 256 v in
    printk (break_line "File %s Contents :- ") (text name ∷ []) (record s { volume = v'; vmm = vm })
    >>= λ s. string_in 256 0 buff >>= λ contents.
        printk (codes "%s") (text contents ∷ []) s >>= λ s. printk (break_line "File Ended") [] s

pub cmd_ls : System → Option System
cmd_ls s =
    let (listing, count, v) = fat12_list_root s.volume in
    printk (line "") [] s >>= λ s.
    printk (line "") [] (emit (chars white_on_black listing) (record s { volume = v }))

unfoldable pub skip_spaces : List ℕ → List ℕ
skip_spaces [] = []
skip_spaces (c ∷ buff) = if c == space then skip_spaces buff else c ∷ buff

-- The second loop of `process_cmd`, with the places that are left in `cmd`; the last one is the
-- terminator's.
pub take_cmd : ℕ → List ℕ → Option (List ℕ × List ℕ)
take_cmd room [] = some ([], [])
take_cmd zero (c ∷ buff) = if c == space then some ([], c ∷ buff) else none
take_cmd (suc room) (c ∷ buff) =
    if c == space then some ([], c ∷ buff) else take_cmd room buff >>= λ r. some (c ∷ r.0, r.1)

-- `memcmp(cmd, name, n) == 0` for the length `n` of the name.
pub starts_as : List ℕ → String → Bool
starts_as cmd name =
    is_same (memcmp (λ j. get_or cmd j 0) 0 (λ j. get_or (codes name) j 0) 0 (length (codes name)))

-- The chain of tests. Each result is 0.
pub run_cmd : List ℕ → List ℕ → System → Option System
run_cmd cmd args s =
    if starts_as cmd "help"
    then cmd_help s
    else if starts_as cmd "clear"
    then cmd_clear s
    else if starts_as cmd "echo"
    then cmd_echo args s
    else if starts_as cmd "create"
    then cmd_create_file args s
    else if starts_as cmd "cat"
    then cmd_cat args s
    else if starts_as cmd "ls"
    then cmd_ls s
    else printk_color Color.red (break_line " %s cmd not implemented") (text cmd ∷ []) s

pub process_cmd : List ℕ → System → Option (ℕ × System)
process_cmd buff s =
    take_cmd 19 (skip_spaces buff) >>= λ r. run_cmd r.0 (skip_spaces r.1) s >>= λ s'. some (0, s')
