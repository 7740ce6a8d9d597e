-- ===== src/Cpu/Command/Tests.antt =====
-- Lines that are run, and the witnesses of the theorems on commands.
use ten_os.Cpu.Console.{System, ◌>>=◌}
use ten_os.Cpu.Command.Files.{created_line, listing, cmd_cat-cmd_create_file}
use ten_os.Fs.Create.Samples.{
  b_txt, volume, tables, laid, bytes, a_cluster, new, first_page-run, second_page-run,
}
use ten_os.Cpu.Command.{space, starts_as, run_cmd, process_cmd, cmd_cat, cmd_create_file}
use ten_os.Cpu.Command.Words.{HasNoSpace, IsString, process_cmd-words}
use ten_os.Cpu.Command.Dispatch.{starts_as_lem}
use ten_os.Cpu.Console.Samples.{idle}
use ten_os.Prelude.{
  ℕ, suc, ◌≡◌, ◌↔◌, ap, List, [], ◌∷◌, ◌++◌, some, true, length, replicate, codes, arith,
}

ls_word : HasNoSpace (codes "ls")
ls_word = ((λ e. omega arith), ((λ e. omega arith), tt))

help_name : IsString (codes "help")
help_name =
    ((λ e. omega arith), ((λ e. omega arith), ((λ e. omega arith), ((λ e. omega arith), tt))))

process_cmd-words_example :
    process_cmd (replicate 1 space ++ (codes "ls" ++ (replicate (suc 1) space ++ codes "x"))) idle
    ≡ (run_cmd (codes "ls") (codes "x") idle >>= λ s'. some (0, s'))
process_cmd-words_example =
    process_cmd-words 1 1 (codes "ls") (codes "x") idle ls_word (λ e. omega (arith, ap length e))
      (omega arith) (λ e. omega arith)

-- The shell's array holds the rest of an earlier line.
abbrev with_rest : System
with_rest = record idle { behind = codes "xt hello" }

starts_as_lem_example :
    (starts_as (codes "helpless") "help" ≡ true)
    ↔ ((rest : List ℕ) × (codes "helpless" ≡ codes "help" ++ rest))
starts_as_lem_example = starts_as_lem (codes "helpless") "help" help_name

-- The system with a directory and room for a file.
abbrev with_directory : System
with_directory = record idle { volume = volume; vmm = tables }

b_txt-HasNoSpace : HasNoSpace b_txt
b_txt-HasNoSpace = (
  (λ e. omega arith),
  ((λ e. omega arith), ((λ e. omega arith), ((λ e. omega arith), ((λ e. omega arith), tt)))),
)

b_txt-IsString : IsString b_txt
b_txt-IsString = (
  (λ e. omega arith),
  ((λ e. omega arith), ((λ e. omega arith), ((λ e. omega arith), ((λ e. omega arith), tt)))),
)

hi-IsString : IsString (codes "hi")
hi-IsString = ((λ e. omega arith), ((λ e. omega arith), tt))

cmd_cat-cmd_create_file_example :
    (cmd_create_file (b_txt ++ (space ∷ codes "hi")) with_directory >>= λ s'.
    cmd_cat (b_txt ++ (space ∷ [])) s' >>= λ s''. some s''.output)
    ≡ some (with_directory.output ++ (created_line b_txt ∷ listing b_txt (codes "hi")))
cmd_cat-cmd_create_file_example =
    cmd_cat-cmd_create_file b_txt (codes "hi") [] with_directory 1 b_txt-HasNoSpace (omega arith)
      b_txt-IsString (λ e. omega (arith, e)) hi-IsString (omega arith) laid bytes a_cluster new
      (λ e. omega (arith, first_page-run)) (λ e. omega (arith, second_page-run))
