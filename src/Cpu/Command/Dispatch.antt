-- ===== src/Cpu/Command/Dispatch.antt =====
-- Which command a word stands for.
use Prim.Native.String.{String}
use ten_os.Cpu.Command.Words.{IsString, HasNoSpace, IsTrimmed, process_cmd-words}
use ten_os.Drivers.Screen.{white_on_black}
use ten_os.Print.{vformat_print, directive}
use ten_os.Cpu.Console.{System, chars, emit, printk_color}
use ten_os.Cpu.Command.{space, starts_as, run_cmd, process_cmd, cmd_echo}
use ten_os.Fs.Directory.{is_same}
use ten_os.Util.{memcmp, Comparison, less, same, more}
use ten_os.Util.Compare.{memcmp-equal, memcmp-same}
use ten_os.Prelude.{
  ℕ, zero, suc, ◌+◌, ◌≤◌, ◌<◌, ◌≡◌, ◌↔◌, refl, sym, ap, ◌∙◌, List, [], ◌∷◌, ◌++◌, some, true,
  get_or, length, codes, replicate, arith,
}

is_same-true : (c : Comparison) → is_same c ≡ true → c ≡ same
unfolding is_same
is_same-true less e = absurd (cc e)
is_same-true same e = refl
is_same-true more e = absurd (cc e)

get_or-prefix :
    (name rest : List ℕ) (j : ℕ) → j < length name → get_or (name ++ rest) j 0 ≡ get_or name j 0
get_or-prefix [] rest j h = absurd (omega arith)
get_or-prefix (c ∷ name) rest zero h = refl
get_or-prefix (c ∷ name) rest (suc j) h = get_or-prefix name rest j (omega arith)

prefix :
    (name cmd : List ℕ)
    → IsString name
    → ((j : ℕ) → j < length name → get_or cmd j 0 ≡ get_or name j 0)
    → (rest : List ℕ) × (cmd ≡ name ++ rest)
prefix [] cmd h equal = (cmd, refl)
prefix (c ∷ name) [] (h, hs) equal = absurd (h (sym (equal 0 (omega arith))))
prefix (c ∷ name) (d ∷ cmd) (h, hs) equal =
    let (rest, e) = prefix name cmd hs (λ j k. equal (suc j) (omega arith)) in
    let e' : d ≡ c = equal 0 (omega arith) in (rest, rw (e', e) refl)

-- For a name and a word in which no byte is 0, the test of `process_cmd` holds exactly if the word
-- begins with the name; what stands behind the name in the word does not matter.
pub starts_as_lem :
    (cmd : List ℕ) (name : String)
    → IsString (codes name)
    → (starts_as cmd name ≡ true) ↔ ((rest : List ℕ) × (cmd ≡ codes name ++ rest))
unfolding starts_as is_same
starts_as_lem cmd name h = (
  λ e. prefix (codes name) cmd h (λ j k.
      ap (λ i. get_or cmd i 0) (omega arith)
      ∙ memcmp-same (length (codes name)) 0 0 _ _ j (is_same-true _ e) k
      ∙ ap (λ i. get_or (codes name) i 0) (omega arith)),
  λ (rest, e). ap is_same (
      memcmp-equal (length (codes name)) 0 0 (λ i. get_or cmd i 0) (λ i. get_or (codes name) i 0)
        (λ j k.
          let at : 0 + j ≡ j = omega arith in rw (at, e) (get_or-prefix (codes name) rest j k))),
)

-- The words that begin with "echo" run `cmd_echo`.
run_cmd-echo :
    (rest args : List ℕ) (s : System) → run_cmd (codes "echo" ++ rest) args s ≡ cmd_echo args s
unfolding run_cmd starts_as memcmp is_same
run_cmd-echo rest args s = refl

cmd_echo_lem :
    (args : List ℕ) (s : System)
    → cmd_echo args s
      ≡ some
          (emit (chars white_on_black (args ++ 10 ∷ [])) (emit (chars white_on_black (10 ∷ [])) s))
unfolding cmd_echo printk_color vformat_print directive
cmd_echo_lem args s = refl

-- A line of any spaces, "echo" with up to 15 bytes right behind it, and spaces and a text behind
-- that: the call returns 0, and what it adds to the output is a line break and the text with one,
-- in white; nothing else of the system changes.
process_cmd-echo :
    (n m : ℕ) (rest args : List ℕ) (s : System)
    → HasNoSpace rest
    → length rest ≤ 15
    → IsTrimmed args
    → process_cmd
        (replicate n space ++ ((codes "echo" ++ rest) ++ (replicate (suc m) space ++ args)))
        s
      ≡ some (
        0,
        emit (chars white_on_black (args ++ 10 ∷ [])) (emit (chars white_on_black (10 ∷ [])) s),
      )
process_cmd-echo n m rest args s word fits trimmed =
    process_cmd-words n m (codes "echo" ++ rest) args s
      ((λ e. omega arith), ((λ e. omega arith), ((λ e. omega arith), ((λ e. omega arith), word))))
      (λ e. omega (arith, ap length e)) (omega arith) trimmed
    ∙ rw (run_cmd-echo rest args s, cmd_echo_lem args s) refl
