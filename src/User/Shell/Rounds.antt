-- ===== src/User/Shell/Rounds.antt =====
-- A round of the shell, from the keys to the command.
use ten_os.User.Shell.{
  ◌>>>=◌, drop_newline, strcmp_user, exec_line, handle_string, handle_line, shell_round,
}
use ten_os.User.Shell.Compare.{IsBytes, strcmp_user_lem}
use ten_os.Cpu.Console.{System, chars, emit, ◌>>=◌}
use ten_os.Cpu.Command.{skip_spaces, process_cmd}
use ten_os.Cpu.Command.Words.{process_cmd-zero}
use ten_os.Cpu.Syscall.{sys_print_num, sys_exit_num, Outcome, returned, halted, syscall_dispatcher}
use ten_os.Cpu.Syscall.Calls.{
  syscall_dispatcher-typed, dispatch-color_print, dispatch-print, dispatch-exec_cmd, dispatch-exit,
  farewell,
}
use ten_os.Drivers.Keyboard.{Keyboard, buffer_size}
use ten_os.Drivers.Keyboard.Ring.{IsValid, contents}
use ten_os.Drivers.Keyboard.Reading.{are_plain, chars as typed_chars}
use ten_os.Drivers.Screen.{white_on_black}
use ten_os.Fs.Listing.{c_string}
use ten_os.Prelude.{
  ℕ, ◌-◌, ◌≤◌, ◌<◌, ◌≡◌, ◌≢◌, inl, inr, refl, ap, ◌∙◌, List, [], ◌∷◌, ◌++◌, Option, some, true,
  false, ◌==◌, length, codes, Bool-cases, arith,
}

drop_newline_lem : (s : List ℕ) → drop_newline (s ++ (10 ∷ [])) ≡ s
unfolding drop_newline
drop_newline_lem [] = refl
drop_newline_lem (c ∷ []) = refl
drop_newline_lem (c ∷ d ∷ s) = ap (λ t. c ∷ t) (drop_newline_lem (d ∷ s))

c_string_lem : (s : List ℕ) → IsBytes s → c_string s ≡ s
unfolding c_string
c_string_lem [] p = refl
c_string_lem (c ∷ s) ((p, r), ps) =
    let kept : (c == 0) ≡ false = ground (arith, p) in rw (kept, c_string_lem s ps) refl

skip_spaces-IsBytes : (s : List ℕ) → IsBytes s → IsBytes (skip_spaces s)
unfolding skip_spaces
skip_spaces-IsBytes [] p = tt
skip_spaces-IsBytes (c ∷ s) (p, ps) = elim (Bool-cases (c == 32)) [
  | inl space ↦ rw space (skip_spaces-IsBytes s ps)
  | inr other ↦ rw other (p, ps)
]

exit_bytes : IsBytes (codes "exit")
exit_bytes = (
  ((λ e. omega arith), omega arith),
  (
    ((λ e. omega arith), omega arith),
    (((λ e. omega arith), omega arith), (((λ e. omega arith), omega arith), tt)),
  ),
)

-- The end of the shell.
abbrev pub goodbye : System → System
goodbye s = farewell 0 (emit (chars white_on_black (10 ∷ codes "Goodbye!" ++ 10 ∷ [])) s)

-- A line that is read: it has only spaces, or it is `exit` behind spaces, or it goes to the kernel.
pub data Handled (line : List ℕ) (s : System) (out : Option Outcome) : Type 0 where
  is_empty : skip_spaces line ≡ [] → out ≡ some (returned 0 [] s) → Handled line s out
  is_exit : skip_spaces line ≡ codes "exit" → out ≡ some (halted (goodbye s)) → Handled line s out
  is_command :
      skip_spaces line ≢ []
      → skip_spaces line ≢ codes "exit"
      → out ≡ (process_cmd line s >>= λ r. some (returned 0 [] r.1))
      → Handled line s out

exec_line_lem :
    (line : List ℕ) (s : System)
    → exec_line line s ≡ (process_cmd line s >>= λ r. some (returned 0 [] r.1))
unfolding exec_line
exec_line_lem line s = elim (process_cmd-zero line s) [
  | inl e ↦ rw (dispatch-exec_cmd line s, e) refl
  | inr (s', e) ↦ rw (dispatch-exec_cmd line s, e) refl
]

exit_line :
    (s : System)
    → (syscall_dispatcher sys_print_num 0 0 0 (λ address. 10 ∷ codes "Goodbye!" ++ 10 ∷ []) [] s
        >>>= λ n b s. syscall_dispatcher sys_exit_num 0 0 0 (λ address. []) [] s)
      ≡ some (halted (goodbye s))
exit_line s =
    rw (dispatch-print (10 ∷ codes "Goodbye!" ++ 10 ∷ []) s (omega arith))
      (dispatch-exit 0 (emit (chars white_on_black (10 ∷ codes "Goodbye!" ++ 10 ∷ [])) s))

length-zero : (s : List ℕ) → (length s == 0) ≡ true → s ≡ []
length-zero [] e = refl
length-zero (c ∷ s) e = absurd (ground arith)

handle_string-Handled :
    (line : List ℕ) (s : System) → IsBytes line → Handled line s (handle_string line s)
unfolding handle_string
handle_string-Handled line s p =
    let rest = skip_spaces line in
    let exits = strcmp_user_lem rest (codes "exit") (skip_spaces-IsBytes line p) exit_bytes in
    elim (Bool-cases (length rest == 0)) [
      | inl empty ↦ is_empty (length-zero rest empty) (rw empty refl)
      | inr some_line ↦ elim (Bool-cases (strcmp_user rest (codes "exit") == 0)) [
        | inl same ↦ is_exit (exits.0 (ground arith)) (rw (some_line, same) (exit_line s))
        | inr other ↦
            is_command (λ e. ground (arith, ap length e)) (λ e. ground (arith, exits.1 e))
              (rw (some_line, other) (exec_line_lem line s))
      ]
    ]

handle_line-newline :
    (line : List ℕ) (s : System)
    → IsBytes line
    → handle_line (line ++ (10 ∷ [])) s ≡ handle_string line s
unfolding handle_line c_string drop_newline
handle_line-newline [] s p = refl
handle_line-newline (c ∷ line) s p =
    ap (λ l. handle_string (c_string l) s) (drop_newline_lem (c ∷ line))
    ∙ ap (λ l. handle_string l s) (c_string_lem (c ∷ line) p)

-- The system behind the prompt and the keys: debug messages are off, so `read` shows no message of its
-- own, and the line is echoed.
abbrev pub prompted : List ℕ → Keyboard → System → System
prompted line after s =
    record (emit (chars white_on_black (line ++ (10 ∷ [])))
      (emit (chars 0 []) (emit (chars 2 (codes "TenOS> ")) s))) { keyboard = after }

-- A round in which keys for a line of at most 254 characters are pressed and released, with Shift and
-- Caps Lock among them but no press of Enter, of Backspace or of a key whose character is `?`, and then
-- Enter is pressed, from a keyboard with nothing waiting and no line begun, debug messages being off,
-- if no character is 0 or above 255: behind the prompt the line and its newline are echoed in white;
-- a line of spaces alone ends the round; `exit` behind spaces stops the machine behind two farewells;
-- any other line is run by the kernel, and its result is not shown.
pub shell_round_lem :
    (scancodes rest : List ℕ) (s : System)
    → 1 ≤ s.current_level
    → IsValid s.keyboard
    → s.keyboard.read_pos ≡ s.keyboard.write_pos
    → s.keyboard.line_pos ≡ 0
    → are_plain s.keyboard.shift_pressed s.keyboard.caps_lock scancodes ≡ true
    → length (typed_chars s.keyboard.shift_pressed s.keyboard.caps_lock scancodes) < buffer_size - 1
    → IsBytes (typed_chars s.keyboard.shift_pressed s.keyboard.caps_lock scancodes)
    → (after : Keyboard) × (contents after ≡ [])
      × IsValid after
      × Handled
          (typed_chars s.keyboard.shift_pressed s.keyboard.caps_lock scancodes)
          (prompted (typed_chars s.keyboard.shift_pressed s.keyboard.caps_lock scancodes) after s)
          (shell_round (scancodes ++ (0x1C ∷ rest)) s)
unfolding shell_round
shell_round_lem scancodes rest s quiet v empty fresh plain room bytes =
    let line = typed_chars s.keyboard.shift_pressed s.keyboard.caps_lock scancodes in
    let prompt = emit (chars 2 (codes "TenOS> ")) s in
    let shown = dispatch-color_print 2 (codes "TenOS> ") s (omega arith) in
    elim (syscall_dispatcher-typed 0 0 255 (λ address. []) scancodes rest prompt quiet v empty fresh
      plain room (omega arith)) [
        | inl (other, _) ↦ absurd (other refl)
        | inr (_, (after, e, drained, valid)) ↦ (
          after,
          drained,
          valid,
          rw (shown, e, handle_line-newline line (prompted line after s) bytes)
              (handle_string-Handled line (prompted line after s) bytes),
        )
      ]
