-- ===== src/Drivers/Keyboard.antt =====
-- drivers/keyboard.c: scan codes to characters, lines that are edited before they are committed,
-- and the ring of committed bytes that the read system call empties. A bool is a C int that is
-- only tested. Characters are their codes; `char` is signed, and none here is above 127.
pub mod Layout
pub mod Ring
pub mod Lines
pub mod Keys
pub mod Reading
pub mod Typing
mod Tests
use ten_os.Prelude.{
  ℕ, zero, suc, ◌+◌, ◌-◌, ◌%◌, bit_and, Bool, true, false, not, ◌&&◌, ◌||◌, List, [], ◌∷◌, ◌++◌,
  Option, none, some, ltb, leb, ◌==◌, if◌then◌else◌, get_or, set,
}

abbrev pub buffer_size : ℕ
buffer_size = 256

abbrev pub backspace : ℕ
backspace = 8

abbrev pub newline : ℕ
newline = 10

abbrev pub sc_ascii : List ℕ
sc_ascii =
    b'?' ∷ b'?' ∷ b'1' ∷ b'2' ∷ b'3' ∷ b'4' ∷ b'5' ∷ b'6' ∷ b'7' ∷ b'8' ∷ b'9' ∷ b'0' ∷ b'-' ∷ b'='
    ∷ 8 ∷ 9 ∷ b'q' ∷ b'w' ∷ b'e' ∷ b'r' ∷ b't' ∷ b'y' ∷ b'u' ∷ b'i' ∷ b'o' ∷ b'p' ∷ b'[' ∷ b']' ∷ 10
    ∷ b'?' ∷ b'a' ∷ b's' ∷ b'd' ∷ b'f' ∷ b'g' ∷ b'h' ∷ b'j' ∷ b'k' ∷ b'l' ∷ b';' ∷ 39 ∷ b'`' ∷ b'?'
    ∷ 92 ∷ b'z' ∷ b'x' ∷ b'c' ∷ b'v' ∷ b'b' ∷ b'n' ∷ b'm' ∷ b',' ∷ b'.' ∷ b'/' ∷ b'?' ∷ b'*' ∷ b'?'
    ∷ 32 ∷ b'?' ∷ b'?' ∷ b'?' ∷ b'?' ∷ b'?' ∷ b'?' ∷ b'?' ∷ b'?' ∷ b'?' ∷ b'?' ∷ b'?' ∷ b'?' ∷ b'?'
    ∷ b'7' ∷ b'8' ∷ b'9' ∷ b'-' ∷ b'4' ∷ b'5' ∷ b'6' ∷ b'+' ∷ b'1' ∷ b'2' ∷ b'3' ∷ b'0' ∷ b'.'
    ∷ b'?' ∷ b'?' ∷ b'?' ∷ b'?' ∷ b'?' ∷ []

abbrev pub sc_ascii_shift : List ℕ
sc_ascii_shift =
    b'?' ∷ b'?' ∷ b'!' ∷ b'@' ∷ b'#' ∷ b'$' ∷ b'%' ∷ b'^' ∷ b'&' ∷ b'*' ∷ b'(' ∷ b')' ∷ b'_' ∷ b'+'
    ∷ 8 ∷ 9 ∷ b'Q' ∷ b'W' ∷ b'E' ∷ b'R' ∷ b'T' ∷ b'Y' ∷ b'U' ∷ b'I' ∷ b'O' ∷ b'P' ∷ b'{' ∷ b'}' ∷ 10
    ∷ b'?' ∷ b'A' ∷ b'S' ∷ b'D' ∷ b'F' ∷ b'G' ∷ b'H' ∷ b'J' ∷ b'K' ∷ b'L' ∷ b':' ∷ b'"' ∷ b'~'
    ∷ b'?' ∷ b'|' ∷ b'Z' ∷ b'X' ∷ b'C' ∷ b'V' ∷ b'B' ∷ b'N' ∷ b'M' ∷ b'<' ∷ b'>' ∷ b'?' ∷ b'?'
    ∷ b'*' ∷ b'?' ∷ 32 ∷ b'?' ∷ b'?' ∷ b'?' ∷ b'?' ∷ b'?' ∷ b'?' ∷ b'?' ∷ b'?' ∷ b'?' ∷ b'?' ∷ b'?'
    ∷ b'?' ∷ b'?' ∷ b'7' ∷ b'8' ∷ b'9' ∷ b'-' ∷ b'4' ∷ b'5' ∷ b'6' ∷ b'+' ∷ b'1' ∷ b'2' ∷ b'3'
    ∷ b'0' ∷ b'.' ∷ b'?' ∷ b'?' ∷ b'?' ∷ b'?' ∷ b'?' ∷ []

-- The static variables of the driver.
pub record Keyboard : Type 0 where
  pub input_buffer : List ℕ
  pub read_pos : ℕ
  pub write_pos : ℕ
  pub line_buffer : List ℕ
  pub line_pos : ℕ
  pub shift_pressed : Bool
  pub ctrl_pressed : Bool
  pub alt_pressed : Bool
  pub caps_lock : Bool

unfoldable pub scancode_to_ascii : ℕ → Bool → Bool → ℕ
scancode_to_ascii scancode shift caps_lock =
    if leb 0x59 scancode
    then b'?'
    else let c = if shift then get_or sc_ascii_shift scancode 0 else get_or sc_ascii scancode 0 in
      if caps_lock && leb b'a' c && leb c b'z'
      then (if shift then c else c - 32)
      else if caps_lock && leb b'A' c && leb c b'Z'
      then (if shift then c + 32 else c)
      else c

-- `input_buffer[write_pos] = c; write_pos = (write_pos + 1) % BUFFER_SIZE;`
pub put : Keyboard → ℕ → Keyboard
put k c = record k {
  input_buffer = set k.input_buffer k.write_pos c;
  write_pos = (k.write_pos + 1) % buffer_size;
}

-- The loop of `commit_line`, from index `i` on with the rounds that are left.
pub copy_line : ℕ → ℕ → Keyboard → Keyboard
copy_line zero i k = k
copy_line (suc left) i k = copy_line left (i + 1) (put k (get_or k.line_buffer i 0))

pub commit_line : Keyboard → Keyboard
commit_line k = record (put (copy_line k.line_pos 0 k) newline) { line_pos = 0 }

-- What a character of a key does, and what is echoed.
pub accept_char : Keyboard → ℕ → Keyboard × List ℕ
accept_char k c =
    if c == newline
    then (commit_line k, newline ∷ [])
    else if c == backspace
    then (if ltb 0 k.line_pos
        then (record k { line_pos = k.line_pos - 1 }, backspace ∷ [])
        else (k, []))
    else if c == b'?'
    then (k, [])
    else (if ltb k.line_pos (buffer_size - 1)
        then (
          record k { line_buffer = set k.line_buffer k.line_pos c; line_pos = k.line_pos + 1 },
          c ∷ [],
        )
        else (k, []))

-- `byte` is what port 0x60 gives.
pub keyboard_callback : Keyboard → ℕ → Keyboard × List ℕ
keyboard_callback k byte =
    let pressed = bit_and byte 0x80 == 0 in
    let scancode = bit_and byte 0x7F in
    if scancode == 0x2A || scancode == 0x36
    then (record k { shift_pressed = pressed }, [])
    else if scancode == 0x1D
    then (record k { ctrl_pressed = pressed }, [])
    else if scancode == 0x38
    then (record k { alt_pressed = pressed }, [])
    else if scancode == 0x3A && pressed
    then (record k { caps_lock = not k.caps_lock }, [])
    else if not pressed
    then (k, [])
    else accept_char k (scancode_to_ascii scancode k.shift_pressed k.caps_lock)

-- The loop of `has_complete_line` on fuel; none when that runs out.
pub line_from : ℕ → ℕ → Keyboard → Option Bool
line_from zero pos k = none
line_from (suc fuel) pos k =
    let rest = line_from fuel ((pos + 1) % buffer_size) k in
    if pos == k.write_pos
    then some false
    else if get_or k.input_buffer pos 0 == newline
    then some true
    else rest

pub has_complete_line : Keyboard → Option Bool
unfolding line_from
has_complete_line k = line_from buffer_size k.read_pos k

-- The second loop of `keyboard_read`, with the bytes that `user_buf` still has room for.
pub read_bytes : ℕ → Keyboard → List ℕ × Keyboard
read_bytes zero k = ([], k)
read_bytes (suc room) k =
    let c = get_or k.input_buffer k.read_pos 0 in
    let k' = record k { read_pos = (k.read_pos + 1) % buffer_size } in
    let rest = read_bytes room k' in
    if k.read_pos == k.write_pos
    then ([], k)
    else if c == newline
    then (c ∷ [], k')
    else (c ∷ rest.0, rest.1)

-- What a handler echoes while `keyboard_read` waits stands in front of what follows.
abbrev pub echoing :
    List ℕ
    → Option (List ℕ × Keyboard × List ℕ × List ℕ)
    → Option (List ℕ × Keyboard × List ℕ × List ℕ)
echoing echo none = none
echoing echo (some (bytes, k, codes, later)) = some (bytes, k, codes, echo ++ later)

-- `keyboard_read` with the scan codes that arrive while it waits: the bytes for `user_buf`, the
-- new state, the codes that are left, and what the handler echoes for the others; none if it waits
-- on.
pub keyboard_read : List ℕ → Keyboard → ℕ → Option (List ℕ × Keyboard × List ℕ × List ℕ)
keyboard_read [] k count = elim (has_complete_line k) [
  | some true ↦ some ((read_bytes count k).0, (read_bytes count k).1, [], [])
  | _ ↦ none
]
keyboard_read (byte ∷ codes) k count = elim (has_complete_line k) [
  | some true ↦ some ((read_bytes count k).0, (read_bytes count k).1, byte ∷ codes, [])
  | _ ↦
      echoing (keyboard_callback k byte).1 (keyboard_read codes (keyboard_callback k byte).0 count)
]
