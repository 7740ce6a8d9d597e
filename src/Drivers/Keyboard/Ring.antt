-- ===== src/Drivers/Keyboard/Ring.antt =====
-- The ring of committed bytes as a queue, oldest byte first.
use ten_os.Drivers.Keyboard.{Keyboard, buffer_size, newline, put, copy_line, commit_line}
use ten_os.Prelude.{
  ℕ, zero, suc, ◌+◌, ◌-◌, ◌%◌, ◌<◌, ◌≡◌, refl, ap, ap₂, sym, ◌∙◌, List, [], ◌∷◌, ◌++◌, length,
  get_or, set, length-set, get_or-set_self, get_or-set_ne, append-nil, append_assoc, arith,
}

-- The positions of the driver are indices of its buffers.
pub record IsValid (k : Keyboard) : Type 0 where
  pub input_size : length k.input_buffer ≡ buffer_size
  pub line_size : length k.line_buffer ≡ buffer_size
  pub read_in : k.read_pos < buffer_size
  pub write_in : k.write_pos < buffer_size
  pub line_in : k.line_pos < buffer_size

-- The `n` bytes of a ring from position `at` on.
abbrev pub queued : List ℕ → ℕ → ℕ → List ℕ
queued buf at zero = []
queued buf at (suc n) = get_or buf at 0 ∷ queued buf ((at + 1) % buffer_size) n

-- How many bytes wait, and which.
abbrev pub waiting : Keyboard → ℕ
waiting k = (k.write_pos + buffer_size - k.read_pos) % buffer_size

abbrev pub contents : Keyboard → List ℕ
contents k = queued k.input_buffer k.read_pos (waiting k)

-- A write just behind the queued bytes makes the queue longer by that byte.
queued-set :
    (buf : List ℕ) (n at i c : ℕ)
    → length buf ≡ buffer_size
    → at < buffer_size
    → n < buffer_size
    → i ≡ (at + n) % buffer_size
    → queued (set buf i c) at (suc n) ≡ queued buf at n ++ (c ∷ [])
queued-set buf zero at i c size p q e =
    let same : i ≡ at = omega arith in rw (same, get_or-set_self buf at c 0 (omega arith))
queued-set buf (suc n) at i c size p q e =
    ap₂ ◌∷◌ (get_or-set_ne buf i at c 0 (omega arith))
      (queued-set buf n ((at + 1) % buffer_size) i c size (omega arith) (omega arith) (omega arith))

-- One byte more, as long as there is room for it.
contents-put :
    (k : Keyboard) (c : ℕ)
    → IsValid k
    → waiting k + 1 < buffer_size
    → (contents (put k c) ≡ contents k ++ (c ∷ [])) × (waiting (put k c) ≡ waiting k + 1)
unfolding put
contents-put k c v h =
    let longer : waiting (put k c) ≡ suc (waiting k) = omega arith in
    (
      rw longer (
          queued-set k.input_buffer (waiting k) k.read_pos k.write_pos c v.input_size v.read_in
            (omega arith) (omega arith)),
      omega arith,
    )

put-IsValid : (k : Keyboard) (c : ℕ) → IsValid k → IsValid (put k c)
unfolding put
put-IsValid k c v = record {
  input_size = length-set k.input_buffer k.write_pos c ∙ v.input_size;
  line_size = v.line_size;
  read_in = v.read_in;
  write_in = omega arith;
  line_in = v.line_in;
}

-- The `n` bytes of a buffer from index `i` on.
abbrev pub slice : List ℕ → ℕ → ℕ → List ℕ
slice buf i zero = []
slice buf i (suc n) = get_or buf i 0 ∷ slice buf (i + 1) n

line-put : (k : Keyboard) (c : ℕ) → (put k c).line_buffer ≡ k.line_buffer
unfolding put
line-put k c = refl

waiting-put : (k : Keyboard) (c : ℕ) → IsValid k → waiting (put k c) ≡ (waiting k + 1) % buffer_size
unfolding put
waiting-put k c v = omega arith

-- What copying `left` bytes of the line does.
record Copied (left i : ℕ) (k out : Keyboard) : Type 0 where
  pub valid : IsValid out
  pub count : waiting out ≡ (waiting k + left) % buffer_size
  pub line : out.line_buffer ≡ k.line_buffer
  pub bytes :
      waiting k + left < buffer_size → contents out ≡ contents k ++ slice k.line_buffer i left

copy_line-Copied : (left i : ℕ) (k : Keyboard) → IsValid k → Copied left i k (copy_line left i k)
unfolding copy_line
copy_line-Copied zero i k v = record {
  valid = v;
  count = omega arith;
  line = refl;
  bytes = λ h. sym (append-nil (contents k));
}
copy_line-Copied (suc left) i k v =
    let c = get_or k.line_buffer i 0 in
    let ih = copy_line-Copied left (i + 1) (put k c) (put-IsValid k c v) in
    let moved = waiting-put k c v in
    record {
      valid = ih.valid;
      count = omega (arith, ih.count, moved);
      line = ih.line ∙ line-put k c;
      bytes = λ h.
          let one = contents-put k c v (omega arith) in
          ih.bytes (omega (arith, moved))
          ∙ rw (one.0, line-put k c) (append_assoc (contents k) (c ∷ []) _);
    }

-- `commit_line` appends the edited line and a newline to what waits, if fewer than 256 bytes wait
-- then.
pub commit_line_appends :
    (k : Keyboard)
    → IsValid k
    → waiting k + k.line_pos + 1 < buffer_size
    → contents (commit_line k) ≡ contents k ++ (slice k.line_buffer 0 k.line_pos ++ (newline ∷ []))
unfolding commit_line
commit_line_appends k v h =
    let copied = copy_line-Copied k.line_pos 0 k v in
    let last =
      contents-put (copy_line k.line_pos 0 k) newline copied.valid (omega (arith, copied.count)) in
    last.0
    ∙ ap (λ xs. xs ++ (newline ∷ [])) (copied.bytes (omega arith))
    ∙ append_assoc (contents k) (slice k.line_buffer 0 k.line_pos) (newline ∷ [])

-- If the line and its newline bring the waiting bytes to exactly 256, nothing waits after
-- `commit_line`: all of them are lost.
pub commit_line_overflow :
    (k : Keyboard)
    → IsValid k
    → waiting k + k.line_pos + 1 ≡ buffer_size
    → contents (commit_line k) ≡ []
unfolding commit_line
commit_line_overflow k v h =
    let copied = copy_line-Copied k.line_pos 0 k v in
    let none_left : waiting (put (copy_line k.line_pos 0 k) newline) ≡ 0 =
      omega (arith, copied.count, waiting-put (copy_line k.line_pos 0 k) newline copied.valid) in
    rw none_left refl

pub commit_line-IsValid : (k : Keyboard) → IsValid k → IsValid (commit_line k)
unfolding commit_line
commit_line-IsValid k v =
    let v' = put-IsValid _ newline (copy_line-Copied k.line_pos 0 k v).valid in
    record {
      input_size = v'.input_size;
      line_size = v'.line_size;
      read_in = v'.read_in;
      write_in = v'.write_in;
      line_in = omega arith;
    }
