-- ===== src/Drivers/Ata/Transfer.antt =====
-- The words of one sector on the data port, and the bytes of the buffer they fill.
use ten_os.Drivers.Ata.{ata_primary_io, read_words, write_words}
use ten_os.Prelude.{
  ℕ, zero, suc, ◌+◌, ◌*◌, ◌/◌, ◌%◌, ◌≤◌, ◌<◌, ◌≡◌, refl, ap, ◌∙◌, List, [], ◌∷◌, ◌++◌, some, ◌==◌,
  if◌then◌else◌, update, length, arith,
}

-- The bytes of a list of words, the low one of each first.
abbrev pub byte_at : List ℕ → ℕ → ℕ
byte_at [] j = 0
byte_at (w ∷ ws) zero = w % 256
byte_at (w ∷ ws) (suc zero) = w / 256 % 256
byte_at (w ∷ ws) (suc (suc j)) = byte_at ws j

-- The buffer with the words written from the word `i` on.
abbrev pub fill_words : ℕ → List ℕ → (ℕ → ℕ) → ℕ → ℕ
fill_words i [] buffer = buffer
fill_words i (w ∷ ws) buffer =
    fill_words (i + 1) ws (update (update buffer (2 * i) (w % 256)) (2 * i + 1) (w / 256 % 256))

-- The values that a list of writes sends to the data port.
abbrev pub data_words : List (ℕ × ℕ) → List ℕ
data_words [] = []
data_words ((port, value) ∷ writes) =
    if port == ata_primary_io then value ∷ data_words writes else data_words writes

pub read_words_lem :
    (ws : List ℕ) (i : ℕ) (later : List ℕ) (buffer : ℕ → ℕ)
    → read_words (length ws) i (ws ++ later) buffer ≡ some (fill_words i ws buffer, later)
unfolding read_words
read_words_lem [] i later buffer = refl
read_words_lem (w ∷ ws) i later buffer = read_words_lem ws (i + 1) later _

pub fill_words-below :
    (ws : List ℕ) (i j : ℕ) (buffer : ℕ → ℕ) → j < 2 * i → fill_words i ws buffer j ≡ buffer j
fill_words-below [] i j buffer h = refl
fill_words-below (w ∷ ws) i j buffer h =
    fill_words-below ws (i + 1) j _ (omega arith) ∙ ground arith

pub fill_words-within :
    (ws : List ℕ) (i j : ℕ) (buffer : ℕ → ℕ)
    → j < 2 * length ws
    → fill_words i ws buffer (2 * i + j) ≡ byte_at ws j
fill_words-within [] i j buffer h = absurd (omega arith)
fill_words-within (w ∷ ws) i zero buffer h =
    fill_words-below ws (i + 1) (2 * i + 0) _ (omega arith) ∙ ground arith
fill_words-within (w ∷ ws) i (suc zero) buffer h =
    fill_words-below ws (i + 1) (2 * i + 1) _ (omega arith) ∙ ground arith
fill_words-within (w ∷ ws) i (suc (suc j)) buffer h =
    let at : 2 * i + suc (suc j) ≡ 2 * (i + 1) + j = omega arith in
    rw at (fill_words-within ws (i + 1) j _ (omega arith))

pub fill_words-above :
    (ws : List ℕ) (i j : ℕ) (buffer : ℕ → ℕ)
    → 2 * i + 2 * length ws ≤ j
    → fill_words i ws buffer j ≡ buffer j
fill_words-above [] i j buffer h = refl
fill_words-above (w ∷ ws) i j buffer h =
    fill_words-above ws (i + 1) j _ (omega arith) ∙ ground arith

-- The words that a write of a buffer sends.
abbrev pub sent_words : ℕ → ℕ → (ℕ → ℕ) → List ℕ
sent_words zero i buffer = []
sent_words (suc left) i buffer =
    (buffer (2 * i) + 256 * buffer (2 * i + 1)) ∷ sent_words left (i + 1) buffer

pub length-sent_words : (left i : ℕ) (buffer : ℕ → ℕ) → length (sent_words left i buffer) ≡ left
length-sent_words zero i buffer = refl
length-sent_words (suc left) i buffer = ap suc (length-sent_words left (i + 1) buffer)

pub data_words-write_words :
    (left i : ℕ) (buffer : ℕ → ℕ) (rest : List (ℕ × ℕ))
    → data_words (write_words left i buffer ++ rest) ≡ sent_words left i buffer ++ data_words rest
unfolding write_words
data_words-write_words zero i buffer rest = refl
data_words-write_words (suc left) i buffer rest =
    ap (λ ws. (buffer (2 * i) + 256 * buffer (2 * i + 1)) ∷ ws)
      (data_words-write_words left (i + 1) buffer rest)

pub byte_at-sent_words :
    (left i j : ℕ) (buffer : ℕ → ℕ)
    → ((k : ℕ) → buffer k < 256)
    → j < 2 * left
    → byte_at (sent_words left i buffer) j ≡ buffer (2 * i + j)
byte_at-sent_words zero i j buffer small h = absurd (omega arith)
byte_at-sent_words (suc left) i zero buffer small h =
    let e : 2 * i + 0 ≡ 2 * i = omega arith in
    rw e (omega (arith, small (2 * i), small (2 * i + 1)))
byte_at-sent_words (suc left) i (suc zero) buffer small h =
    omega (arith, small (2 * i), small (2 * i + 1))
byte_at-sent_words (suc left) i (suc (suc j)) buffer small h =
    let at : 2 * i + suc (suc j) ≡ 2 * (i + 1) + j = omega arith in
    rw at (byte_at-sent_words left (i + 1) j buffer small (omega arith))
