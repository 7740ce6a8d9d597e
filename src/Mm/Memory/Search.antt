-- ===== src/Mm/Memory/Search.antt =====
-- The searches of mm/memory.c find the lowest block that fits.
use ten_os.Mm.Memory.{Pmm, scan_bits, scan_words, mmap_first_free, room, mmap_first_free_s}
use ten_os.Mm.Memory.Bitmap.{used, bit_and-eq-zero, mmap_test-eq-zero}
use ten_os.Word.{◌<<<◌}
use ten_os.Word.Bits.{bit-not, bit-zero}
use mathlib.Core.Path.{subst}
use ten_os.Prelude.Least.{IsLeast, IsLeast-skip, IsLeast-ext, IsLeast-or}
use ten_os.Prelude.{
  ne→==-false, ℕ, zero, suc, ◌+◌, ◌*◌, ◌/◌, ◌%◌, ◌≤◌, ◌<◌, bit_and, ◌≡◌, refl, ap, Bool, true,
  false, ◌&&◌, leb, ◌==◌, if◌then◌else◌, Bool-cases, ==_iff, inl, inr, arith,
}

module _ (m : Pmm) (accept : ℕ → Bool) where
  -- A clear bit that is accepted.
  abbrev pub fits : ℕ → Bool
  fits b = used m b == 0 && accept b

  fits-at :
      (i j : ℕ)
      → j < 32
      → (bit_and (m.mem_mngr i) (1 <<< j) == 0 && accept (i * 32 + j)) ≡ fits (i * 32 + j)
  fits-at i j h =
      let word : (i * 32 + j) / 32 ≡ i = omega arith in
      let place : (i * 32 + j) % 32 ≡ j = omega arith in
      let e : (bit_and (m.mem_mngr ((i * 32 + j) / 32)) (1 <<< ((i * 32 + j) % 32)) == 0)
          ≡ (used m (i * 32 + j) == 0) =
        bit_and-eq-zero m (i * 32 + j) in
      ap (λ t. t && accept (i * 32 + j)) (rw (word, place) at e)

  scan_bits-IsLeast :
      (left i j : ℕ)
      → j + left ≡ 32
      → IsLeast fits (i * 32 + j) (i * 32 + 32) (scan_bits m accept left i j)
  unfolding scan_bits
  scan_bits-IsLeast zero i j h = λ b p q. absurd (omega arith)
  scan_bits-IsLeast (suc left) i j h = elim (Bool-cases (fits (i * 32 + j))) [
    | inl found ↦
        rw (fits-at i j (omega arith), found)
          (omega arith, omega arith, found, λ b p q. absurd (omega arith))
    | inr other ↦
        rw (fits-at i j (omega arith), other)
          (IsLeast-skip fits (i * 32 + j) (i * 32 + (j + 1)) (i * 32 + 32)
            (scan_bits m accept left i (j + 1)) (omega arith)
            (λ b p q. let e : b ≡ i * 32 + j = omega arith in rw e other)
            (scan_bits-IsLeast left i (j + 1) (omega arith)))
  ]

  full_word : (i b : ℕ) → m.mem_mngr i ≡ 0xffffffff → i * 32 ≤ b → b < (i + 1) * 32 → fits b ≡ false
  unfolding used
  full_word i b e p q =
      let at : b / 32 ≡ i = omega arith in
      rw (at, e, bit-not (b % 32) 32 0 (omega arith) (omega arith), bit-zero) refl

  word : (i : ℕ) → IsLeast fits (i * 32) ((i + 1) * 32) (scan_bits m accept 32 i 0)
  word i =
      let lo : i * 32 + 0 ≡ i * 32 = omega arith in
      let hi : i * 32 + 32 ≡ (i + 1) * 32 = omega arith in
      rw (← lo, ← hi) (scan_bits-IsLeast 32 i 0 (omega arith))

  pub scan_words-IsLeast :
      (left i : ℕ) → IsLeast fits (i * 32) ((i + left) * 32) (scan_words m accept left i)
  unfolding scan_words
  scan_words-IsLeast zero i = λ b p q. absurd (omega arith)
  scan_words-IsLeast (suc left) i =
      let e : (i + suc left) * 32 ≡ (i + 1 + left) * 32 = omega arith in
      let rest = scan_words-IsLeast left (i + 1) in
      rw e (elim (Bool-cases (m.mem_mngr i == 0xffffffff)) [
        | inl full ↦ rw full (
            IsLeast-skip fits (i * 32) ((i + 1) * 32) ((i + 1 + left) * 32)
              (scan_words m accept left (i + 1)) (omega arith)
              (λ b. full_word i b ((==_iff _ _).0 full)) rest)
        | inr part ↦ rw part (
            IsLeast-or fits (i * 32) ((i + 1) * 32) ((i + 1 + left) * 32)
              (scan_bits m accept 32 i 0) (scan_words m accept left (i + 1)) (omega arith)
              (omega arith) (word i) rest)
      ])

  from_first_word : (n : ℕ) → IsLeast fits 0 (n * 32) (scan_words m accept n 0)
  from_first_word n =
      let e : 0 + n ≡ n = omega arith in
      subst (λ t. IsLeast fits 0 (t * 32) (scan_words m accept n 0)) e (scan_words-IsLeast n 0)

-- The blocks that the searches look at: those of the whole words of the array.
abbrev pub searched : Pmm → ℕ
searched m = m.max_blocks / 32 * 32

abbrev pub free_block : Pmm → ℕ → Bool
free_block m b = used m b == 0

-- `mmap_first_free` returns the lowest block that is marked free, and -1 exactly when each of
-- the searched blocks is used.
pub mmap_first_free_lem : (m : Pmm) → IsLeast (free_block m) 0 (searched m) (mmap_first_free m)
unfolding mmap_first_free
mmap_first_free_lem m =
    IsLeast-ext (fits m (λ _. true)) (free_block m) 0 (searched m) (mmap_first_free m)
      (λ b. ground arith) (from_first_word m (λ _. true) (m.max_blocks / 32))

-- How many of the `n` blocks from `at` on are free.
abbrev pub free_in : Pmm → ℕ → ℕ → ℕ
free_in m zero at = 0
free_in m (suc n) at = (if used m at == 0 then 1 else 0) + free_in m n (at + 1)

-- The inner loop asks for `size` free blocks among those that it visits.
room_lem :
    (m : Pmm) (size left at free : ℕ)
    → free < size
    → room m size left at free ≡ leb size (free + free_in m left at)
unfolding room
room_lem m size zero at free h = ground arith
room_lem m size (suc left) at free h = ground (
  arith,
  mmap_test-eq-zero m at,
  room_lem m size left (at + 1) free,
  room_lem m size left (at + 1) (free + 1),
)

-- What `mmap_first_free_s` accepts: a free block, with `size` free ones among `size + 1` from it on.
abbrev pub roomy : Pmm → ℕ → ℕ → Bool
roomy m size b = used m b == 0 && leb size (free_in m (size + 1) b)

-- For a size of at least 1, `mmap_first_free_s` returns the lowest free block from which `size`
-- of the next `size + 1` blocks, itself included, are free, and -1 exactly when no searched
-- block is such.
pub mmap_first_free_s_lem :
    (m : Pmm) (size : ℕ)
    → 0 < size
    → IsLeast (roomy m size) 0 (searched m) (mmap_first_free_s m size)
unfolding mmap_first_free_s
mmap_first_free_s_lem m size h = elim (Bool-cases (size == 1)) [
  | inl one ↦
      let e : size ≡ 1 = omega (arith, (==_iff size 1).0 one) in
      rw e (
        IsLeast-ext (free_block m) (roomy m 1) 0 (searched m) (mmap_first_free m)
          (λ b. ground arith) (mmap_first_free_lem m))
  | inr more ↦
      rw (ne→==-false size 0 (omega arith), more)
        (IsLeast-ext (fits m (λ b. room m size (size + 1) b 0)) (roomy m size) 0 (searched m)
          (scan_words m (λ b. room m size (size + 1) b 0) (m.max_blocks / 32) 0)
          (λ b. ground (arith, room_lem m size (size + 1) b 0))
          (from_first_word m (λ b. room m size (size + 1) b 0) (m.max_blocks / 32)))
]
