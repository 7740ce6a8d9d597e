-- ===== src/Mm/Memory/Bitmap.antt =====
-- The bit array of mm/memory.c, block by block.
use ten_os.Mm.Memory.{Pmm, mmap_set, mmap_unset, mmap_test}
use ten_os.Word.{◌<<<◌}
use ten_os.Word.Bits.{
  bit, bit-le-one, bit-bit_or, bit-bit_and, bit-pow, bit-not, bit_and-pow, pow-lt-32,
}
use native.Mathlib.Nat.{one-le-pow}
use ten_os.Prelude.{ℕ, ◌-◌, ◌/◌, ◌%◌, ◌^◌, ◌≤◌, bit_and, ◌≡◌, ◌==◌, if◌then◌else◌, arith}

-- 1 if the array marks block `b` as used, else 0.
unfoldable pub used : Pmm → ℕ → ℕ
used m b = bit (b % 32) (m.mem_mngr (b / 32))

pub used-le-one : (m : Pmm) (b : ℕ) → used m b ≤ 1
unfolding used
used-le-one m b = bit-le-one (b % 32) (m.mem_mngr (b / 32))

-- The tests of the source on a word, read as tests of a block.
pub bit_and-eq-zero :
    (m : Pmm) (b : ℕ) → ((bit_and (m.mem_mngr (b / 32)) (1 <<< (b % 32)) == 0) ≡ (used m b == 0))
unfolding used
bit_and-eq-zero m b = ground (
  arith,
  bit_and-pow (b % 32) (m.mem_mngr (b / 32)),
  bit-le-one (b % 32) (m.mem_mngr (b / 32)),
  one-le-pow (b % 32) 2,
)

pub mmap_test-eq-zero : (m : Pmm) (b : ℕ) → (mmap_test m b == 0) ≡ (used m b == 0)
unfolding mmap_test
mmap_test-eq-zero m b = bit_and-eq-zero m b

-- `mmap_set` marks its block and no other.
pub used-mmap_set : (m : Pmm) (b c : ℕ) → used (mmap_set m b) c ≡ (if b == c then 1 else used m c)
unfolding used mmap_set
used-mmap_set m b c = ground (
  arith,
  bit-bit_or (c % 32) (m.mem_mngr (b / 32)) (1 <<< (b % 32)),
  bit-pow (c % 32) (b % 32),
  bit-le-one (c % 32) (m.mem_mngr (b / 32)),
)

-- `mmap_unset` clears its block and no other.
pub used-mmap_unset :
    (m : Pmm) (b c : ℕ) → used (mmap_unset m b) c ≡ (if b == c then 0 else used m c)
unfolding used mmap_unset
used-mmap_unset m b c = ground (
  arith,
  bit-bit_and (c % 32) (m.mem_mngr (b / 32)) (2 ^ 32 - 1 - 1 <<< (b % 32)),
  bit-not (c % 32) 32 (1 <<< (b % 32)),
  pow-lt-32 (b % 32),
  bit-pow (c % 32) (b % 32),
  bit-le-one (c % 32) (m.mem_mngr (b / 32)),
)
