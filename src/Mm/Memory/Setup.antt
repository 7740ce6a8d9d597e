-- ===== src/Mm/Memory/Setup.antt =====
-- `init_mem_mngr` and `init_memory_region`: what the bit array holds when the kernel has booted.
use native.Mathlib.Nat.{add-zero}
use ten_os.Mm.Memory.{
  Pmm, memory_block_size, mmap_set, mmap_unset, bytes_of, words_of, init_mem_mngr, unset_from,
  init_memory_region,
}
use ten_os.Mm.Memory.Bitmap.{used, used-mmap_set, used-mmap_unset}
use ten_os.Mm.Memory.Alloc.{IsValid}
use ten_os.Mm.Memory.Blocks.{in_run}
use ten_os.Util.{memset}
use ten_os.Util.Fill.{memset_lem}
use ten_os.Word.{u32, sub_u32}
use ten_os.Word.Bits.{bit, bit-div, bit-mod}
use ten_os.Prelude.{
  ℕ, zero, suc, ◌+◌, ◌*◌, ◌/◌, ◌%◌, ◌^◌, ◌≤◌, ◌<◌, ◌≡◌, refl, ap, ◌∙◌, sym, ltb, ◌==◌,
  if◌then◌else◌, arith,
}

used-unset_from :
    (n b : ℕ) (m : Pmm) (c : ℕ) → used (unset_from n b m) c ≡ (if in_run b n c then 0 else used m c)
unfolding unset_from
used-unset_from zero b m c = ground arith
used-unset_from (suc n) b m c = ground (arith, used-unset_from n (b + 1) (less b m) c, cleared)
  where
    less : ℕ → Pmm → Pmm
    less b m = record (mmap_unset m b) { used_blocks = sub_u32 (mmap_unset m b).used_blocks 1 }

    cleared : used (less b m) c ≡ (if b == c then 0 else used m c)
    cleared = unfold used in used-mmap_unset m b c

used_blocks-unset_from :
    (n b : ℕ) (m : Pmm)
    → m.used_blocks < 2 ^ 32
    → n < 2 ^ 32
    → ((unset_from n b m).used_blocks ≡ sub_u32 m.used_blocks n)
      × ((unset_from n b m).max_blocks ≡ m.max_blocks)
unfolding unset_from mmap_unset
used_blocks-unset_from zero b m h k = omega arith
used_blocks-unset_from (suc n) b m h k = omega (
  arith,
  used_blocks-unset_from n (b + 1)
      (record (mmap_unset m b) { used_blocks = sub_u32 m.used_blocks 1 }) (omega arith)
      (omega arith),
)

-- `init_memory_region` frees the blocks from that of `base` on, one more than `size` has, but
-- never block 0, and counts each of them down.
pub init_memory_region_lem :
    (m : Pmm) (base size : ℕ)
    → m.used_blocks < 2 ^ 32
    → size < 2 ^ 32
    → let m' = init_memory_region m base size in
      ((c : ℕ)
        → used m' c ≡ (
            if c == 0
            then 1
            else if in_run (base / memory_block_size) (size / memory_block_size + 1) c
            then 0
            else used m c))
      × (m'.used_blocks ≡ sub_u32 m.used_blocks (size / memory_block_size + 1))
      × (m'.max_blocks ≡ m.max_blocks)
unfolding init_memory_region
init_memory_region_lem m base size h k =
    let n = size / memory_block_size + 1 in
    let m₁ = unset_from n (base / memory_block_size) m in
    let counts = used_blocks-unset_from n (base / memory_block_size) m h (omega arith) in
    (
      λ c. ground (arith, used-mmap_set m₁ 0 c, used-unset_from n (base / memory_block_size) m c),
      unfold mmap_set in counts.0,
      unfold mmap_set in counts.1,
    )

-- The words that four bytes make up, byte by byte.
byte-words_of :
    (f : ℕ → ℕ) (i k : ℕ)
    → ((j : ℕ) → f j < 256)
    → k < 4
    → words_of f i / 2 ^ (8 * k) % 2 ^ 8 ≡ f (4 * i + k)
unfolding words_of
byte-words_of f i zero h q =
    rw add-zero (omega (arith, h (4 * i), h (4 * i + 1), h (4 * i + 2), h (4 * i + 3)))
byte-words_of f i (suc zero) h q =
    omega (arith, h (4 * i), h (4 * i + 1), h (4 * i + 2), h (4 * i + 3))
byte-words_of f i (suc (suc zero)) h q =
    omega (arith, h (4 * i), h (4 * i + 1), h (4 * i + 2), h (4 * i + 3))
byte-words_of f i (suc (suc (suc zero))) h q =
    omega (arith, h (4 * i), h (4 * i + 1), h (4 * i + 2), h (4 * i + 3))
byte-words_of f i (suc (suc (suc (suc k)))) h q = absurd (omega arith)

-- A bit of the words that bytes make up is one of its byte.
bit-words_of :
    (f : ℕ → ℕ)
    → ((j : ℕ) → f j < 256)
    → (b : ℕ) → bit (b % 32) (words_of f (b / 32)) ≡ bit (b % 8) (f (b / 8))
bit-words_of f h b =
    let k = b / 8 % 4 in
    let place : 8 * k + b % 8 ≡ b % 32 = omega arith in
    let byte : 4 * (b / 32) + k ≡ b / 8 = omega arith in
    let w = words_of f (b / 32) in
    let down : bit (b % 8) (w / 2 ^ (8 * k)) ≡ bit (b % 32) w =
      bit-div (8 * k) (b % 8) w ∙ ap (λ i. bit i w) place in
    let cut : bit (b % 8) (w / 2 ^ (8 * k) % 2 ^ 8) ≡ bit (b % 8) (w / 2 ^ (8 * k)) =
      bit-mod 8 (b % 8) _ (omega arith) in
    let same : w / 2 ^ (8 * k) % 2 ^ 8 ≡ f (b / 8) =
      byte-words_of f (b / 32) k h (omega arith) ∙ ap f byte in
    sym down ∙ sym cut ∙ ap (bit (b % 8)) same

bytes_of-lt : (w : ℕ → ℕ) (j : ℕ) → bytes_of w j < 256
unfolding bytes_of
bytes_of-lt w j = omega arith

byte_unit : (k : ℕ) → k < 4 → 256 ^ k ≡ 2 ^ (8 * k)
byte_unit zero h = refl
byte_unit (suc zero) h = refl
byte_unit (suc (suc zero)) h = refl
byte_unit (suc (suc (suc zero))) h = refl
byte_unit (suc (suc (suc (suc k)))) h = absurd (omega arith)

bit-bytes_of : (w : ℕ → ℕ) (b : ℕ) → bit (b % 8) (bytes_of w (b / 8)) ≡ bit (b % 32) (w (b / 32))
unfolding bytes_of
bit-bytes_of w b =
    let k = b / 8 % 4 in
    let place : 8 * k + b % 8 ≡ b % 32 = omega arith in
    let word : b / 8 / 4 ≡ b / 32 = omega arith in
    let x = w (b / 32) in
    rw (word, byte_unit k (omega arith))
      (bit-mod 8 (b % 8) (x / 2 ^ (8 * k)) (omega arith)
        ∙ bit-div (8 * k) (b % 8) x
        ∙ ap (λ i. bit i x) place)

-- The bytes 0x0f that `init_mem_mngr` fills in leave each byte's upper four blocks free.
bit_0x0f : (i : ℕ) → i < 8 → bit i 0xf ≡ (if ltb i 4 then 1 else 0)
unfolding bit
bit_0x0f zero h = refl
bit_0x0f (suc zero) h = refl
bit_0x0f (suc (suc zero)) h = refl
bit_0x0f (suc (suc (suc zero))) h = refl
bit_0x0f (suc (suc (suc (suc zero)))) h = refl
bit_0x0f (suc (suc (suc (suc (suc zero))))) h = refl
bit_0x0f (suc (suc (suc (suc (suc (suc zero)))))) h = refl
bit_0x0f (suc (suc (suc (suc (suc (suc (suc zero))))))) h = refl
bit_0x0f (suc (suc (suc (suc (suc (suc (suc (suc i)))))))) h = absurd (omega arith)

-- After `init_mem_mngr`, where the array's bytes are filled a block is used exactly if its number
-- modulo 8 is below 4, and behind them the memory is as before. The count of blocks is that of a
-- size in KB, wrapped at 2 ^ 32 bytes, and each block is counted as used.
pub init_mem_mngr_lem :
    (ram : ℕ → ℕ) (size : ℕ)
    → let m = init_mem_mngr ram size in
      ((b : ℕ)
        → used m b ≡ (
            if ltb b (m.max_blocks / 8 * 8)
            then (if ltb (b % 8) 4 then 1 else 0)
            else bit (b % 32) (ram (b / 32))))
      × (m.max_blocks ≡ size % 2 ^ 22 / 4)
      × (m.used_blocks ≡ m.max_blocks)
unfolding init_mem_mngr used
init_mem_mngr_lem ram size = (filled, omega arith, refl)
  where
    n : ℕ
    n = u32 (size * 1024) / memory_block_size / 8

    bytes : ℕ → ℕ
    bytes = memset (bytes_of ram) 0xf n

    small : (j : ℕ) → bytes j < 256
    small j = ground (arith, memset_lem (bytes_of ram) 0xf n j, bytes_of-lt ram j)

    filled :
        (b : ℕ)
        → bit (b % 32) (words_of bytes (b / 32)) ≡ (
            if ltb b (n * 8) then (if ltb (b % 8) 4 then 1 else 0) else bit (b % 32) (ram (b / 32)))
    filled b = ground (
      arith,
      bit-words_of bytes small b,
      memset_lem (bytes_of ram) 0xf n (b / 8),
      bit_0x0f (b % 8),
      bit-bytes_of ram b,
    )

-- The manager is valid then, if it has as many blocks as one byte of the array.
pub init_mem_mngr-IsValid :
    (ram : ℕ → ℕ) (size : ℕ) → 32 ≤ size % 2 ^ 22 → IsValid (init_mem_mngr ram size)
init_mem_mngr-IsValid ram size h =
    let l = init_mem_mngr_lem ram size in
    record {
      blocks = omega (arith, l.1);
      counter = omega (arith, l.1, l.2);
      null_used = ground (arith, l.0 0, l.1);
    }

-- Handing a region over keeps the manager valid.
pub init_memory_region-IsValid :
    (m : Pmm) (base size : ℕ) → size < 2 ^ 32 → IsValid m → IsValid (init_memory_region m base size)
init_memory_region-IsValid m base size h v =
    let l = init_memory_region_lem m base size v.counter h in
    record {
      blocks = omega (arith, l.2, v.blocks);
      counter = omega (arith, l.1);
      null_used = ground (arith, l.0 0);
    }
