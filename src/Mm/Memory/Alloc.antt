-- ===== src/Mm/Memory/Alloc.antt =====
-- `alloc_memory_block` and `free_memory_block`.
use ten_os.Mm.Memory.{
  Pmm, memory_block_size, mmap_set, mmap_unset, mmap_first_free, alloc_memory_block,
  free_memory_block, get_free_block_count,
}
use ten_os.Mm.Memory.Bitmap.{used, used-le-one, used-mmap_set, used-mmap_unset}
use ten_os.Mm.Memory.Search.{free_block, searched, mmap_first_free_lem}
use ten_os.Word.{u32}
use mathlib.Core.Path.{subst}
use ten_os.Prelude.Least.{IsLeast}
use ten_os.Prelude.{
  ℕ, ◌+◌, ◌*◌, ◌/◌, ◌^◌, ◌≤◌, ◌<◌, ◌≡◌, refl, ap, ◌≢◌, ◌⊎◌, some, leb, ◌==◌, if◌then◌else◌,
  Bool-cases, Option-cases, inl, inr, arith,
}

-- A 32-bit machine has at most 2 ^ 20 blocks, and block 0, whose address is the null pointer,
-- is never free.
pub record IsValid (m : Pmm) : Type 0 where
  pub blocks : m.max_blocks ≤ 2 ^ 20
  pub counter : m.used_blocks < 2 ^ 32
  pub null_used : used m 0 ≡ 1

-- What `alloc_memory_block` does to `m` when it hands out the block `f`.
pub record Takes (m : Pmm) (f : ℕ) (out : ℕ × Pmm) : Type 0 where
  pub address : out.0 ≡ f * memory_block_size
  pub not_null : 0 < f
  pub in_range : f < m.max_blocks
  pub was_free : used m f ≡ 0
  pub lowest : (c : ℕ) → c < f → used m c ≡ 1
  pub marks : (c : ℕ) → used out.1 c ≡ (if f == c then 1 else used m c)
  pub counts : out.1.used_blocks ≡ u32 (m.used_blocks + 1)
  pub same_blocks : out.1.max_blocks ≡ m.max_blocks

-- The state of an allocator that has nothing to give.
abbrev pub Exhausted : Pmm → Type 0
Exhausted m = (get_free_block_count m ≡ 0) ⊎ ((b : ℕ) → b < searched m → used m b ≡ 1)

found-Takes :
    {m : Pmm} (f : ℕ)
    → IsValid m
    → IsLeast (free_block m) 0 (searched m) (some f)
    → Takes m f (
      u32 (f * memory_block_size),
      record (mmap_set m f) { used_blocks = u32 (m.used_blocks + 1) },
    )
found-Takes {m} f v least = record {
  address = omega arith;
  not_null = ground (arith, f-ne-zero);
  in_range = omega arith;
  was_free = ground (arith, used-le-one m f);
  lowest = λ c h. ground (arith, least.3 c, used-le-one m c);
  marks = unfold used in used-mmap_set m f;
  counts = refl;
  same_blocks = unfold mmap_set in refl;
}
  where
    f-ne-zero : f ≢ 0
    f-ne-zero e = ground (arith, ap (used m) e)

-- Either the allocator is exhausted, the null pointer comes back and nothing changes; or the
-- lowest free block comes back, is marked as used and counted, and no other block is touched.
pub alloc_memory_block_lem :
    (m : Pmm)
    → IsValid m
    → (Exhausted m × (alloc_memory_block m ≡ (0, m)))
      ⊎ ((f : ℕ) × (get_free_block_count m ≢ 0) × Takes m f (alloc_memory_block m))
unfolding alloc_memory_block
alloc_memory_block_lem m v = elim (Bool-cases (leb (get_free_block_count m) 0)) [
  | inl no_count ↦ inl (inl (ground arith), rw no_count)
  | inr more ↦ elim (Option-cases (mmap_first_free m)) [
    | inl full ↦ inl (
      inr (λ b h. ground (
        arith,
        used-le-one m b,
        subst (IsLeast (free_block m) 0 (searched m)) full (mmap_first_free_lem m) b,
      )),
      rw (more, full),
    )
    | inr (f, found) ↦
        inr (
          f,
          ground arith,
          rw (more, found) (found-Takes f v (rw found at (mmap_first_free_lem m))),
        )
  ]
]

-- An address other than the null pointer is that of a block taken.
pub taken :
    (m : Pmm)
    → IsValid m
    → (alloc_memory_block m).0 ≢ 0
    → (f : ℕ) × Takes m f (alloc_memory_block m)
taken m v h = elim (alloc_memory_block_lem m v) [
  | inl (_, same) ↦ absurd (h (ap (λ (r : ℕ × Pmm). r.0) same))
  | inr (f, _, t) ↦ (f, t)
]

-- Allocating keeps the allocator valid.
pub alloc_memory_block-IsValid : (m : Pmm) → IsValid m → IsValid (alloc_memory_block m).1
alloc_memory_block-IsValid m v = elim (alloc_memory_block_lem m v) [
  | inl (_, same) ↦ rw same v
  | inr (f, _, t) ↦ record {
    blocks = omega (arith, t.same_blocks);
    counter = omega (arith, t.counts);
    null_used = ground (arith, t.marks 0, t.not_null);
  }
]

-- `free_memory_block` clears the block of the address and no other.
pub used-free_memory_block :
    (m : Pmm) (addr c : ℕ)
    → used (free_memory_block m addr) c ≡ (if addr / memory_block_size == c then 0 else used m c)
unfolding free_memory_block used
used-free_memory_block m addr c = used-mmap_unset m (addr / memory_block_size) c

-- Freeing any address beyond block 0 keeps the allocator valid.
pub free_memory_block-IsValid :
    (m : Pmm) (addr : ℕ) → memory_block_size ≤ addr → IsValid m → IsValid (free_memory_block m addr)
free_memory_block-IsValid m addr h v = record {
  blocks = unfold free_memory_block mmap_unset in v.blocks;
  counter = unfold free_memory_block in omega arith;
  null_used = ground (arith, used-free_memory_block m addr 0, v.null_used);
}

-- Freeing the block that was just allocated gives back the array and the counter.
pub free_memory_block-alloc_memory_block :
    (m : Pmm)
    → IsValid m
    → (alloc_memory_block m).0 ≢ 0
    → let (a, m') = alloc_memory_block m in
      ((c : ℕ) → used (free_memory_block m' a) c ≡ used m c)
      × ((free_memory_block m' a).used_blocks ≡ m.used_blocks)
unfolding free_memory_block
free_memory_block-alloc_memory_block m v h =
    let (f, t) = taken m v h in
    (
      λ c. ground (
        arith,
        t.address,
        t.marks c,
        t.was_free,
        used-free_memory_block (alloc_memory_block m).1 (alloc_memory_block m).0 c,
        ap (used m) {x = f} {y = c},
      ),
      omega (arith, t.counts),
    )
