-- ===== src/Mm/Memory/Blocks.antt =====
-- `alloc_memory_blocks` and `free_memory_blocks`: runs of blocks.
use mathlib.Core.Path.{subst}
use ten_os.Mm.Memory.{
  Pmm, memory_block_size, mmap_set, mmap_unset, mmap_first_free_s, set_run, unset_run,
  alloc_memory_blocks, free_memory_blocks, get_free_block_count,
}
use ten_os.Mm.Memory.Bitmap.{used, used-mmap_set, used-mmap_unset}
use ten_os.Mm.Memory.Search.{roomy, free_in, searched, mmap_first_free_s_lem}
use ten_os.Mm.Memory.Alloc.{IsValid}
use ten_os.Word.{u32}
use ten_os.Prelude.Least.{IsLeast}
use ten_os.Prelude.{
  ℕ, zero, suc, ◌+◌, ◌*◌, ◌/◌, ◌≤◌, ◌<◌, ◌≡◌, refl, ap, ◌≢◌, ◌⊎◌, Bool, false, ◌&&◌, some, leb, ltb,
  if◌then◌else◌, Bool-cases, Option-cases, inl, inr, arith,
}

-- Whether `c` lies in the run of `n` blocks from `b` on.
abbrev pub in_run : ℕ → ℕ → ℕ → Bool
in_run b n c = leb b c && ltb c (b + n)

used-set_run :
    (n b : ℕ) (m : Pmm) (c : ℕ) → used (set_run n b m) c ≡ (if in_run b n c then 1 else used m c)
unfolding set_run
used-set_run zero b m c = ground arith
used-set_run (suc n) b m c =
    ground (arith, used-set_run n (b + 1) (mmap_set m b) c, used-mmap_set m b c)

used-unset_run :
    (n b : ℕ) (m : Pmm) (c : ℕ) → used (unset_run n b m) c ≡ (if in_run b n c then 0 else used m c)
unfolding unset_run
used-unset_run zero b m c = ground arith
used-unset_run (suc n) b m c =
    ground (arith, used-unset_run n (b + 1) (mmap_unset m b) c, used-mmap_unset m b c)

max_blocks-set_run : (n b : ℕ) (m : Pmm) → (set_run n b m).max_blocks ≡ m.max_blocks
unfolding set_run mmap_set
max_blocks-set_run zero b m = refl
max_blocks-set_run (suc n) b m = max_blocks-set_run n (b + 1) (mmap_set m b)

-- What `alloc_memory_blocks` does to `m` when it hands out `size` blocks from `f` on.
pub record TakesRun (m : Pmm) (size f : ℕ) (out : ℕ × Pmm) : Type 0 where
  pub address : out.0 ≡ f * memory_block_size
  pub not_null : 0 < f
  pub in_range : f < m.max_blocks
  pub first_free : used m f ≡ 0
  pub mostly_free : size ≤ free_in m (size + 1) f
  pub lowest : (c : ℕ) → c < f → roomy m size c ≡ false
  pub marks : (c : ℕ) → used out.1 c ≡ (if in_run f size c then 1 else used m c)
  pub counts : out.1.used_blocks ≡ u32 (m.used_blocks + size)
  pub same_blocks : out.1.max_blocks ≡ m.max_blocks

run-TakesRun :
    (m : Pmm) (size f : ℕ)
    → IsValid m
    → IsLeast (roomy m size) 0 (searched m) (some f)
    → TakesRun m size f (
      u32 (f * memory_block_size),
      record (set_run size f m) { used_blocks = u32 (m.used_blocks + size) },
    )
run-TakesRun m size f v least = record {
  address = omega arith;
  not_null = ground (arith, v.null_used, not-null);
  in_range = omega arith;
  first_free = ground (arith, least.2);
  mostly_free = ground (arith, least.2);
  lowest = λ c k. least.3 c (omega arith) k;
  marks = unfold used in used-set_run size f m;
  counts = refl;
  same_blocks = max_blocks-set_run size f m;
}
  where
    not-null : f ≢ 0
    not-null e = ground (arith, ap (used m) e, v.null_used, least.2)

-- Either the counter leaves at most `size` blocks or no block is roomy, the null pointer comes
-- back and nothing changes; or exactly the run of `size` blocks from a roomy block on is marked
-- and counted.
pub alloc_memory_blocks_lem :
    (m : Pmm) (size : ℕ)
    → IsValid m
    → 0 < size
    → (((get_free_block_count m ≤ size) ⊎ ((b : ℕ) → b < searched m → roomy m size b ≡ false))
        × (alloc_memory_blocks m size ≡ (0, m)))
      ⊎ ((f : ℕ) × (size < get_free_block_count m) × TakesRun m size f (alloc_memory_blocks m size))
unfolding alloc_memory_blocks
alloc_memory_blocks_lem m size v h = elim (Bool-cases (leb (get_free_block_count m) size)) [
  | inl no_count ↦ inl (inl (ground arith), rw no_count)
  | inr more ↦ elim (Option-cases (mmap_first_free_s m size)) [
    | inl full ↦ inl (
      inr (λ b k.
          subst (IsLeast (roomy m size) 0 (searched m)) full (mmap_first_free_s_lem m size h) b
            (omega arith) k),
      rw (more, full),
    )
    | inr (f, found) ↦ inr (
      f,
      ground arith,
      rw (more, found) (run-TakesRun m size f v (rw found at (mmap_first_free_s_lem m size h))),
    )
  ]
]

-- Freeing a run clears its blocks and no other.
pub used-free_memory_blocks :
    (m : Pmm) (addr size c : ℕ)
    → used (free_memory_blocks m addr size) c
      ≡ (if in_run (addr / memory_block_size) size c then 0 else used m c)
unfolding free_memory_blocks used
used-free_memory_blocks m addr size c = used-unset_run size (addr / memory_block_size) m c

-- Each of the `size` blocks from `f` on is free.
abbrev pub IsFreeRun : Pmm → ℕ → ℕ → Type 0
IsFreeRun m f size = (c : ℕ) → f ≤ c → c < f + size → used m c ≡ 0

-- In a valid manager that counts more than `size` blocks as free, where the first free block `f`
-- is in the part that the search covers, has a used block less than `size` behind it, and at least
-- `size` of the `size + 1` blocks from `f` on are free: `alloc_memory_blocks` hands out the run
-- from `f` on, although a block of it is in use.
pub alloc_memory_blocks_overlap :
    (m : Pmm) (size f k : ℕ)
    → IsValid m
    → size < get_free_block_count m
    → f < searched m
    → ((c : ℕ) → c < f → used m c ≡ 1)
    → used m f ≡ 0
    → k < size
    → used m (f + k) ≡ 1
    → size ≤ free_in m (size + 1) f
    → ((alloc_memory_blocks m size).0 ≡ f * memory_block_size)
      × ((alloc_memory_blocks m size).0 ≢ 0)
      × ¬ IsFreeRun m ((alloc_memory_blocks m size).0 / memory_block_size) size
alloc_memory_blocks_overlap m size f k v count inside below free inner taken space =
    elim (alloc_memory_blocks_lem m size v (omega arith)) [
      | inl (why, _) ↦
          absurd (elim why [
            | inl le ↦ omega (arith, le, count)
            | inr all ↦ ground (arith, all f inside)
          ])
      | inr (g, _, t) ↦
          let same : g ≡ f = ground (arith, t.lowest f, below g, t.first_free) in
          let address : (alloc_memory_blocks m size).0 ≡ f * memory_block_size =
            rw (← same) t.address in
          let block : (alloc_memory_blocks m size).0 / memory_block_size ≡ f = omega arith in
          (address, omega (arith, t.not_null), λ run. ground (arith, run (f + k)))
    ]
