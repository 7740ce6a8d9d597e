-- ===== src/Mm/Memory/Trace.antt =====
-- Any sequence of allocations and releases: no block has two owners.
use ten_os.Mm.Memory.{Pmm, memory_block_size, alloc_memory_block, free_memory_block}
use ten_os.Mm.Memory.Bitmap.{used}
use ten_os.Mm.Memory.Alloc.{
  IsValid, taken, alloc_memory_block_lem, alloc_memory_block-IsValid, used-free_memory_block,
  free_memory_block-IsValid,
}
use ten_os.Prelude.{ℕ, ◌*◌, ◌/◌, ◌<◌, ◌≡◌, ◌≢◌, inl, inr, Bool, true, false, update, arith}

-- The allocator, and the blocks that its callers hold.
pub record World : Type 0 where
  pub pmm : Pmm
  pub held : ℕ → Bool

-- A caller allocates, in vain or not, or frees a block that it holds.
pub data Step : World → World → Type 0 where
  fail :
      {w : World}
      → (alloc_memory_block w.pmm).0 ≡ 0
      → Step w (record w { pmm = (alloc_memory_block w.pmm).1 })
  take :
      {w : World}
      → (alloc_memory_block w.pmm).0 ≢ 0
      → Step w (record {
        pmm = (alloc_memory_block w.pmm).1;
        held = update w.held ((alloc_memory_block w.pmm).0 / memory_block_size) true;
      })
  give :
      {w : World} (b : ℕ)
      → w.held b ≡ true
      → Step w (record {
        pmm = free_memory_block w.pmm (b * memory_block_size);
        held = update w.held b false;
      })

pub data Reach (s : World) : World → Type 0 where
  here : Reach s s
  next : {w u : World} → Reach s w → Step w u → Reach s u

-- Each block that is held is marked as used, and it is not block 0.
pub record IsSafe (w : World) : Type 0 where
  pub valid : IsValid w.pmm
  pub held_used : (b : ℕ) → w.held b ≡ true → (used w.pmm b ≡ 1) × (0 < b)

Step-IsSafe : {w u : World} → Step w u → IsSafe w → IsSafe u
Step-IsSafe (fail {w} z) s = record {
  valid = alloc_memory_block-IsValid w.pmm s.valid;
  held_used = λ b h. elim (alloc_memory_block_lem w.pmm s.valid) [
    | inl (_, same) ↦ rw same (s.held_used b h)
    | inr (f, _, t) ↦ absurd (omega (arith, t.address, t.not_null))
  ];
}
Step-IsSafe (take {w} h) s =
    let (f, t) = taken w.pmm s.valid h in
    record {
      valid = alloc_memory_block-IsValid w.pmm s.valid;
      held_used = λ b k. ground (arith, t.marks b, t.address, t.not_null, s.held_used b);
    }
Step-IsSafe (give {w} b h) s = record {
  valid =
      free_memory_block-IsValid w.pmm (b * memory_block_size) (omega (arith, (s.held_used b h).1))
        s.valid;
  held_used =
      λ c k. ground (arith, used-free_memory_block w.pmm (b * memory_block_size) c, s.held_used c);
}

pub Reach-IsSafe : {s w : World} → IsSafe s → Reach s w → IsSafe w
Reach-IsSafe h here = h
Reach-IsSafe h (next r st) = Step-IsSafe st (Reach-IsSafe h r)

-- After any sequence of steps from a safe state, the block that `alloc_memory_block` hands out is
-- held by nobody.
pub alloc_memory_block_unheld :
    {s w : World}
    → IsSafe s
    → Reach s w
    → (alloc_memory_block w.pmm).0 ≢ 0
    → w.held ((alloc_memory_block w.pmm).0 / memory_block_size) ≡ false
alloc_memory_block_unheld {w} safe r h =
    let now = Reach-IsSafe safe r in
    let (f, t) = taken w.pmm now.valid h in
    let at : (alloc_memory_block w.pmm).0 / memory_block_size ≡ f = omega (arith, t.address) in
    rw at (ground (arith, t.was_free, now.held_used f))
