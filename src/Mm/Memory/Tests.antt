-- ===== src/Mm/Memory/Tests.antt =====
-- mm/memory.c at concrete bit arrays.
use ten_os.Mm.Memory.{
  Pmm, memory_block_size, mmap_set, mmap_unset, mmap_test, mmap_first_free, mmap_first_free_s,
  alloc_memory_block, alloc_memory_blocks, free_memory_block, init_mem_mngr, init_memory_region,
  bytes_of, words_of, get_free_block_count,
}
use ten_os.Mm.Memory.Bitmap.{used}
use ten_os.Mm.Memory.Search.{free_block, searched, roomy, mmap_first_free_lem}
use ten_os.Mm.Memory.Alloc.{
  IsValid, Takes, Exhausted, alloc_memory_block_lem, free_memory_block-alloc_memory_block,
}
use ten_os.Mm.Memory.Blocks.{
  TakesRun, in_run, IsFreeRun, alloc_memory_blocks_lem, alloc_memory_blocks_overlap,
}
use ten_os.Mm.Memory.Setup.{init_memory_region_lem, init_mem_mngr_lem}
use ten_os.Mm.Memory.Trace.{World, Step, Reach, IsSafe, alloc_memory_block_unheld}
use ten_os.Util.{memset}
use ten_os.Word.Bits.{bit}
use ten_os.Prelude.Least.{IsLeast}
use ten_os.Prelude.{
  ℕ, zero, suc, ◌*◌, ◌/◌, ◌%◌, ◌≤◌, ◌<◌, ◌≡◌, refl, ◌≢◌, ◌⊎◌, true, false, none, some, ltb, ◌==◌,
  if◌then◌else◌, arith,
}

-- 64 blocks; 0, 1 and 3 are used.
abbrev sample : Pmm
sample = record {
  mem_mngr = λ i. if i == 0 then 0xb else 0;
  max_blocks = 64;
  used_blocks = 3;
  size = 256;
}

-- The first word is full.
abbrev crowded : Pmm
crowded = record sample { mem_mngr = λ i. if i == 0 then 0xffffffff else 0x5; used_blocks = 34 }

first_free_runs :
    (mmap_first_free sample ≡ some 2)
    × (mmap_first_free crowded ≡ some 33)
    × (mmap_first_free (record sample { max_blocks = 31 }) ≡ none)
    × (mmap_first_free_s sample 3 ≡ some 2)
    × (mmap_first_free_s sample 2 ≡ some 2)
unfolding mmap_first_free mmap_first_free_s
first_free_runs = (refl, refl, refl, refl, refl)

alloc_runs :
    ((alloc_memory_block sample).0 ≡ 8192)
    × (mmap_test (alloc_memory_block sample).1 2 ≡ 4)
    × ((alloc_memory_block (record sample { used_blocks = 64 })).0 ≡ 0)
unfolding alloc_memory_block mmap_first_free mmap_set mmap_test
alloc_runs = (refl, refl, refl)

boot_runs :
    (mmap_test (init_mem_mngr (λ i. 0) 256) 3 ≡ 8)
    × (mmap_test (init_mem_mngr (λ i. 0) 256) 4 ≡ 0)
    × (mmap_test (init_memory_region crowded 0x3000 0x2000) 5 ≡ 0)
    × (mmap_test (init_memory_region crowded 0x3000 0x2000) 6 ≡ 64)
unfolding init_mem_mngr init_memory_region mmap_test mmap_unset mmap_set bytes_of words_of memset
boot_runs = (refl, refl, refl, refl)

sample-IsValid : IsValid sample
unfolding used bit
sample-IsValid = record { blocks = omega arith; counter = omega arith; null_used = refl }

mmap_first_free_lem_example : IsLeast (free_block crowded) 0 64 (mmap_first_free crowded)
mmap_first_free_lem_example = mmap_first_free_lem crowded

alloc_memory_block_lem_example :
    (Exhausted sample × (alloc_memory_block sample ≡ (0, sample)))
    ⊎ ((f : ℕ) × (get_free_block_count sample ≢ 0) × Takes sample f (alloc_memory_block sample))
alloc_memory_block_lem_example = alloc_memory_block_lem sample sample-IsValid

sample_alloc : (alloc_memory_block sample).0 ≢ 0
unfolding alloc_memory_block mmap_first_free mmap_set
sample_alloc = omega arith

free_memory_block-alloc_memory_block_example :
    let (a, m') = alloc_memory_block sample in
    ((c : ℕ) → used (free_memory_block m' a) c ≡ used sample c)
    × ((free_memory_block m' a).used_blocks ≡ 3)
free_memory_block-alloc_memory_block_example =
    free_memory_block-alloc_memory_block sample sample-IsValid sample_alloc

alloc_memory_blocks_lem_example :
    (((get_free_block_count sample ≤ 3)
        ⊎ ((b : ℕ) → b < searched sample → roomy sample 3 b ≡ false))
      × (alloc_memory_blocks sample 3 ≡ (0, sample)))
    ⊎ ((f : ℕ) × (3 < get_free_block_count sample)
        × TakesRun sample 3 f (alloc_memory_blocks sample 3))
alloc_memory_blocks_lem_example = alloc_memory_blocks_lem sample 3 sample-IsValid (omega arith)

sample_below : (c : ℕ) → c < 2 → used sample c ≡ 1
unfolding used bit
sample_below zero h = refl
sample_below (suc zero) h = refl
sample_below (suc (suc c)) h = absurd (omega arith)

-- Blocks 2 and 3 are handed out, and 3 is in use.
alloc_memory_blocks_overlap_example :
    ((alloc_memory_blocks sample 2).0 ≡ 8192)
    × ((alloc_memory_blocks sample 2).0 ≢ 0)
    × ¬ IsFreeRun sample ((alloc_memory_blocks sample 2).0 / memory_block_size) 2
unfolding used bit
alloc_memory_blocks_overlap_example =
    alloc_memory_blocks_overlap sample 2 2 1 sample-IsValid (omega arith) (omega arith) sample_below
      refl (omega arith) refl (omega arith)

init_memory_region_lem_example :
    let m' = init_memory_region crowded 0x3000 0x2000 in
    ((c : ℕ) → used m' c ≡ (if c == 0 then 1 else if in_run 3 3 c then 0 else used crowded c))
    × (m'.used_blocks ≡ 31)
    × (m'.max_blocks ≡ 64)
init_memory_region_lem_example =
    init_memory_region_lem crowded 0x3000 0x2000 (omega arith) (omega arith)

init_mem_mngr_lem_example :
    let m = init_mem_mngr (λ i. 0) 256 in
    ((b : ℕ)
      → used m b ≡ (
          if ltb b (m.max_blocks / 8 * 8)
          then (if ltb (b % 8) 4 then 1 else 0)
          else bit (b % 32) 0))
    × (m.max_blocks ≡ 64)
    × (m.used_blocks ≡ m.max_blocks)
init_mem_mngr_lem_example = init_mem_mngr_lem (λ i. 0) 256

-- A world in which one block is held.
abbrev start : World
start = record { pmm = sample; held = λ b. false }

start-IsSafe : IsSafe start
start-IsSafe = record { valid = sample-IsValid; held_used = λ b h. cc }

abbrev after_take : World
after_take = record {
  pmm = (alloc_memory_block sample).1;
  held = λ j. if (alloc_memory_block sample).0 / memory_block_size == j then true else false;
}

start_take : Step start after_take
start_take = Step.take sample_alloc

second_alloc : (alloc_memory_block after_take.pmm).0 ≢ 0
unfolding alloc_memory_block mmap_first_free mmap_set
second_alloc = omega arith

alloc_memory_block_unheld_example :
    after_take.held ((alloc_memory_block after_take.pmm).0 / memory_block_size) ≡ false
alloc_memory_block_unheld_example =
    alloc_memory_block_unheld {s = start} {w = after_take} start-IsSafe
      (Reach.next Reach.here start_take) second_alloc
