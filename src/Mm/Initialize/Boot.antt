-- ===== src/Mm/Initialize/Boot.antt =====
-- The boot tables, and a round of the loop that copies one of them.
use ten_os.Mm.Initialize.Copy.{filled}
use ten_os.Mm.Initialize.Filled.{with_page, frame_of}
use ten_os.Mm.Paging.{Vmm}
use ten_os.Mm.Paging.Walk.{present, page_of, pde, frame_at, IsSound}
use ten_os.Mm.Paging.Extended.{extended}
use ten_os.Mm.Memory.{alloc_memory_block, Pmm}
use ten_os.Prelude.{
  ℕ, zero, suc, ◌+◌, ◌*◌, ◌^◌, ◌≤◌, ◌<◌, ◌≡◌, ◌≢◌, ◌==◌, if◌then◌else◌, Option, none, ap, fun_ext,
  arith,
}

-- The state in which page `n` is the directory.
abbrev pub in_dir : Vmm → ℕ → Vmm
in_dir vm n = record vm { cur_directory = n * 4096 + 0xC0000000; cur_pdbr = n * 4096 }

-- The boot directory is page `b`: what it says of an entry.
abbrev pub boot_frame : (ℕ → ℕ) → ℕ → ℕ → ℕ → Option ℕ
boot_frame ram b d u =
    if present (ram (b * 1024 + d)) == 0
    then none
    else frame_of (ram (page_of (ram (b * 1024 + d)) * 1024 + u))

-- The next `k` allocations do not hand out the page.
abbrev pub Spares : ℕ → Pmm → ℕ → Type 0
Spares zero m page = Unit
Spares (suc k) m page =
    ((alloc_memory_block m).0 ≢ page * 4096) × Spares k (alloc_memory_block m).1 page

-- The boot tables stand in pages below 1 GB, which the next `k` allocations spare and which are not
-- the new directory, page `n`.
pub record IsBoot (k b n : ℕ) (vm : Vmm) : Type 0 where
  pub low : b < 2 ^ 18
  pub directory_spared : Spares k vm.pmm b
  pub apart : b ≢ n
  pub entries : (d : ℕ) → d < 1024 → vm.ram (b * 1024 + d) < 2 ^ 30
  pub tables_spared :
      (d : ℕ)
      → d < 1024
      → present (vm.ram (b * 1024 + d)) ≡ 1
      → Spares k vm.pmm (page_of (vm.ram (b * 1024 + d)))
  pub tables_apart :
      (d : ℕ) → d < 1024 → present (vm.ram (b * 1024 + d)) ≡ 1 → page_of (vm.ram (b * 1024 + d)) ≢ n
  pub words :
      (d u : ℕ)
      → d < 1024
      → u < 1024
      → present (vm.ram (b * 1024 + d)) ≡ 1
      → vm.ram (page_of (vm.ram (b * 1024 + d)) * 1024 + u) < 2 ^ 31

-- The state in front of the round for entry `i`.
pub record Copying (k b n i : ℕ) (vm : Vmm) : Type 0 where
  pub boot : IsBoot k b n vm
  pub sound : IsSound (in_dir vm n)
  pub done : (c u : ℕ) → c < i → u < 1024 → frame_at (in_dir vm n) c u ≡ boot_frame vm.ram b c u
  pub empty : (c : ℕ) → i ≤ c → c < 1024 → present (pde (in_dir vm n) c) ≡ 0

-- The two ways to write down the memory behind a round.
module _ (vm : Vmm) (b n f i : ℕ) (pmm' : Pmm) (inside : i < 1024) (n-ne : n ≢ f)
    (t-ne : page_of (vm.ram (b * 1024 + i)) ≢ f) where
  abbrev source : ℕ → ℕ
  source u = vm.ram (page_of (vm.ram (b * 1024 + i)) * 1024 + u)

  pub filled-with_page :
      in_dir (record vm { pmm = pmm'; ram = filled vm.ram b n f i }) n
      ≡ with_page (extended (in_dir vm n) pmm' i f) f source
  filled-with_page =
      let e : page_of (n * 4096) ≡ n = omega arith in
      ap (λ (r : ℕ → ℕ). in_dir (record vm { pmm = pmm'; ram = r }) n)
        (fun_ext λ x. rw e (ground arith))

  -- A word of another page.
  pub filled_outside :
      (page u : ℕ)
      → u < 1024
      → page ≢ f
      → page ≢ n
      → filled vm.ram b n f i (page * 1024 + u) ≡ vm.ram (page * 1024 + u)
  filled_outside page u bound apart other = ground arith
