-- ===== src/Mm/Initialize/Start.antt =====
-- The tables that the boot code leaves, and the new directory in front of the copy.
use ten_os.Mm.Initialize.Boot.{Spares, in_dir, boot_frame, IsBoot, Copying}
use ten_os.Mm.Initialize.Round.{boot_frame-ext}
use ten_os.Mm.Initialize.Tables.{boot_count, boot_count-ext}
use ten_os.Mm.Paging.{Vmm}
use ten_os.Mm.Paging.Walk.{present, page_of, pde, IsSound}
use ten_os.Mm.Paging.Cleared.{cleared}
use ten_os.Mm.Memory.{alloc_memory_block}
use ten_os.Mm.Memory.Alloc.{IsValid, Takes, alloc_memory_block-IsValid}
use ten_os.Prelude.{suc, ℕ, ◌+◌, ◌*◌, ◌^◌, ◌<◌, ◌≡◌, ◌≢◌, refl, ap, sym, ◌∙◌, arith}

-- The boot directory is page `b`: it and its tables are below 1 GB, and the allocations of
-- the new directory and its copied tables do not hand them out.
pub record IsBooted (b : ℕ) (vm : Vmm) : Type 0 where
  pub pmm : IsValid vm.pmm
  pub memory : vm.pmm.max_blocks < 2 ^ 18
  pub low : b < 2 ^ 18
  pub directory_spared : Spares (suc (boot_count vm.ram b 1024 0)) vm.pmm b
  pub entries : (d : ℕ) → d < 1024 → vm.ram (b * 1024 + d) < 2 ^ 30
  pub tables_spared :
      (d : ℕ)
      → d < 1024
      → present (vm.ram (b * 1024 + d)) ≡ 1
      → Spares (suc (boot_count vm.ram b 1024 0)) vm.pmm (page_of (vm.ram (b * 1024 + d)))
  pub words :
      (d u : ℕ)
      → d < 1024
      → u < 1024
      → present (vm.ram (b * 1024 + d)) ≡ 1
      → vm.ram (page_of (vm.ram (b * 1024 + d)) * 1024 + u) < 2 ^ 31

module _ (vm : Vmm) (b n : ℕ) (s : IsBooted b vm)
    (t : Takes vm.pmm n (alloc_memory_block vm.pmm)) where
  abbrev pub emptied : Vmm
  emptied = record vm { pmm = (alloc_memory_block vm.pmm).1; ram = cleared vm.ram (n * 1024) 1024 }

  spared-ne : (k page : ℕ) → Spares (suc k) vm.pmm page → page ≢ n
  spared-ne k page h e = h.0 (t.address ∙ ap (λ x. x * 4096) (sym e))

  new_entry : (d : ℕ) → d < 1024 → pde (in_dir emptied n) d ≡ 0
  new_entry d p = let e : page_of (n * 4096) ≡ n = omega arith in rw e (ground arith)

  other_word :
      (page u : ℕ) → u < 1024 → page ≢ n → emptied.ram (page * 1024 + u) ≡ vm.ram (page * 1024 + u)
  other_word page u p ne = ground arith

  boot_entry : (d : ℕ) → d < 1024 → emptied.ram (b * 1024 + d) ≡ vm.ram (b * 1024 + d)
  boot_entry d p = other_word b d p (spared-ne _ b s.directory_spared)

  was_there :
      (d : ℕ)
      → d < 1024
      → present (emptied.ram (b * 1024 + d)) ≡ 1
      → present (vm.ram (b * 1024 + d)) ≡ 1
  was_there d p there = sym (ap present (boot_entry d p)) ∙ there

  boot_word :
      (d u : ℕ)
      → d < 1024
      → u < 1024
      → present (vm.ram (b * 1024 + d)) ≡ 1
      → emptied.ram (page_of (vm.ram (b * 1024 + d)) * 1024 + u)
        ≡ vm.ram (page_of (vm.ram (b * 1024 + d)) * 1024 + u)
  boot_word d u p q there =
      other_word (page_of (vm.ram (b * 1024 + d))) u q (spared-ne _ _ (s.tables_spared d p there))

  pub boot_frame-emptied :
      (d u : ℕ) → d < 1024 → u < 1024 → boot_frame emptied.ram b d u ≡ boot_frame vm.ram b d u
  boot_frame-emptied d u p q =
      boot_frame-ext vm.ram emptied.ram b d u (boot_entry d p) (boot_word d u p q)

  pub boot_count-emptied : boot_count emptied.ram b 1024 0 ≡ boot_count vm.ram b 1024 0
  boot_count-emptied = boot_count-ext vm.ram emptied.ram b 1024 0 boot_entry (omega arith)

  emptied-IsBoot : IsBoot (boot_count vm.ram b 1024 0) b n emptied
  emptied-IsBoot = record {
    low = s.low;
    directory_spared = s.directory_spared.1;
    apart = spared-ne _ b s.directory_spared;
    entries = λ d p. rw (boot_entry d p) (s.entries d p);
    tables_spared =
        λ d p there. rw (boot_entry d p) ((s.tables_spared d p (was_there d p there)).1);
    tables_apart = λ d p there.
        rw (boot_entry d p) (spared-ne _ _ (s.tables_spared d p (was_there d p there)));
    words = λ d u p q there.
        rw (boot_entry d p, boot_word d u p q (was_there d p there))
          (s.words d u p q (was_there d p there));
  }

  emptied-IsSound : IsSound (in_dir emptied n)
  emptied-IsSound = record {
    pmm = alloc_memory_block-IsValid vm.pmm s.pmm;
    memory = omega (arith, t.same_blocks, s.memory);
    directory = refl;
    aligned = omega arith;
    low = omega (arith, t.in_range, s.memory);
    directory_used =
        let e : page_of (n * 4096) ≡ n = omega arith in rw e (ground (arith, t.marks n));
    entries = λ d p. omega (arith, new_entry d p);
    tables_used = λ d p there. absurd (omega (arith, new_entry d p));
    not_directory = λ d p there. absurd (omega (arith, new_entry d p));
    apart = λ d c p q ne there here. absurd (omega (arith, new_entry d p));
    pages = λ d u p q there. absurd (omega (arith, new_entry d p));
  }

  pub emptied-Copying : Copying (boot_count vm.ram b 1024 0) b n 0 emptied
  emptied-Copying = record {
    boot = emptied-IsBoot;
    sound = emptied-IsSound;
    done = λ c u p q. absurd (omega arith);
    empty = λ c p q. omega (arith, new_entry c q);
  }
