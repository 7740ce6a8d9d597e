-- ===== src/Mm/Initialize/Round.antt =====
-- A round of the loop that copies the boot tables keeps what it has copied.
use ten_os.Mm.Initialize.Boot.{
  in_dir, boot_frame, IsBoot, Copying, filled-with_page, filled_outside,
}
use ten_os.Mm.Initialize.Copy.{filled}
use ten_os.Mm.Initialize.Filled.{
  with_page, pde-with_page, frame_at_self, frame_at-other, with_page-IsSound,
}
use ten_os.Mm.Paging.{Vmm}
use ten_os.Mm.Paging.Walk.{present, page_of, pde, frame_at, IsSound}
use ten_os.Mm.Paging.Extended.{
  extended, fresh-ne, extended-IsSound, extended-present, extended-page, frame_at-extended,
  pde-other,
}
use ten_os.Mm.Memory.{alloc_memory_block}
use ten_os.Mm.Memory.Alloc.{Takes}
use ten_os.Prelude.{
  ℕ, suc, ◌+◌, ◌*◌, ◌<◌, ◌≡◌, ◌≢◌, ◌==◌, Bool-cases, inl, inr, ==_iff, false, refl, ap, sym, ◌∙◌,
  arith,
}

pub boot_frame-ext :
    (ram ram' : ℕ → ℕ) (b c u : ℕ)
    → ram' (b * 1024 + c) ≡ ram (b * 1024 + c)
    → (present (ram (b * 1024 + c)) ≡ 1
        → ram' (page_of (ram (b * 1024 + c)) * 1024 + u)
          ≡ ram (page_of (ram (b * 1024 + c)) * 1024 + u))
    → boot_frame ram' b c u ≡ boot_frame ram b c u
boot_frame-ext ram ram' b c u entry word = elim (Bool-cases (present (ram (b * 1024 + c)) == 0)) [
  | inl nothing ↦ rw (entry, nothing) refl
  | inr here ↦ rw (entry, here, word (ground arith)) refl
]

module _ (spare : ℕ) (vm : Vmm) (b n i : ℕ) (r : Copying spare b n i vm) (inside : i < 1024) where
  -- An entry that is not there.
  pub Copying-absent : present (vm.ram (b * 1024 + i)) ≡ 0 → Copying spare b n (i + 1) vm
  Copying-absent missing = record {
    boot = r.boot;
    sound = r.sound;
    done = λ c u p q. elim (Bool-cases (c == i)) [
      | inl here ↦
          let nothing : present (pde (in_dir vm n) i) ≡ 0 = r.empty i (omega arith) inside in
          rw ((==_iff c i).0 here, nothing, missing) refl
      | inr before ↦ r.done c u (ground arith) q
    ];
    empty = λ c p q. r.empty c (omega arith) q;
  }

module _ (spare : ℕ) (vm : Vmm) (b n i : ℕ) (r : Copying (suc spare) b n i vm) (inside : i < 1024)
    (f : ℕ) (t : Takes vm.pmm f (alloc_memory_block vm.pmm))
    (there : present (vm.ram (b * 1024 + i)) ≡ 1) where
  abbrev pub later : Vmm
  later = record vm { pmm = (alloc_memory_block vm.pmm).1; ram = filled vm.ram b n f i }

  abbrev source : ℕ → ℕ
  source u = vm.ram (page_of (vm.ram (b * 1024 + i)) * 1024 + u)

  abbrev grown : Vmm
  grown = extended (in_dir vm n) (alloc_memory_block vm.pmm).1 i f

  missing : present (pde (in_dir vm n) i) ≡ 0
  missing = r.empty i (omega arith) inside

  pub n-ne : n ≢ f
  n-ne =
      let e : page_of (n * 4096) ≡ n = omega arith in
      rw (← e) (fresh-ne (in_dir vm n) f (page_of (n * 4096)) t r.sound.directory_used)

  pub boot-ne : b ≢ f
  boot-ne e = r.boot.directory_spared.0 (t.address ∙ ap (λ x. x * 4096) (sym e))

  pub table-ne :
      (c : ℕ) → c < 1024 → present (vm.ram (b * 1024 + c)) ≡ 1 → page_of (vm.ram (b * 1024 + c)) ≢ f
  table-ne c p here e = (r.boot.tables_spared c p here).0 (t.address ∙ ap (λ x. x * 4096) (sym e))

  as_page : in_dir later n ≡ with_page grown f source
  as_page =
      filled-with_page vm b n f i (alloc_memory_block vm.pmm).1 inside n-ne
        (table-ne i inside there)

  grown-IsSound : IsSound grown
  grown-IsSound = extended-IsSound (in_dir vm n) i f r.sound inside missing t

  grown_there : present (pde grown i) ≡ 1
  grown_there = extended-present (in_dir vm n) i f r.sound inside missing t

  grown_page : page_of (pde grown i) ≡ f
  grown_page = extended-page (in_dir vm n) i f r.sound inside missing t

  later-IsSound : IsSound (in_dir later n)
  later-IsSound = rw as_page (
      with_page-IsSound grown i f source grown-IsSound inside grown_there grown_page
        (λ u k. r.boot.words i u inside k there))

  -- The boot tables stay.
  pub boot_entry : (c : ℕ) → c < 1024 → later.ram (b * 1024 + c) ≡ vm.ram (b * 1024 + c)
  boot_entry c p =
      filled_outside vm b n f i (alloc_memory_block vm.pmm).1 inside n-ne (table-ne i inside there)
        b c p boot-ne r.boot.apart

  boot_word :
      (c u : ℕ)
      → c < 1024
      → u < 1024
      → present (vm.ram (b * 1024 + c)) ≡ 1
      → later.ram (page_of (vm.ram (b * 1024 + c)) * 1024 + u)
        ≡ vm.ram (page_of (vm.ram (b * 1024 + c)) * 1024 + u)
  boot_word c u p k here =
      filled_outside vm b n f i (alloc_memory_block vm.pmm).1 inside n-ne (table-ne i inside there)
        (page_of (vm.ram (b * 1024 + c))) u k (table-ne c p here) (r.boot.tables_apart c p here)

  pub boot_frame-later :
      (c u : ℕ) → c < 1024 → u < 1024 → boot_frame later.ram b c u ≡ boot_frame vm.ram b c u
  boot_frame-later c u p k =
      boot_frame-ext vm.ram later.ram b c u (boot_entry c p) (boot_word c u p k)

  later-IsBoot : IsBoot spare b n later
  later-IsBoot = record {
    low = r.boot.low;
    directory_spared = r.boot.directory_spared.1;
    apart = r.boot.apart;
    entries = λ c p. rw (boot_entry c p) (r.boot.entries c p);
    tables_spared = λ c p here.
        let before : present (vm.ram (b * 1024 + c)) ≡ 1 =
          sym (ap present (boot_entry c p)) ∙ here in
        rw (boot_entry c p) ((r.boot.tables_spared c p before).1);
    tables_apart = λ c p here.
        let before : present (vm.ram (b * 1024 + c)) ≡ 1 =
          sym (ap present (boot_entry c p)) ∙ here in
        rw (boot_entry c p) (r.boot.tables_apart c p before);
    words = λ c u p k here.
        let before : present (vm.ram (b * 1024 + c)) ≡ 1 =
          sym (ap present (boot_entry c p)) ∙ here in
        rw (boot_entry c p, boot_word c u p k before) (r.boot.words c u p k before);
  }

  frame_at-later :
      (c u : ℕ)
      → c < 1024
      → u < 1024
      → i ≢ c
      → frame_at (in_dir later n) c u ≡ frame_at (in_dir vm n) c u
  frame_at-later c u p k apart =
      ap (λ w. frame_at w c u) as_page
      ∙ frame_at-other grown i f source grown-IsSound inside grown_there grown_page
          (λ u k. r.boot.words i u inside k there) c u p k apart
      ∙ frame_at-extended (in_dir vm n) i f r.sound inside missing t c u p k

  frame_at-copied : (u : ℕ) → u < 1024 → frame_at (in_dir later n) i u ≡ boot_frame vm.ram b i u
  frame_at-copied u k =
      ap (λ w. frame_at w i u) as_page
      ∙ frame_at_self grown i f source grown-IsSound inside grown_there grown_page
          (λ u k. r.boot.words i u inside k there) u k
      ∙ (let is_there : (present (vm.ram (b * 1024 + i)) == 0) ≡ false = ground arith in
          rw is_there refl)

  pub Copying-present : Copying spare b n (i + 1) later
  Copying-present = record {
    boot = later-IsBoot;
    sound = later-IsSound;
    done = λ c u p k. elim (Bool-cases (c == i)) [
      | inl here ↦
          let same : c ≡ i = (==_iff c i).0 here in
          rw same (frame_at-copied u k ∙ sym (boot_frame-later i u inside k))
      | inr before ↦
          frame_at-later c u (ground arith) k (λ e. ground arith)
          ∙ r.done c u (ground arith) k
          ∙ sym (boot_frame-later c u (ground arith) k)
    ];
    empty = λ c p q.
        let apart : (i == c) ≡ false = ground arith in
        ap (λ w. present (pde w c)) as_page
        ∙ ap present (
            pde-with_page grown i f source grown-IsSound inside grown_there grown_page
              (λ u k. r.boot.words i u inside k there) c q
            ∙ pde-other (in_dir vm n) i f r.sound inside missing t c q apart)
        ∙ r.empty c (omega arith) q;
  }
