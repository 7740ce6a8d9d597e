-- ===== src/Mm/Initialize/Filled.antt =====
-- A table whose entries are written anew.
use ten_os.Mm.Paging.{Vmm}
use ten_os.Mm.Paging.Walk.{present, page_of, pde, pte, frame_at, IsSound}
use ten_os.Prelude.{
  ℕ, ◌+◌, ◌-◌, ◌*◌, ◌^◌, ◌<◌, ◌≡◌, ◌≢◌, ◌==◌, ◌&&◌, leb, ltb, if◌then◌else◌, Option, none, some,
  Bool-cases, inl, inr, ==_iff, ==-false→ne, false, refl, ap, sym, ◌∙◌, arith,
}

-- Page `f` holds the words of `source`.
abbrev pub with_page : Vmm → ℕ → (ℕ → ℕ) → Vmm
with_page vm f source = record vm {
  ram =
      λ x. if leb (f * 1024) x && ltb x (f * 1024 + 1024) then source (x - f * 1024) else vm.ram x;
}

-- What an entry of a table says.
abbrev pub frame_of : ℕ → Option ℕ
frame_of e = if present e == 0 then none else some (page_of e)

module _ (vm : Vmm) (f : ℕ) (source : ℕ → ℕ) where
  outside :
      (page u : ℕ)
      → u < 1024
      → page ≢ f
      → (with_page vm f source).ram (page * 1024 + u) ≡ vm.ram (page * 1024 + u)
  outside page u bound apart = ground arith

  within : (u : ℕ) → u < 1024 → (with_page vm f source).ram (f * 1024 + u) ≡ source u
  within u bound = ground (arith, ap source {x = f * 1024 + u - f * 1024} {y = u})

module _ (vm : Vmm) (d f : ℕ) (source : ℕ → ℕ) (s : IsSound vm) (p : d < 1024)
    (there : present (pde vm d) ≡ 1) (table : page_of (pde vm d) ≡ f)
    (small : (u : ℕ) → u < 1024 → source u < 2 ^ 31) where
  abbrev later : Vmm
  later = with_page vm f source

  pub pde-with_page : (c : ℕ) → c < 1024 → pde later c ≡ pde vm c
  pde-with_page c r =
      outside vm f source (page_of vm.cur_pdbr) c r (λ e. s.not_directory d p there (table ∙ sym e))

  pte_self : (u : ℕ) → u < 1024 → pte later d u ≡ source u
  pte_self u k = rw (pde-with_page d p, table) (within vm f source u k)

  pte-other :
      (c u : ℕ) → c < 1024 → u < 1024 → d ≢ c → present (pde vm c) ≡ 1 → pte later c u ≡ pte vm c u
  pte-other c u r k apart here = rw (pde-with_page c r) (
      outside vm f source (page_of (pde vm c)) u k
        (λ e. s.apart d c p r apart there here (table ∙ sym e)))

  pub frame_at_self : (u : ℕ) → u < 1024 → frame_at later d u ≡ frame_of (source u)
  frame_at_self u k =
      let is_there : (present (pde vm d) == 0) ≡ false = ground arith in
      rw (pte_self u k, pde-with_page d p, is_there) refl

  pub frame_at-other :
      (c u : ℕ) → c < 1024 → u < 1024 → d ≢ c → frame_at later c u ≡ frame_at vm c u
  frame_at-other c u r k apart = elim (Bool-cases (present (pde vm c) == 0)) [
    | inl missing ↦ rw (pde-with_page c r, missing) refl
    | inr here ↦ rw (pte-other c u r k apart (ground arith), pde-with_page c r) refl
  ]

  page-lt : (c u : ℕ) → c < 1024 → u < 1024 → present (pde later c) ≡ 1 → pte later c u < 2 ^ 31
  page-lt c u r k here = elim (Bool-cases (d == c)) [
    | inl same ↦ rw (← (==_iff d c).0 same) (rw (pte_self u k) (small u k))
    | inr other ↦
        let before : present (pde vm c) ≡ 1 = sym (ap present (pde-with_page c r)) ∙ here in
        rw (pte-other c u r k (==-false→ne d c other) before) (s.pages c u r k before)
  ]

  pub with_page-IsSound : IsSound later
  with_page-IsSound = record {
    pmm = s.pmm;
    memory = s.memory;
    directory = s.directory;
    aligned = s.aligned;
    low = s.low;
    directory_used = s.directory_used;
    entries = λ c r. rw (pde-with_page c r) (s.entries c r);
    tables_used =
        λ c r here. rw (pde-with_page c r) (s.tables_used c r (rw (pde-with_page c r) at here));
    not_directory =
        λ c r here. rw (pde-with_page c r) (s.not_directory c r (rw (pde-with_page c r) at here));
    apart = λ c e r k ne here away.
        rw (pde-with_page c r, pde-with_page e k)
          (s.apart c e r k ne (rw (pde-with_page c r) at here) (rw (pde-with_page e k) at away));
    pages = page-lt;
  }
