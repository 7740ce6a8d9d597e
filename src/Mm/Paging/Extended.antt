-- ===== src/Mm/Paging/Extended.antt =====
-- A new table in the directory.
use ten_os.Mm.Paging.{Vmm, p2v, v2p, new_table}
use ten_os.Mm.Paging.Walk.{present, page_of, pde, pte, frame_at, IsSound}
use ten_os.Mm.Paging.Flags.{
  mapping_entry, mapping_entry-lt, mapping_entry-present, mapping_entry-page, directory_entry-eq,
}
use ten_os.Mm.Paging.Cleared.{cleared, clear_table_lem}
use ten_os.Mm.Paging.Mapped.{entry_address}
use ten_os.Mm.Memory.{Pmm, alloc_memory_block}
use ten_os.Mm.Memory.Bitmap.{used}
use ten_os.Mm.Memory.Alloc.{Takes, alloc_memory_block-IsValid}
use ten_os.Prelude.{
  ℕ, ◌+◌, ◌*◌, ◌/◌, ◌^◌, ◌<◌, ◌≡◌, ◌≢◌, ◌⊎◌, ◌==◌, if◌then◌else◌, Bool-cases, inl, inr, ==_iff,
  ==-false→ne, true, false, refl, ap, ◌∙◌, sym, update, arith,
}

-- The state with page `f` as the table of entry `d`.
abbrev pub extended : Vmm → Pmm → ℕ → ℕ → Vmm
extended vm pmm' d f =
    let at = page_of vm.cur_pdbr * 1024 + d in
    record vm {
      pmm = pmm';
      ram = update (cleared vm.ram (f * 1024) 1024) at (mapping_entry (vm.ram at) (f * 4096));
    }

-- A page in use is not the block that the allocator takes.
pub fresh-ne :
    (vm : Vmm) (f page : ℕ)
    → Takes vm.pmm f (alloc_memory_block vm.pmm)
    → used vm.pmm page ≡ 1
    → page ≢ f
fresh-ne vm f page t held e = ground (arith, t.was_free, ap (used vm.pmm) e)

not_cleared :
    (vm : Vmm) (f page i : ℕ)
    → i < 1024
    → page ≢ f
    → cleared vm.ram (f * 1024) 1024 (page * 1024 + i) ≡ vm.ram (page * 1024 + i)
not_cleared vm f page i p ne = ground arith

-- The page that the allocator returned, whatever it is, becomes the table.
pub new_table_lem :
    (vm : Vmm) (d f : ℕ)
    → IsSound vm
    → d < 1024
    → (alloc_memory_block vm.pmm).0 ≡ f * 4096
    → f + 1 < 2 ^ 18
    → page_of vm.cur_pdbr ≢ f
    → new_table vm (entry_address vm d) ≡ (true, extended vm (alloc_memory_block vm.pmm).1 d f)
unfolding new_table
new_table_lem vm d f s p address bound ne =
    let page : p2v (f * 4096) ≡ 0xC0000000 + 4 * (f * 1024) = omega arith in
    let some_table : (0xC0000000 + 4 * (f * 1024) == 0) ≡ false = ground arith in
    let at : v2p (entry_address vm d) / 4 ≡ page_of vm.cur_pdbr * 1024 + d =
      omega (arith, s.aligned, s.low) in
    let kept : cleared vm.ram (f * 1024) 1024 (page_of vm.cur_pdbr * 1024 + d) ≡ pde vm d =
      not_cleared vm f (page_of vm.cur_pdbr) d p ne in
    rw
      (
        address,
        page,
        clear_table_lem 1024 (f * 1024) (record vm { pmm = (alloc_memory_block vm.pmm).1 })
            (omega arith),
        some_table,
        at,
        kept,
        directory_entry-eq (pde vm d) (f * 4096),
      )
      refl

module _ (vm : Vmm) (d f : ℕ) (s : IsSound vm) (p : d < 1024) (missing : present (pde vm d) ≡ 0)
    (t : Takes vm.pmm f (alloc_memory_block vm.pmm)) where
  abbrev later : Vmm
  later = extended vm (alloc_memory_block vm.pmm).1 d f

  in_memory : f * 4096 < 2 ^ 30
  in_memory = omega (arith, t.in_range, s.memory)

  entry_present : present (mapping_entry (pde vm d) (f * 4096)) ≡ 1
  entry_present =
      mapping_entry-present (pde vm d) (f * 4096) (omega arith) (omega (arith, in_memory))
        (omega (arith, s.entries d p))

  entry_page : page_of (mapping_entry (pde vm d) (f * 4096)) ≡ f
  entry_page =
      mapping_entry-page (pde vm d) (f * 4096) (omega arith) (omega (arith, in_memory))
        (omega (arith, s.entries d p))
      ∙ omega arith

  pub directory-ne : page_of vm.cur_pdbr ≢ f
  directory-ne = fresh-ne vm f (page_of vm.cur_pdbr) t s.directory_used

  table-ne : (c : ℕ) → c < 1024 → present (pde vm c) ≡ 1 → page_of (pde vm c) ≢ f
  table-ne c r here = fresh-ne vm f (page_of (pde vm c)) t (s.tables_used c r here)

  pde-extended :
      (c : ℕ)
      → c < 1024
      → pde later c ≡ (if d == c then mapping_entry (pde vm d) (f * 4096) else pde vm c)
  pde-extended c r = ground (arith, not_cleared vm f (page_of vm.cur_pdbr) c r directory-ne)

  pub pde-other : (c : ℕ) → c < 1024 → (d == c) ≡ false → pde later c ≡ pde vm c
  pde-other c r other = pde-extended c r ∙ rw other refl

  pde_self :
      (c : ℕ) → c < 1024 → (d == c) ≡ true → pde later c ≡ mapping_entry (pde vm d) (f * 4096)
  pde_self c r same = pde-extended c r ∙ rw same refl

  pte_self : (c u : ℕ) → c < 1024 → u < 1024 → (d == c) ≡ true → pte later c u ≡ 0
  pte_self c u r k same = rw (pde_self c r same, entry_page) (ground (arith, directory-ne))

  pte-other :
      (c u : ℕ)
      → c < 1024
      → u < 1024
      → (d == c) ≡ false
      → present (pde vm c) ≡ 1
      → pte later c u ≡ pte vm c u
  pte-other c u r k other here = rw (pde-other c r other) (
      ground (
        arith,
        s.not_directory c r here,
        not_cleared vm f (page_of (pde vm c)) u k (table-ne c r here),
      ))

  pub extended-present : present (pde later d) ≡ 1
  extended-present = rw (pde_self d p ((==_iff d d).1 refl)) entry_present

  pub extended-page : page_of (pde later d) ≡ f
  extended-page = ap page_of (pde_self d p ((==_iff d d).1 refl)) ∙ entry_page

  -- The new table is empty, so nothing is translated that was not before.
  pub frame_at-extended : (c u : ℕ) → c < 1024 → u < 1024 → frame_at later c u ≡ frame_at vm c u
  frame_at-extended c u r k = elim (Bool-cases (d == c)) [
    | inl same ↦
        let e : d ≡ c = (==_iff d c).0 same in
        let none_before : (present (pde vm c) == 0) ≡ true =
          ground (arith, missing, ap (λ x. present (pde vm x)) e) in
        rw (pte_self c u r k same, pde_self c r same, entry_present, none_before) refl
    | inr other ↦ elim (Bool-cases (present (pde vm c) == 0)) [
      | inl nothing ↦ rw (pde-other c r other, nothing) refl
      | inr here ↦ rw (pte-other c u r k other (ground arith), pde-other c r other) refl
    ]
  ]

  -- Entry `c` of the new directory, if it is there: the new one, or one of before.
  table_of :
      (c : ℕ)
      → c < 1024
      → present (pde later c) ≡ 1
      → ((d ≡ c) × (page_of (pde later c) ≡ f))
        ⊎ ((d ≢ c) × (present (pde vm c) ≡ 1) × (page_of (pde later c) ≡ page_of (pde vm c)))
  table_of c r here = elim (Bool-cases (d == c)) [
    | inl same ↦ inl ((==_iff d c).0 same, ap page_of (pde_self c r same) ∙ entry_page)
    | inr other ↦ inr (
      ==-false→ne d c other,
      sym (ap present (pde-other c r other)) ∙ here,
      ap page_of (pde-other c r other),
    )
  ]

  entry-lt : (c : ℕ) → c < 1024 → pde later c < 2 ^ 30
  entry-lt c r =
      let new = mapping_entry-lt 30 (pde vm d) (f * 4096) (omega arith) (s.entries d p) in_memory in
      rw (pde-extended c r) (ground (arith, s.entries c r))

  table-used :
      (c : ℕ) → c < 1024 → present (pde later c) ≡ 1 → used later.pmm (page_of (pde later c)) ≡ 1
  table-used c r here = elim (table_of c r here) [
    | inl (_, new) ↦ rw new (ground (arith, t.marks f))
    | inr (_, before, same) ↦
        rw same (ground (arith, t.marks (page_of (pde vm c)), s.tables_used c r before))
  ]

  table-ne-directory :
      (c : ℕ) → c < 1024 → present (pde later c) ≡ 1 → page_of (pde later c) ≢ page_of vm.cur_pdbr
  table-ne-directory c r here = elim (table_of c r here) [
    | inl (_, new) ↦ rw new (λ e. directory-ne (sym e))
    | inr (_, before, same) ↦ rw same (s.not_directory c r before)
  ]

  tables-apart :
      (c e : ℕ)
      → c < 1024
      → e < 1024
      → c ≢ e
      → present (pde later c) ≡ 1
      → present (pde later e) ≡ 1
      → page_of (pde later c) ≢ page_of (pde later e)
  tables-apart c e r k ne here there = elim (table_of c r here) [
    | inl (same_c, new) ↦ elim (table_of e k there) [
      | inl (same_e, _) ↦ absurd (ne (sym same_c ∙ same_e))
      | inr (_, before, same) ↦ rw (new, same) (λ q. table-ne e k before (sym q))
    ]
    | inr (_, before_c, same_c) ↦ elim (table_of e k there) [
      | inl (_, new) ↦ rw (new, same_c) (table-ne c r before_c)
      | inr (_, before_e, same_e) ↦ rw (same_c, same_e) (s.apart c e r k ne before_c before_e)
    ]
  ]

  page-lt : (c u : ℕ) → c < 1024 → u < 1024 → present (pde later c) ≡ 1 → pte later c u < 2 ^ 31
  page-lt c u r k here = elim (Bool-cases (d == c)) [
    | inl same ↦ rw (pte_self c u r k same) (omega arith)
    | inr other ↦
        let before : present (pde vm c) ≡ 1 = sym (ap present (pde-other c r other)) ∙ here in
        rw (pte-other c u r k other before) (s.pages c u r k before)
  ]

  pub extended-IsSound : IsSound later
  extended-IsSound = record {
    pmm = alloc_memory_block-IsValid vm.pmm s.pmm;
    memory = omega (arith, s.memory, t.same_blocks);
    directory = s.directory;
    aligned = s.aligned;
    low = s.low;
    directory_used = ground (arith, t.marks (page_of vm.cur_pdbr), s.directory_used);
    entries = entry-lt;
    tables_used = table-used;
    not_directory = table-ne-directory;
    apart = tables-apart;
    pages = page-lt;
  }
