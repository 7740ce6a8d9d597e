-- ===== src/Mm/Paging/Mapped.antt =====
-- Mapping a page in a table that is there.
use ten_os.Word.{u32}
use ten_os.Mm.Paging.{
  v2p, page_get_physical_address, Vmm, page_directory_index, page_table_index, p2v, load,
  map_in_table,
}
use ten_os.Mm.Paging.Walk.{present, page_of, dir_index, table_index, pde, pte, frame_at, IsSound}
use ten_os.Mm.Paging.Flags.{
  mapping_entry, mapping_entry-lt, mapping_entry-present, mapping_entry-page,
  page_get_physical_address_lem,
}
use ten_os.Word.Bits.{bit_and-mask}
use ten_os.Prelude.{
  ℕ, ◌+◌, ◌*◌, ◌/◌, ◌%◌, ◌^◌, ◌<◌, ◌≡◌, ◌==◌, ◌&&◌, none, some, if◌then◌else◌, Bool-cases, inl, inr,
  ==_iff, ==-false→ne, false, refl, ap, ◌∙◌, sym, update, arith,
}

pub table_index_lem : (virt : ℕ) → page_table_index virt ≡ table_index virt
table_index_lem virt = bit_and-mask 10 (virt / 2 ^ 12)

pub dir_index_lem : (virt : ℕ) → virt < 2 ^ 32 → page_directory_index virt ≡ dir_index virt
dir_index_lem virt p = bit_and-mask 10 (virt / 2 ^ 22) ∙ omega arith

-- The address of entry `d` of the directory, as the code computes it.
abbrev pub entry_address : Vmm → ℕ → ℕ
entry_address vm d = vm.cur_pdbr + 0xC0000000 + 4 * d

pub load_entry :
    (vm : Vmm) (d : ℕ) → IsSound vm → d < 1024 → load vm (entry_address vm d) ≡ pde vm d
load_entry vm d s p = ap vm.ram (omega (arith, s.aligned, s.low))

-- The state after the mapping: one word of the table has changed.
abbrev pub mapped : Vmm → ℕ → ℕ → ℕ → Vmm
mapped vm d t phys =
    let at = page_of (pde vm d) * 1024 + t in
    record vm { ram = update vm.ram at (mapping_entry (vm.ram at) phys) }

-- The index of the word that the code writes.
pub written_at :
    (vm : Vmm) (d virt : ℕ)
    → IsSound vm
    → d < 1024
    → v2p (
          u32 (
            p2v (page_get_physical_address (load vm (entry_address vm d)))
            + 4 * page_table_index virt))
        / 4
      ≡ page_of (pde vm d) * 1024 + table_index virt
written_at vm d virt s p =
    rw
      (
        load_entry vm d s p,
        page_get_physical_address_lem (pde vm d) (omega (arith, s.entries d p)),
        table_index_lem virt,
      )
      (omega (arith, s.entries d p))

pub map_in_table_lem :
    (vm : Vmm) (d phys virt : ℕ)
    → IsSound vm
    → d < 1024
    → map_in_table vm (entry_address vm d) phys virt ≡ mapped vm d (table_index virt) phys
unfolding map_in_table
map_in_table_lem vm d phys virt s p =
    ap (λ at. record vm { ram = update vm.ram at (mapping_entry (vm.ram at) phys) })
      (written_at vm d virt s p)

module _ (vm : Vmm) (d t phys : ℕ) (s : IsSound vm) (p : d < 1024) (q : t < 1024)
    (there : present (pde vm d) ≡ 1) where
  pde-mapped : (c : ℕ) → c < 1024 → pde (mapped vm d t phys) c ≡ pde vm c
  pde-mapped c r = ground (arith, s.not_directory d p there)

  pte-mapped :
      (c u : ℕ)
      → c < 1024
      → u < 1024
      → present (pde vm c) ≡ 1
      → pte (mapped vm d t phys) c u
        ≡ (if d == c && t == u then mapping_entry (pte vm d t) phys else pte vm c u)
  pte-mapped c u r k here = rw (pde-mapped c r) (elim (Bool-cases (d == c)) [
    | inl same ↦ let e : d ≡ c = (==_iff d c).0 same in rw same (rw (← e) (ground arith))
    | inr other ↦ rw other (ground (arith, s.apart d c p r (==-false→ne d c other) there here))
  ])

  -- The entry that the mapping leaves at a place.
  own :
      (c u : ℕ)
      → c < 1024
      → u < 1024
      → phys % 4096 ≡ 0
      → phys < 2 ^ 31
      → (if present (if d == c && t == u then mapping_entry (pte vm d t) phys else pte vm c u) == 0
          then none
          else some
              (page_of (if d == c && t == u then mapping_entry (pte vm d t) phys else pte vm c u)))
        ≡ (if d == c && t == u
            then some (phys / 4096)
            else if present (pte vm c u) == 0
            then none
            else some (page_of (pte vm c u)))
  own c u r k aligned low = elim (Bool-cases (d == c && t == u)) [
    | inl here ↦
        rw
          (
            here,
            mapping_entry-present (pte vm d t) phys aligned low
                (omega (arith, s.pages d t p q there)),
            mapping_entry-page (pte vm d t) phys aligned low (s.pages d t p q there),
          )
          refl
    | inr elsewhere ↦ rw elsewhere refl
  ]

  pub frame_at-mapped :
      (c u : ℕ)
      → c < 1024
      → u < 1024
      → phys % 4096 ≡ 0
      → phys < 2 ^ 31
      → frame_at (mapped vm d t phys) c u
        ≡ (if d == c && t == u then some (phys / 4096) else frame_at vm c u)
  frame_at-mapped c u r k aligned low = elim (Bool-cases (present (pde vm c) == 0)) [
    | inl missing ↦
        let apart : (d == c) ≡ false =
          ground (arith, ap (λ x. present (pde vm x)) {x = d} {y = c}) in
        rw (pde-mapped c r, missing, apart) refl
    | inr here ↦
        let held : present (pde vm c) ≡ 1 = ground arith in
        rw (pte-mapped c u r k held, pde-mapped c r, here) (own c u r k aligned low)
  ]

  pages-mapped :
      phys < 2 ^ 31
      → (c u : ℕ) → c < 1024
      → u < 1024
      → present (pde vm c) ≡ 1
      → pte (mapped vm d t phys) c u < 2 ^ 31
  pages-mapped low c u r k here =
      let old = s.pages d t p q there in
      let new = mapping_entry-lt 31 (pte vm d t) phys (omega arith) old low in
      rw (pte-mapped c u r k here) (ground (arith, s.pages c u r k here))

  pub mapped-IsSound : phys < 2 ^ 31 → IsSound (mapped vm d t phys)
  mapped-IsSound low = record {
    pmm = s.pmm;
    memory = s.memory;
    directory = s.directory;
    aligned = s.aligned;
    low = s.low;
    directory_used = s.directory_used;
    entries = λ c r. rw (pde-mapped c r) (s.entries c r);
    tables_used = λ c r. rw (pde-mapped c r) (s.tables_used c r);
    not_directory = λ c r. rw (pde-mapped c r) (s.not_directory c r);
    apart = λ c e r k ne. rw (pde-mapped c r, pde-mapped e k) (s.apart c e r k ne);
    pages = λ c u r k here. pages-mapped low c u r k (sym (ap present (pde-mapped c r)) ∙ here);
  }
