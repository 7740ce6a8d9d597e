-- ===== src/Mm/Paging/Mapping.antt =====
-- vmmngr_map_page and vmmngr_alloc_page, as the processor sees them.
use ten_os.Mm.Paging.{
  Vmm, p2v, page_directory_index, vmmngr_get_directory, map_in_table, vmmngr_map_page,
  vmmngr_alloc_page,
}
use ten_os.Mm.Paging.Walk.{
  present, page_of, dir_index, table_index, pde, frame_at, offset_in, translate, IsSound,
}
use ten_os.Mm.Paging.Mapped.{
  entry_address, load_entry, dir_index_lem, mapped, map_in_table_lem, frame_at-mapped,
  mapped-IsSound,
}
use ten_os.Mm.Paging.Extended.{
  extended, new_table_lem, extended-present, frame_at-extended, extended-IsSound, fresh-ne,
}
use ten_os.Mm.Memory.{alloc_memory_block}
use ten_os.Mm.Memory.Alloc.{Takes, taken, alloc_memory_block-IsValid}
use ten_os.Word.{u32}
use ten_os.Word.Bits.{bit_and-mask}
use ten_os.Prelude.{
  ℕ, ◌+◌, ◌*◌, ◌/◌, ◌%◌, ◌^◌, ◌<◌, ◌≡◌, ◌≢◌, ◌⊎◌, ◌==◌, ◌&&◌, some, Bool-cases, inl, inr, ==_iff,
  ne→==-false, false, refl, ap, ◌∙◌, arith,
}

-- `virt` is mapped to `phys`, the mapping of every other page is that of before, and the tables are
-- sound.
pub record Maps (phys virt : ℕ) (vm vm' : Vmm) : Type 0 where
  pub sound : IsSound vm'
  pub target : translate vm' virt ≡ some (phys + virt % 4096)
  pub others : (v : ℕ) → v < 2 ^ 32 → v / 4096 ≢ virt / 4096 → translate vm' v ≡ translate vm v

mapped-Maps :
    (vm : Vmm) (phys virt : ℕ)
    → IsSound vm
    → phys % 4096 ≡ 0
    → phys < 2 ^ 31
    → virt < 2 ^ 32
    → present (pde vm (dir_index virt)) ≡ 1
    → Maps phys virt vm (mapped vm (dir_index virt) (table_index virt) phys)
mapped-Maps vm phys virt s aligned low word there =
    let d = dir_index virt in
    let t = table_index virt in
    let p : d < 1024 = omega arith in
    let q : t < 1024 = omega arith in
    let own : frame_at (mapped vm d t phys) d t ≡ some (phys / 4096) =
      frame_at-mapped vm d t phys s p q there d t p q aligned low
      ∙ rw ((==_iff d d).1 refl, (==_iff t t).1 refl) refl in
    let other : (v : ℕ)
        → v < 2 ^ 32
        → v / 4096 ≢ virt / 4096
        → frame_at (mapped vm d t phys) (dir_index v) (table_index v)
          ≡ frame_at vm (dir_index v) (table_index v) =
      λ v w ne.
        let apart : (d == dir_index v && t == table_index v) ≡ false = ground arith in
        frame_at-mapped vm d t phys s p q there (dir_index v) (table_index v) (omega arith)
          (omega arith) aligned low
        ∙ rw apart refl in
    record {
      sound = mapped-IsSound vm d t phys s p q there low;
      target = ap (offset_in virt) own ∙ ap some (omega arith);
      others = λ v w ne. ap (offset_in v) (other v w ne);
    }

-- The mapping behind a step that changes no translation.
Maps-after :
    (vm later out : Vmm) (phys virt : ℕ)
    → ((v : ℕ) → v < 2 ^ 32 → translate later v ≡ translate vm v)
    → Maps phys virt later out
    → Maps phys virt vm out
Maps-after vm later out phys virt same m = record {
  sound = m.sound;
  target = m.target;
  others = λ v w ne. m.others v w ne ∙ same v w;
}

-- The new table, and the mapping in it.
new_table-Maps :
    (vm : Vmm) (phys virt f : ℕ)
    → IsSound vm
    → phys % 4096 ≡ 0
    → phys < 2 ^ 31
    → virt < 2 ^ 32
    → present (pde vm (dir_index virt)) ≡ 0
    → Takes vm.pmm f (alloc_memory_block vm.pmm)
    → Maps phys virt vm (
        map_in_table
          (extended vm (alloc_memory_block vm.pmm).1 (dir_index virt) f)
          (entry_address vm (dir_index virt))
          phys
          virt)
new_table-Maps vm phys virt f s aligned low word missing t =
    let d = dir_index virt in
    let p : d < 1024 = omega arith in
    let later = extended vm (alloc_memory_block vm.pmm).1 d f in
    let sound = extended-IsSound vm d f s p missing t in
    rw (map_in_table_lem later d phys virt sound p) (
      Maps-after vm later _ phys virt
        (λ v w. ap (offset_in v) (
          frame_at-extended vm d f s p missing t (dir_index v) (table_index v) (omega arith)
            (omega arith)))
        (mapped-Maps later phys virt sound aligned low word
          (extended-present vm d f s p missing t)))

-- The address of the directory's entry, as `vmmngr_map_page` computes it.
pub directory_address :
    (vm : Vmm) (virt : ℕ)
    → IsSound vm
    → virt < 2 ^ 32
    → u32 (vmmngr_get_directory vm + 4 * page_directory_index virt)
      ≡ entry_address vm (dir_index virt)
directory_address vm virt s word = rw (dir_index_lem virt word, s.directory) (omega (arith, s.low))

-- For sound page tables, a page of physical memory below 2 GB that is not page 0, and an address
-- that is not null, when the directory has a table for the address or a block for one is free:
-- after `vmmngr_map_page` the processor translates the address to the page, and every address
-- outside this page as before, and the tables are sound.
pub vmmngr_map_page-Maps :
    (vm : Vmm) (phys virt : ℕ)
    → IsSound vm
    → phys ≢ 0
    → virt ≢ 0
    → phys % 4096 ≡ 0
    → phys < 2 ^ 31
    → virt < 2 ^ 32
    → (present (pde vm (dir_index virt)) ≡ 1) ⊎ ((alloc_memory_block vm.pmm).0 ≢ 0)
    → Maps phys virt vm (vmmngr_map_page vm phys virt)
unfolding vmmngr_map_page
vmmngr_map_page-Maps vm phys virt s p q aligned low word room =
    let d = dir_index virt in
    let inside : d < 1024 = omega arith in
    rw
      (
        ne→==-false phys 0 p,
        ne→==-false virt 0 q,
        directory_address vm virt s word,
        load_entry vm d s inside,
        bit_and-mask 1 (pde vm d),
      )
      (elim (Bool-cases (present (pde vm d) == 0)) [
        | inl missing ↦
            let got : (alloc_memory_block vm.pmm).0 ≢ 0 = elim room [
              | inl there ↦ absurd (ground arith)
              | inr got ↦ got
            ] in
            let (f, t) = taken vm.pmm s.pmm got in
            rw
              (
                missing,
                new_table_lem vm d f s inside t.address (omega (arith, t.in_range, s.memory))
                    (fresh-ne vm f (page_of vm.cur_pdbr) t s.directory_used),
              )
              (new_table-Maps vm phys virt f s aligned low word (ground arith) t)
        | inr there ↦
            rw (there, map_in_table_lem vm d phys virt s inside)
              (mapped-Maps vm phys virt s aligned low word (ground arith))
      ])

-- A block more in use leaves the tables sound.
taken-IsSound :
    (vm : Vmm) (f : ℕ)
    → IsSound vm
    → Takes vm.pmm f (alloc_memory_block vm.pmm)
    → IsSound (record vm { pmm = (alloc_memory_block vm.pmm).1 })
taken-IsSound vm f s t = record {
  pmm = alloc_memory_block-IsValid vm.pmm s.pmm;
  memory = omega (arith, s.memory, t.same_blocks);
  directory = s.directory;
  aligned = s.aligned;
  low = s.low;
  directory_used = ground (arith, t.marks (page_of vm.cur_pdbr), s.directory_used);
  entries = s.entries;
  tables_used = λ d p there. ground (arith, t.marks (page_of (pde vm d)), s.tables_used d p there);
  not_directory = s.not_directory;
  apart = s.apart;
  pages = s.pages;
}

-- For sound page tables, when a block is free, and the directory has a table for the kernel's address
-- of that block or another block is free for one: `vmmngr_alloc_page` takes the lowest free block
-- and returns its address above 3 GB, which the processor then translates to the block, every
-- other page as before, and the tables are sound.
pub vmmngr_alloc_page-Maps :
    (vm : Vmm)
    → IsSound vm
    → (alloc_memory_block vm.pmm).0 ≢ 0
    → (present (pde vm (dir_index (p2v (alloc_memory_block vm.pmm).0))) ≡ 1)
      ⊎ ((alloc_memory_block (alloc_memory_block vm.pmm).1).0 ≢ 0)
    → let (address, vm') = vmmngr_alloc_page vm in
      (f : ℕ) × Takes vm.pmm f (alloc_memory_block vm.pmm)
      × (address ≡ 0xC0000000 + f * 4096)
      × Maps (f * 4096) address vm vm'
unfolding vmmngr_alloc_page
vmmngr_alloc_page-Maps vm s got room =
    let (f, t) = taken vm.pmm s.pmm got in
    let bound : f * 4096 < 2 ^ 30 = omega (arith, t.in_range, s.memory) in
    let block : (alloc_memory_block vm.pmm).0 ≡ f * 4096 = t.address in
    let some_block : (f * 4096 == 0) ≡ false = ground (arith, t.not_null) in
    let high : p2v (f * 4096) ≡ 0xC0000000 + f * 4096 = omega arith in
    let later = record vm { pmm = (alloc_memory_block vm.pmm).1 } in
    (
      f,
      t,
      rw (block, some_block, high) refl,
      rw (block, some_block, high)
          (Maps-after vm later _ (f * 4096) (0xC0000000 + f * 4096) (λ v w. refl)
            (vmmngr_map_page-Maps later (f * 4096) (0xC0000000 + f * 4096) (taken-IsSound vm f s t)
              (omega (arith, t.not_null)) (omega arith) (omega arith) (omega arith) (omega arith)
              (rw (block, high) at room))),
    )
