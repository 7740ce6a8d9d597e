-- ===== src/Mm/Paging/Kept.antt =====
-- What `vmmngr_map_page` leaves, with the allocator and the address of the directory.
use ten_os.Mm.Paging.{Vmm, vmmngr_map_page}
use ten_os.Mm.Paging.Walk.{present, page_of, pde, dir_index, IsSound}
use ten_os.Mm.Paging.Mapped.{map_in_table_lem, load_entry}
use ten_os.Mm.Paging.Extended.{extended, new_table_lem, fresh-ne, extended-IsSound}
use ten_os.Mm.Paging.Mapping.{directory_address}
use ten_os.Mm.Memory.{alloc_memory_block}
use ten_os.Mm.Memory.Alloc.{taken}
use ten_os.Word.Bits.{bit_and-mask}
use ten_os.Prelude.{
  ℕ, ◌^◌, ◌<◌, ◌≡◌, ◌≢◌, ◌⊎◌, ◌==◌, inl, inr, Bool-cases, ne→==-false, refl, arith,
}

-- The allocator after a mapping, and that the directory stays.
pub record Keeps (virt : ℕ) (vm vm' : Vmm) : Type 0 where
  pub directory : vm'.cur_directory ≡ vm.cur_directory
  pub blocks :
      ((present (pde vm (dir_index virt)) ≡ 1) × (vm'.pmm ≡ vm.pmm))
      ⊎ ((present (pde vm (dir_index virt)) ≡ 0) × (vm'.pmm ≡ (alloc_memory_block vm.pmm).1))

pub vmmngr_map_page-Keeps :
    (vm : Vmm) (phys virt : ℕ)
    → IsSound vm
    → phys ≢ 0
    → virt ≢ 0
    → virt < 2 ^ 32
    → (present (pde vm (dir_index virt)) ≡ 1) ⊎ ((alloc_memory_block vm.pmm).0 ≢ 0)
    → Keeps virt vm (vmmngr_map_page vm phys virt)
unfolding vmmngr_map_page
vmmngr_map_page-Keeps vm phys virt s p q word room =
    let d = dir_index virt in
    let inside : d < 1024 = omega arith in
    rw
      (
        ne→==-false phys 0 p,
        ne→==-false virt 0 q,
        directory_address vm virt s word,
        load_entry vm d s inside,
        bit_and-mask 1 (pde vm d),
      )
      (elim (Bool-cases (present (pde vm d) == 0)) [
        | inl missing ↦
            let got : (alloc_memory_block vm.pmm).0 ≢ 0 = elim room [
              | inl there ↦ absurd (ground arith)
              | inr got ↦ got
            ] in
            let (f, t) = taken vm.pmm s.pmm got in
            let sound = extended-IsSound vm d f s inside (ground arith) t in
            rw
              (
                missing,
                new_table_lem vm d f s inside t.address (omega (arith, t.in_range, s.memory))
                    (fresh-ne vm f (page_of vm.cur_pdbr) t s.directory_used),
                map_in_table_lem (extended vm (alloc_memory_block vm.pmm).1 d f) d phys virt sound
                    inside,
              )
              (record { directory = refl; blocks = inr (ground arith, refl) })
        | inr there ↦
            rw (there, map_in_table_lem vm d phys virt s inside)
              (record { directory = refl; blocks = inl (ground arith, refl) })
      ])
