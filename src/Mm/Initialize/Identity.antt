-- ===== src/Mm/Initialize/Identity.antt =====
-- The end of vmmngr_initialize: the first 4 MB are no longer mapped.
use ten_os.Mm.Initialize.{remove_identity}
use ten_os.Mm.Paging.{Vmm, load, v2p, p2v}
use ten_os.Mm.Paging.Walk.{
  present, page_of, pde, pte, frame_at, offset_in, dir_index, table_index, translate, IsSound,
}
use ten_os.Mm.Paging.Flags.{page_get_physical_address_lem}
use ten_os.Mm.Paging.Cleared.{cleared, clear_table_lem}
use mathlib.Core.Path.{subst}
use ten_os.Word.Bits.{bit_and-mask}
use ten_os.Prelude.{
  ℕ, ◌+◌, ◌*◌, ◌/◌, ◌^◌, ◌≤◌, ◌<◌, ◌≡◌, ◌≢◌, ◌==◌, none, if◌then◌else◌, inl, inr, Bool-cases, true,
  false, update, ==-false→ne, ne→==-false, refl, ap, ◌∙◌, arith,
}

-- The memory behind the removal of a table that is there.
abbrev removed : Vmm → Vmm
removed vm = record vm {
  ram = update (cleared vm.ram (page_of (pde vm 0) * 1024) 1024) (page_of vm.cur_pdbr * 1024) 0;
}

remove_identity-empty :
    (vm : Vmm) → IsSound vm → present (pde vm 0) ≡ 0 → remove_identity vm.cur_directory vm ≡ vm
unfolding remove_identity
remove_identity-empty vm s missing =
    let loaded : load vm vm.cur_directory ≡ pde vm 0 =
      ap vm.ram (omega (arith, s.directory, s.aligned, s.low)) in
    rw (loaded, bit_and-mask 1 (pde vm 0), missing) refl

remove_identity-removed :
    (vm : Vmm)
    → IsSound vm
    → present (pde vm 0) ≡ 1
    → remove_identity vm.cur_directory vm ≡ removed vm
unfolding remove_identity
remove_identity-removed vm s there =
    let at : v2p vm.cur_directory / 4 ≡ page_of vm.cur_pdbr * 1024 =
      omega (arith, s.directory, s.aligned, s.low) in
    let loaded : load vm vm.cur_directory ≡ pde vm 0 =
      ap vm.ram (omega (arith, s.directory, s.aligned, s.low)) in
    let small : pde vm 0 < 2 ^ 30 = s.entries 0 (omega arith) in
    let table : p2v (page_of (pde vm 0) * 4096) ≡ 0xC0000000 + 4 * (page_of (pde vm 0) * 1024) =
      omega arith in
    let is_there : (present (pde vm 0) == 0) ≡ false = ground arith in
    rw
      (
        loaded,
        page_get_physical_address_lem (pde vm 0) (omega arith),
        table,
        clear_table_lem 1024 (page_of (pde vm 0) * 1024) vm (omega arith),
        bit_and-mask 1 (pde vm 0),
        is_there,
        at,
      )
      refl

module _ (vm : Vmm) (s : IsSound vm) (there : present (pde vm 0) ≡ 1) where
  pde-removed : (d : ℕ) → d < 1024 → pde (removed vm) d ≡ (if d == 0 then 0 else pde vm d)
  pde-removed d p = ground (arith, s.not_directory 0 (omega arith) there)

  pte-removed :
      (d t : ℕ)
      → d < 1024
      → t < 1024
      → d ≢ 0
      → present (pde vm d) ≡ 1
      → pte (removed vm) d t ≡ pte vm d t
  pte-removed d t p q ne here =
      rw (pde-removed d p, ne→==-false d 0 ne)
        (ground (arith, s.not_directory d p here, s.apart d 0 p (omega arith) ne here there))

  frame_at-removed :
      (d t : ℕ)
      → d < 1024
      → t < 1024
      → frame_at (removed vm) d t ≡ (if d == 0 then none else frame_at vm d t)
  frame_at-removed d t p q = elim (Bool-cases (d == 0)) [
    | inl first ↦ rw (pde-removed d p, first) refl
    | inr other ↦ elim (Bool-cases (present (pde vm d) == 0)) [
      | inl missing ↦ rw (pde-removed d p, other, missing) refl
      | inr here ↦
          rw
            (
              pte-removed d t p q (==-false→ne d 0 other) (ground arith),
              pde-removed d p,
              other,
              here,
            )
            refl
    ]
  ]

  -- An entry that is still there is none but the first, and as before.
  not_first : (d : ℕ) → d < 1024 → present (pde (removed vm) d) ≡ 1 → d ≢ 0
  not_first d p here e = ground (arith, pde-removed d p)

  kept : (d : ℕ) → d < 1024 → present (pde (removed vm) d) ≡ 1 → pde (removed vm) d ≡ pde vm d
  kept d p here = pde-removed d p ∙ rw (ne→==-false d 0 (not_first d p here)) refl

  was_there : (d : ℕ) → d < 1024 → present (pde (removed vm) d) ≡ 1 → present (pde vm d) ≡ 1
  was_there d p here = omega (arith, kept d p here)

  removed-IsSound : IsSound (removed vm)
  removed-IsSound = record {
    pmm = s.pmm;
    memory = s.memory;
    directory = s.directory;
    aligned = s.aligned;
    low = s.low;
    directory_used = s.directory_used;
    entries = λ d p. ground (arith, pde-removed d p, s.entries d p);
    tables_used = λ d p here. rw (kept d p here) (s.tables_used d p (was_there d p here));
    not_directory = λ d p here. rw (kept d p here) (s.not_directory d p (was_there d p here));
    apart = λ d c p q ne here here'.
        rw (kept d p here, kept c q here')
          (s.apart d c p q ne (was_there d p here) (was_there c q here'));
    pages = λ d t p q here.
        rw (pte-removed d t p q (not_first d p here) (was_there d p here))
          (s.pages d t p q (was_there d p here));
  }

-- What the removal leaves: no address of the first 4 MB is translated, and the others as before.
pub record Unmaps (vm vm' : Vmm) : Type 0 where
  pub sound : IsSound vm'
  pub low : (v : ℕ) → v < 2 ^ 22 → translate vm' v ≡ none
  pub others : (v : ℕ) → 2 ^ 22 ≤ v → v < 2 ^ 32 → translate vm' v ≡ translate vm v

removed-Unmaps : (vm : Vmm) → IsSound vm → present (pde vm 0) ≡ 1 → Unmaps vm (removed vm)
removed-Unmaps vm s there = record {
  sound = removed-IsSound vm s there;
  low = λ v p.
      let first : (dir_index v == 0) ≡ true = ground arith in
      ap (offset_in v) {y = none} (
        frame_at-removed vm s there (dir_index v) (table_index v) (omega arith) (omega arith)
        ∙ rw first refl);
  others = λ v p q.
      let other : (dir_index v == 0) ≡ false = ground arith in
      ap (offset_in v) {y = frame_at vm (dir_index v) (table_index v)} (
        frame_at-removed vm s there (dir_index v) (table_index v) (omega arith) (omega arith)
        ∙ rw other refl);
}

-- Whether the first table is there or not.
pub remove_identity-Unmaps :
    (vm : Vmm) (directory : ℕ)
    → IsSound vm
    → vm.cur_directory ≡ directory
    → Unmaps vm (remove_identity directory vm)
remove_identity-Unmaps vm directory s own =
    subst (λ d. Unmaps vm (remove_identity d vm)) own
      (elim (Bool-cases (present (pde vm 0) == 0)) [
        | inl missing ↦ rw (remove_identity-empty vm s (ground arith)) (record {
          sound = s;
          low = λ v p.
              let first : dir_index v ≡ 0 = omega arith in
              ap (offset_in v) {y = none} (rw (first, missing) refl);
          others = λ v p q. refl;
        })
        | inr there ↦
            rw (remove_identity-removed vm s (ground arith)) (removed-Unmaps vm s (ground arith))
      ])
