-- ===== src/Mm/Paging/Tests.antt =====
-- The witnesses of the theorems on mapping.
use ten_os.Mm.Paging.{vmmngr_map_page, vmmngr_alloc_page}
use ten_os.Mm.Paging.Samples.{vm, vm-IsSound, block-run, next-run}
use ten_os.Mm.Paging.Mapping.{Maps, vmmngr_map_page-Maps, vmmngr_alloc_page-Maps}
use ten_os.Mm.Memory.{alloc_memory_block}
use ten_os.Mm.Memory.Alloc.{Takes}
use ten_os.Prelude.{ℕ, ◌+◌, ◌*◌, ◌≡◌, refl, inr, arith}

vmmngr_map_page-Maps_example : Maps 0x5000 0x400000 vm (vmmngr_map_page vm 0x5000 0x400000)
vmmngr_map_page-Maps_example =
    vmmngr_map_page-Maps vm 0x5000 0x400000 vm-IsSound (omega arith) (omega arith) refl
      (omega arith) (omega arith) (inr (λ e. omega (arith, block-run)))

vmmngr_alloc_page-Maps_example :
    let (address, vm') = vmmngr_alloc_page vm in
    (f : ℕ) × Takes vm.pmm f (alloc_memory_block vm.pmm)
    × (address ≡ 0xC0000000 + f * 4096)
    × Maps (f * 4096) address vm vm'
vmmngr_alloc_page-Maps_example =
    vmmngr_alloc_page-Maps vm vm-IsSound (λ e. omega (arith, block-run))
      (inr (λ e. omega (arith, next-run)))
