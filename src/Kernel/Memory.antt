-- ===== src/Kernel/Memory.antt =====
-- The bit array's place, and the manager that the loop over the memory map leaves.
use ten_os.Kernel.{
  MultibootInfo, MemoryRegion, bitmap_addr, mem_size, region_type, map_regions, setup_memory,
}
use ten_os.Mm.Memory.{Pmm, init_mem_mngr, init_memory_region}
use ten_os.Mm.Memory.Alloc.{IsValid}
use ten_os.Mm.Memory.Setup.{
  init_mem_mngr_lem, init_mem_mngr-IsValid, init_memory_region_lem, init_memory_region-IsValid,
}
use ten_os.Mm.Paging.Flags.{page_get_physical_address_lem}
use ten_os.Word.{u32}
use ten_os.Prelude.{
  ℕ, zero, suc, ◌+◌, ◌*◌, ◌/◌, ◌%◌, ◌^◌, ◌≤◌, ◌<◌, ◌≡◌, refl, ◌∙◌, Bool-cases, inl, inr, ltb, ◌==◌,
  ◌&&◌, arith,
}

-- The bit array starts on a page boundary, at the end of the kernel or less than a page behind it, if
-- the kernel ends at least a page below 4 GB.
bitmap_addr_lem :
    (kernel_end : ℕ)
    → kernel_end + 4096 ≤ 2 ^ 32
    → (bitmap_addr kernel_end % 4096 ≡ 0)
      × (kernel_end ≤ bitmap_addr kernel_end)
      × (bitmap_addr kernel_end < kernel_end + 4096)
bitmap_addr_lem kernel_end h =
    let e = page_get_physical_address_lem (u32 (kernel_end + 0xFFF)) (omega arith) in
    (omega (arith, e), omega (arith, e), omega (arith, e))

-- The loop keeps a manager valid, and its number of blocks.
map_regions-IsValid :
    (left i : ℕ) (region : ℕ → MemoryRegion) (m : Pmm)
    → ((k : ℕ) → (region k).size_lo < 2 ^ 32)
    → IsValid m
    → IsValid (map_regions left i region m)
      × ((map_regions left i region m).max_blocks ≡ m.max_blocks)
unfolding map_regions
map_regions-IsValid zero i region m small v = (v, refl)
map_regions-IsValid (suc left) i region m small v =
    let r = region i in
    elim (Bool-cases (ltb 0 i && r.start_lo == 0)) [
      | inl stop ↦ rw stop (v, refl)
      | inr go ↦ elim (Bool-cases (region_type r == 1)) [
        | inl free ↦
            let ih =
              map_regions-IsValid left (i + 1) region (init_memory_region m r.start_lo r.size_lo)
                small (init_memory_region-IsValid m r.start_lo r.size_lo (small i) v) in
            let l = init_memory_region_lem m r.start_lo r.size_lo v.counter (small i) in
            rw (go, free) (ih.0, ih.1 ∙ l.2)
        | inr held ↦ rw (go, held) (map_regions-IsValid left (i + 1) region m small v)
      ]
    ]

-- For every memory map with sizes below 4 GB and every memory of less than 4 GB whose size is no
-- multiple of 4 MB, `main` leaves a valid manager, which has 256 blocks for each KB by which the
-- size passes a multiple of 4 MB.
pub setup_memory_lem :
    (bootinfo : MultibootInfo) (region : ℕ → MemoryRegion) (ram : ℕ → ℕ)
    → ((k : ℕ) → (region k).size_lo < 2 ^ 32)
    → 1024 + bootinfo.memory_lo + bootinfo.memory_hi * 64 < 2 ^ 22
    → 0 < (1024 + bootinfo.memory_lo + bootinfo.memory_hi * 64) % 4096
    → let m = setup_memory bootinfo region ram in
      (m.max_blocks ≡ (1024 + bootinfo.memory_lo + bootinfo.memory_hi * 64) % 4096 * 256)
      × IsValid m
unfolding setup_memory
setup_memory_lem bootinfo region ram small fits some_blocks =
    let size = mem_size bootinfo in
    let valid = init_mem_mngr-IsValid ram size (omega arith) in
    let l = init_mem_mngr_lem ram size in
    let kept =
      map_regions-IsValid (bootinfo.mmap_length / 24) 0 region (init_mem_mngr ram size) small
        valid in
    (kept.1 ∙ l.1 ∙ omega arith, kept.0)
