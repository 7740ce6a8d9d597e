-- ===== src/Kernel.antt =====
-- kernel/kernel.c: the memory that the kernel finds at its start.
pub mod Memory
mod Tests
use ten_os.Mm.Memory.{Pmm, init_mem_mngr, init_memory_region}
use ten_os.Word.{u32, not_u32}
use ten_os.Prelude.{
  ℕ, zero, suc, ◌+◌, ◌*◌, ◌/◌, bit_and, List, [], ◌∷◌, Bool, ltb, ◌==◌, ◌&&◌, if◌then◌else◌,
}

-- The fields of multiboot_info and of memory_region that `main` uses.
pub record MultibootInfo : Type 0 where
  pub memory_lo : ℕ
  pub memory_hi : ℕ
  pub mmap_length : ℕ

pub record MemoryRegion : Type 0 where
  pub start_lo : ℕ
  pub size_lo : ℕ
  pub type : ℕ

-- The place of the bit array: the first page boundary behind the kernel.
abbrev pub bitmap_addr : ℕ → ℕ
bitmap_addr kernel_end = bit_and (u32 (kernel_end + 0xFFF)) (not_u32 0xFFF)

-- `memSize` behind both lines that compute it.
abbrev pub mem_size : MultibootInfo → ℕ
mem_size bootinfo = u32 (u32 (1024 + bootinfo.memory_lo + u32 (bootinfo.memory_hi * 64)) * 1024)

-- An unknown type becomes 1.
abbrev pub region_type : MemoryRegion → ℕ
region_type region = if ltb 4 region.type then 1 else region.type

-- The loop over the regions, from index `i` on, with the rounds that are left: it stops at a region that
-- starts at 0 and is not the first.
pub map_regions : ℕ → ℕ → (ℕ → MemoryRegion) → Pmm → Pmm
map_regions zero i region m = m
map_regions (suc left) i region m =
    let r = region i in
    let m' = if region_type r == 1 then init_memory_region m r.start_lo r.size_lo else m in
    let rest = map_regions left (i + 1) region m' in if ltb 0 i && r.start_lo == 0 then m else rest

-- The part of `main` that sets the physical memory manager up; `ram` is what the bit array holds before.
pub setup_memory : MultibootInfo → (ℕ → MemoryRegion) → (ℕ → ℕ) → Pmm
setup_memory bootinfo region ram =
    map_regions (bootinfo.mmap_length / 24) 0 region (init_mem_mngr ram (mem_size bootinfo))
