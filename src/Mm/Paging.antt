-- ===== src/Mm/Paging.antt =====
-- mm/paging.c: page tables in memory. The kernel reaches a physical address through `p2v`, 3 GB
-- above it; the memory here is indexed by physical addresses in words of 32 bits, and the kernel's
-- mapping of it is taken as given. The bit array of the physical memory manager is kept apart.
pub mod Walk
pub mod Flags
pub mod Mapped
pub mod Cleared
pub mod Extended
pub mod Mapping
pub mod Kept
pub mod Samples
mod Tests
use ten_os.Mm.Memory.{Pmm, alloc_memory_block, free_memory_block}
use ten_os.Mm.Entry.{
  pt_entry_add_attrib, pt_entry_del_attrib, pt_entry_set_frame, pt_entry_pfn, pd_entry_add_attrib,
  pd_entry_set_frame, i86_pte_present, i86_pte_writable, i86_pte_user, i86_pde_present,
  i86_pde_writable, i86_pde_user,
}
use ten_os.Word.{u32, sub_u32, not_u32, ◌>>>◌}
use ten_os.Prelude.{
  ℕ, zero, suc, ◌+◌, ◌*◌, ◌/◌, bit_and, Bool, true, false, ◌||◌, ◌==◌, if◌then◌else◌, update,
}

abbrev pub page_size : ℕ
page_size = 4096

abbrev pub page_directory_index : ℕ → ℕ
page_directory_index x = bit_and (x >>> 22) 0x3ff

abbrev pub page_table_index : ℕ → ℕ
page_table_index x = bit_and (x >>> 12) 0x3ff

abbrev pub page_get_physical_address : ℕ → ℕ
page_get_physical_address e = bit_and e (not_u32 0xfff)

abbrev pub p2v : ℕ → ℕ
p2v addr = u32 (addr + 0xC0000000)

abbrev pub v2p : ℕ → ℕ
v2p addr = sub_u32 addr 0xC0000000

-- The globals of paging.c, the physical memory manager and the memory. A directory is held by
-- its virtual address, 0 for none.
pub record Vmm : Type 0 where
  pub pmm : Pmm
  pub ram : ℕ → ℕ
  pub cur_directory : ℕ
  pub cur_pdbr : ℕ

-- The word at a virtual address of the kernel, and a write to it.
abbrev pub load : Vmm → ℕ → ℕ
load vm at = vm.ram (v2p at / 4)

abbrev pub store : Vmm → ℕ → ℕ → Vmm
store vm at v = record vm { ram = update vm.ram (v2p at / 4) v }

-- The addresses of entries, 0 if there is no table.
pub vmmngr_ptable_lookup_entry : ℕ → ℕ → ℕ
vmmngr_ptable_lookup_entry p addr = if p == 0 then 0 else u32 (p + 4 * page_table_index addr)

pub vmmngr_pdirectory_lookup_entry : ℕ → ℕ → ℕ
vmmngr_pdirectory_lookup_entry p addr =
    if p == 0 then 0 else u32 (p + 4 * page_directory_index addr)

-- The new state, and 1 or 0. Loading the register is `cur_pdbr`'s value.
unfoldable pub vmmngr_switch_pdirectory : Vmm → ℕ → ℕ × Vmm
vmmngr_switch_pdirectory vm dir_phys =
    if dir_phys == 0 then (0, vm) else (1, record vm { cur_pdbr = dir_phys })

abbrev pub vmmngr_get_directory : Vmm → ℕ
vmmngr_get_directory vm = vm.cur_directory

-- `memset` to 0 of the 1024 words of a table.
pub clear_table : ℕ → ℕ → Vmm → Vmm
clear_table zero at vm = vm
clear_table (suc left) at vm = clear_table left (u32 (at + 4)) (store vm at 0)

-- The block that gives the directory entry at `e` a new, empty table. `false` is its early
-- return; the test `if (!table)` is on `p2v table_phys`.
pub new_table : Vmm → ℕ → Bool × Vmm
new_table vm e =
    let (table_phys, pmm') = alloc_memory_block vm.pmm in
    let table = p2v table_phys in
    let vm' = record vm { pmm = pmm' } in
    if table == 0
    then (false, vm')
    else let cleared = clear_table 1024 table vm' in
      let entry =
        pd_entry_add_attrib
          (pd_entry_add_attrib
            (pd_entry_add_attrib (pd_entry_set_frame (load cleared e) table_phys) i86_pde_present)
            i86_pde_writable)
          i86_pde_user in
      (true, store cleared e entry)

-- The end of `vmmngr_map_page`, from the line that reads the table's address.
unfoldable pub map_in_table : Vmm → ℕ → ℕ → ℕ → Vmm
map_in_table vm e phys virt =
    let table = p2v (page_get_physical_address (load vm e)) in
    let page = u32 (table + 4 * page_table_index virt) in
    let entry =
      pt_entry_add_attrib
        (pt_entry_add_attrib
          (pt_entry_add_attrib (pt_entry_set_frame (load vm page) phys) i86_pte_present)
          i86_pte_writable)
        i86_pte_user in
    store vm page entry

unfoldable pub vmmngr_map_page : Vmm → ℕ → ℕ → Vmm
vmmngr_map_page vm phys virt =
    if phys == 0 || virt == 0
    then vm
    else let e = u32 (vmmngr_get_directory vm + 4 * page_directory_index virt) in
      if bit_and (load vm e) i86_pte_present == 0
      then (let (made, vm') = new_table vm e in if made then map_in_table vm' e phys virt else vm')
      else map_in_table vm e phys virt

-- The virtual address of a new page, 0 if there is no block for it.
unfoldable pub vmmngr_alloc_page : Vmm → ℕ × Vmm
vmmngr_alloc_page vm =
    let (phys, pmm') = alloc_memory_block vm.pmm in
    if phys == 0
    then (0, record vm { pmm = pmm' })
    else (p2v phys, vmmngr_map_page (record vm { pmm = pmm' }) phys (p2v phys))

-- `e` is the address of a table entry.
pub vmmngr_free_page : Vmm → ℕ → Vmm
vmmngr_free_page vm e =
    if e == 0
    then vm
    else let p = pt_entry_pfn (load vm e) in
      let vm' = if p == 0 then vm else record vm { pmm = free_memory_block vm.pmm p } in
      store vm' e (pt_entry_del_attrib (load vm' e) i86_pte_present)
