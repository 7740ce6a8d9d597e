-- ===== src/Mm/Initialize.antt =====
-- vmmngr_initialize of mm/paging.c: the kernel's own page directory. `boot_pd_phys` is what CR3
-- holds before; messages are left out, and writing CR3 back changes no state of the model.
pub mod Window
pub mod Extension
pub mod Identity
pub mod Linear
mod Words
mod Copy
mod Filled
mod Boot
mod Round
mod Tables
mod Start
mod Handover
mod Tests
use ten_os.Mm.Entry.{
  pd_entry_add_attrib, pd_entry_set_frame, i86_pde_present, i86_pde_writable, i86_pde_user,
  i86_pte_present,
}
use ten_os.Mm.Memory.{alloc_memory_block}
use ten_os.Mm.Paging.{
  Vmm, load, store, p2v, page_size, page_directory_index, page_table_index,
  page_get_physical_address, clear_table, vmmngr_map_page, vmmngr_switch_pdirectory,
}
use ten_os.Word.{u32}
use ten_os.Prelude.{
  ℕ, zero, suc, ◌+◌, ◌*◌, ◌/◌, bit_and, Bool, true, false, ltb, not, ◌==◌, ◌&&◌, if◌then◌else◌,
}

-- `new_table->m_entries[j] = old_table->m_entries[j]`, from `j` on.
pub copy_words : ℕ → ℕ → ℕ → ℕ → Vmm → Vmm
copy_words zero j old new vm = vm
copy_words (suc left) j old new vm =
    copy_words left (j + 1) old new (store vm (u32 (new + 4 * j)) (load vm (u32 (old + 4 * j))))

-- A round of the loop over the boot directory, with the addresses of both directories.
pub copy_table : ℕ → ℕ → ℕ → Vmm → Vmm
copy_table boot_pd new_pd i vm =
    let boot_pde = u32 (boot_pd + 4 * i) in
    let (new_table_phys, pmm') = alloc_memory_block vm.pmm in
    let new = p2v new_table_phys in
    let cleared = clear_table 1024 new (record vm { pmm = pmm' }) in
    let old = p2v (page_get_physical_address (load cleared boot_pde)) in
    let copied = copy_words 1024 0 old new cleared in
    let e = u32 (new_pd + 4 * i) in
    let entry =
      pd_entry_add_attrib
        (pd_entry_add_attrib
          (pd_entry_add_attrib (pd_entry_set_frame (load copied e) new_table_phys) i86_pde_present)
          i86_pde_writable)
        i86_pde_user in
    if bit_and (load vm boot_pde) i86_pde_present == 0 then vm else store copied e entry

pub copy_tables : ℕ → ℕ → ℕ → ℕ → Vmm → Vmm
copy_tables zero i boot_pd new_pd vm = vm
copy_tables (suc left) i boot_pd new_pd vm =
    copy_tables left (i + 1) boot_pd new_pd (copy_table boot_pd new_pd i vm)

-- The test that ends a round of the loop over physical addresses early: the page is mapped.
pub is_mapped : ℕ → ℕ → Vmm → Bool
is_mapped directory virt vm =
    let pde = load vm (u32 (directory + 4 * page_directory_index virt)) in
    let table = p2v (page_get_physical_address pde) in
    not (bit_and pde i86_pde_present == 0)
    && not (bit_and (load vm (u32 (table + 4 * page_table_index virt))) i86_pte_present == 0)

pub extend_page : ℕ → ℕ → Vmm → Vmm
extend_page directory phys vm =
    let virt = u32 (0xC0000000 + phys) in
    if is_mapped directory virt vm then vm else vmmngr_map_page vm phys virt

-- The loop, with rounds that are left: each takes a page of `total_memory`.
pub extend_from : ℕ → ℕ → ℕ → ℕ → Vmm → Vmm
extend_from zero phys total_memory directory vm = vm
extend_from (suc left) phys total_memory directory vm =
    let rest =
      extend_from left (phys + page_size) total_memory directory (extend_page directory phys vm) in
    if ltb phys total_memory then rest else vm

-- The end: the first table is cleared and leaves the directory.
pub remove_identity : ℕ → Vmm → Vmm
remove_identity directory vm =
    let pde = load vm directory in
    let table = p2v (page_get_physical_address pde) in
    if bit_and pde i86_pde_present == 0 then vm else store (clear_table 1024 table vm) directory 0

pub vmmngr_initialize : ℕ → ℕ → Vmm → Vmm
vmmngr_initialize total_memory boot_pd_phys vm =
    let boot_pd = p2v boot_pd_phys in
    let total = if ltb 0x40000000 total_memory then 0x40000000 else total_memory in
    let (new_pd_phys, pmm') = alloc_memory_block vm.pmm in
    let new_pd = p2v new_pd_phys in
    let empty = clear_table 1024 new_pd (record vm { pmm = pmm' }) in
    let copied = copy_tables 1024 0 boot_pd new_pd empty in
    let chosen = record copied { cur_directory = new_pd; cur_pdbr = new_pd_phys } in
    let switched = (vmmngr_switch_pdirectory chosen new_pd_phys).1 in
    let extended = extend_from (total / page_size) 0x400000 total new_pd switched in
    if new_pd_phys == 0 then record vm { pmm = pmm' } else remove_identity new_pd extended
