-- ===== src/Mm/Entry.antt =====
-- mm/vmmngr_pte.c and mm/vmmngr_pde.c: the entries of page tables and of page directories.
pub mod Fields
mod Tests
use ten_os.Word.{not_u32}
use ten_os.Prelude.{ℕ, ◌-◌, bit_and, bit_or}

abbrev pub i86_pte_present : ℕ
i86_pte_present = 1

abbrev pub i86_pte_writable : ℕ
i86_pte_writable = 2

abbrev pub i86_pte_user : ℕ
i86_pte_user = 4

abbrev pub i86_pte_frame : ℕ
i86_pte_frame = 0x7FFFF000

abbrev pub i86_pde_present : ℕ
i86_pde_present = 1

abbrev pub i86_pde_writable : ℕ
i86_pde_writable = 2

abbrev pub i86_pde_user : ℕ
i86_pde_user = 4

abbrev pub i86_pde_4mb : ℕ
i86_pde_4mb = 0x80

abbrev pub i86_pde_frame : ℕ
i86_pde_frame = 0x7FFFF000

-- A function that changes `*e` returns the new entry.
unfoldable pub pt_entry_add_attrib : ℕ → ℕ → ℕ
pt_entry_add_attrib e attrib = bit_or e attrib

unfoldable pub pt_entry_del_attrib : ℕ → ℕ → ℕ
pt_entry_del_attrib e attrib = bit_and e (not_u32 attrib)

unfoldable pub pt_entry_set_frame : ℕ → ℕ → ℕ
pt_entry_set_frame e addr = bit_or (bit_and e (not_u32 i86_pte_frame)) addr

unfoldable pub pt_entry_is_present : ℕ → ℕ
pt_entry_is_present e = bit_and e i86_pte_present

unfoldable pub pt_entry_is_writable : ℕ → ℕ
pt_entry_is_writable e = bit_and e i86_pte_writable

unfoldable pub pt_entry_pfn : ℕ → ℕ
pt_entry_pfn e = bit_and e i86_pte_frame

unfoldable pub pd_entry_add_attrib : ℕ → ℕ → ℕ
pd_entry_add_attrib e attrib = bit_or e attrib

unfoldable pub pd_entry_del_attrib : ℕ → ℕ → ℕ
pd_entry_del_attrib e attrib = bit_and e (not_u32 attrib)

unfoldable pub pd_entry_set_frame : ℕ → ℕ → ℕ
pd_entry_set_frame e addr = bit_or (bit_and e (not_u32 i86_pde_frame)) addr

unfoldable pub pd_entry_is_present : ℕ → ℕ
pd_entry_is_present e = bit_and e i86_pde_present

unfoldable pub pd_entry_is_writable : ℕ → ℕ
pd_entry_is_writable e = bit_and e i86_pde_writable

unfoldable pub pd_entry_pfn : ℕ → ℕ
pd_entry_pfn e = bit_and e i86_pde_frame

unfoldable pub pd_entry_is_user : ℕ → ℕ
pd_entry_is_user e = bit_and e i86_pde_user

unfoldable pub pd_entry_is_4mb : ℕ → ℕ
pd_entry_is_4mb e = bit_and e i86_pde_4mb
