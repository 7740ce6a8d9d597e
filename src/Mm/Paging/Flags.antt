-- ===== src/Mm/Paging/Flags.antt =====
-- The entry that mapping writes, as numbers.
use ten_os.Mm.Entry.{
  pt_entry_add_attrib, pt_entry_set_frame, pd_entry_add_attrib, pd_entry_set_frame, i86_pte_present,
  i86_pte_writable, i86_pte_user, i86_pde_present, i86_pde_writable, i86_pde_user,
  pt_entry_is_present, i86_pte_frame,
}
use ten_os.Mm.Entry.Fields.{mapped_entry, pfn-eq}
use ten_os.Mm.Paging.{page_get_physical_address}
use ten_os.Word.{not_u32}
use ten_os.Word.Bits.{bit_and-lt, bit_or-lt, bit_and-mask, bit_and-shift}
use ten_os.Prelude.{ℕ, ◌*◌, ◌/◌, ◌%◌, ◌^◌, ◌<◌, ◌≡◌, refl, sym, ◌∙◌, arith}

abbrev pub mapping_entry : ℕ → ℕ → ℕ
mapping_entry e phys =
    pt_entry_add_attrib
      (pt_entry_add_attrib (pt_entry_add_attrib (pt_entry_set_frame e phys) i86_pte_present)
        i86_pte_writable)
      i86_pte_user

-- The entry that gives the directory a table is made the same way.
pub directory_entry-eq :
    (e phys : ℕ)
    → pd_entry_add_attrib
        (pd_entry_add_attrib
          (pd_entry_add_attrib (pd_entry_set_frame e phys) i86_pde_present)
          i86_pde_writable)
        i86_pde_user
      ≡ mapping_entry e phys
unfolding pt_entry_add_attrib pt_entry_set_frame pd_entry_add_attrib pd_entry_set_frame
directory_entry-eq e phys = refl

pub mapping_entry-lt :
    (w e phys : ℕ) → 4 < 2 ^ w → e < 2 ^ w → phys < 2 ^ w → mapping_entry e phys < 2 ^ w
unfolding pt_entry_add_attrib pt_entry_set_frame
mapping_entry-lt w e phys wide p q =
    let framed = bit_or-lt w _ phys (bit_and-lt w e (not_u32 i86_pte_frame) p) q in
    bit_or-lt w _ 4 (bit_or-lt w _ 2 (bit_or-lt w _ 1 framed (omega arith)) (omega arith)) wide

pub mapping_entry-present :
    (e phys : ℕ) → phys % 4096 ≡ 0 → phys < 2 ^ 31 → e < 2 ^ 32 → mapping_entry e phys % 2 ≡ 1
mapping_entry-present e phys aligned low word =
    sym (bit_and-mask 1 (mapping_entry e phys))
    ∙ (unfold pt_entry_is_present in (mapped_entry e phys aligned low word).1)

pub mapping_entry-page :
    (e phys : ℕ)
    → phys % 4096 ≡ 0
    → phys < 2 ^ 31
    → e < 2 ^ 31
    → mapping_entry e phys / 4096 ≡ phys / 4096
mapping_entry-page e phys aligned low word = omega (
  arith,
  mapping_entry-lt 31 e phys (omega arith) word low,
  (mapped_entry e phys aligned low (omega arith)).0,
  pfn-eq (mapping_entry e phys),
)

-- `*x & ~0xfff`
pub page_get_physical_address_lem :
    (e : ℕ) → e < 2 ^ 32 → page_get_physical_address e ≡ e / 4096 * 4096
page_get_physical_address_lem e p =
    bit_and-shift 12 e 0xFFFFF ∙ rw (bit_and-mask 20 (e / 2 ^ 12)) (omega arith)
