-- ===== src/Mm/Initialize/Copy.antt =====
-- A round of the loop of vmmngr_initialize that copies the boot tables.
use ten_os.Mm.Initialize.{copy_table}
use ten_os.Mm.Initialize.Words.{copied, copy_words_lem}
use ten_os.Mm.Paging.{Vmm, load, p2v, v2p, page_get_physical_address}
use ten_os.Mm.Paging.Walk.{present, page_of}
use ten_os.Mm.Paging.Flags.{mapping_entry, directory_entry-eq, page_get_physical_address_lem}
use ten_os.Mm.Paging.Cleared.{cleared, clear_table_lem}
use ten_os.Mm.Memory.{alloc_memory_block}
use ten_os.Word.{u32}
use ten_os.Word.Bits.{bit_and-mask}
use ten_os.Prelude.{
  ℕ, ◌+◌, ◌*◌, ◌/◌, ◌^◌, ◌<◌, ◌≡◌, ◌≢◌, ◌==◌, bit_and, true, false, refl, ap, ◌∙◌, update, arith,
}

-- The boot directory is page `b`, the new one page `n`, and page `f` becomes the table.
abbrev pub filled : (ℕ → ℕ) → ℕ → ℕ → ℕ → ℕ → ℕ → ℕ
filled ram b n f i =
    update (copied (cleared ram (f * 1024) 1024) (page_of (ram (b * 1024 + i))) f 0 1024)
      (n * 1024 + i) (mapping_entry (ram (n * 1024 + i)) (f * 4096))

module _ (vm : Vmm) (b n i : ℕ) (boot_low : b < 2 ^ 18) (inside : i < 1024) where
  boot_word : v2p (u32 (p2v (b * 4096) + 4 * i)) / 4 ≡ b * 1024 + i
  boot_word = omega arith

  -- Nothing is done for an entry that is not there.
  pub copy_table-absent :
      present (vm.ram (b * 1024 + i)) ≡ 0 → copy_table (p2v (b * 4096)) (p2v (n * 4096)) i vm ≡ vm
  unfolding copy_table
  copy_table-absent missing =
      let nothing : (bit_and (load vm (u32 (p2v (b * 4096) + 4 * i))) 1 == 0) ≡ true =
        ap (λ x. bit_and (vm.ram x) 1 == 0) boot_word
        ∙ rw (bit_and-mask 1 (vm.ram (b * 1024 + i)), missing) refl in
      rw nothing refl

  module _ (f : ℕ) (new_low : n < 2 ^ 18) (low : f + 1 < 2 ^ 18)
      (entry_low : vm.ram (b * 1024 + i) < 2 ^ 30)
      (address : (alloc_memory_block vm.pmm).0 ≡ f * 4096) (b-ne : b ≢ f) (n-ne : n ≢ f) where
    new_word : v2p (u32 (p2v (n * 4096) + 4 * i)) / 4 ≡ n * 1024 + i
    new_word = omega arith

    abbrev cleared_table : Vmm
    cleared_table = record vm {
      pmm = (alloc_memory_block vm.pmm).1;
      ram = cleared vm.ram (f * 1024) 1024;
    }

    old_table :
        p2v (page_get_physical_address (load cleared_table (u32 (p2v (b * 4096) + 4 * i))))
        ≡ 0xC0000000 + 4 * (page_of (vm.ram (b * 1024 + i)) * 1024)
    old_table =
        let same : load cleared_table (u32 (p2v (b * 4096) + 4 * i)) ≡ vm.ram (b * 1024 + i) =
          ap cleared_table.ram boot_word ∙ ground arith in
        ap (λ x. p2v (page_get_physical_address x)) same
        ∙ ap p2v (page_get_physical_address_lem (vm.ram (b * 1024 + i)) (omega arith))
        ∙ omega arith

    kept :
        copied
          (cleared vm.ram (f * 1024) 1024)
          (page_of (vm.ram (b * 1024 + i)))
          f
          0
          1024
          (n * 1024 + i)
        ≡ vm.ram (n * 1024 + i)
    kept = ground arith

    pub copy_table-present :
        present (vm.ram (b * 1024 + i)) ≡ 1
        → page_of (vm.ram (b * 1024 + i)) ≢ f
        → copy_table (p2v (b * 4096)) (p2v (n * 4096)) i vm
          ≡ record vm { pmm = (alloc_memory_block vm.pmm).1; ram = filled vm.ram b n f i }
    unfolding copy_table
    copy_table-present there t-ne =
        let entry = vm.ram (b * 1024 + i) in
        let page : p2v (f * 4096) ≡ 0xC0000000 + 4 * (f * 1024) = omega arith in
        let is_there : (bit_and (load vm (u32 (p2v (b * 4096) + 4 * i))) 1 == 0) ≡ false =
          ap (λ x. bit_and (vm.ram x) 1 == 0) boot_word
          ∙ rw (bit_and-mask 1 (vm.ram (b * 1024 + i)), there) refl in
        rw
          (
            is_there,
            address,
            page,
            clear_table_lem 1024 (f * 1024) (record vm { pmm = (alloc_memory_block vm.pmm).1 })
                (omega arith),
          )
          (rw
            (
              old_table,
              copy_words_lem 1024 0 (page_of entry) f cleared_table t-ne (omega arith) (omega arith)
                  (omega arith),
              new_word,
              kept,
              directory_entry-eq (vm.ram (n * 1024 + i)) (f * 4096),
            )
            refl)
