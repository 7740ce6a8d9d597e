-- ===== src/Mm/Initialize/Window.antt =====
-- The loop that extends the kernel's window on physical memory, above 3 GB.
use ten_os.Mm.Initialize.{is_mapped, extend_page}
use ten_os.Mm.Paging.{Vmm, load, page_table_index, p2v, page_get_physical_address, vmmngr_map_page}
use ten_os.Mm.Paging.Walk.{present, pde, pte, dir_index, table_index, translate, IsSound}
use ten_os.Mm.Paging.Mapped.{entry_address, load_entry, written_at}
use ten_os.Mm.Paging.Mapping.{directory_address, vmmngr_map_page-Maps}
use ten_os.Mm.Paging.Kept.{vmmngr_map_page-Keeps}
use ten_os.Mm.Memory.{alloc_memory_block}
use mathlib.Core.Path.{subst}
use ten_os.Word.{u32}
use ten_os.Word.Bits.{bit_and-mask}
use ten_os.Prelude.{
  ℕ, ◌+◌, ◌*◌, ◌/◌, ◌^◌, ◌<◌, ◌≡◌, ◌≢◌, ◌⊎◌, ◌==◌, Option, none, some, inl, inr, Bool-cases, Bool,
  true, false, refl, ap, ◌∙◌, sym, arith,
}

-- The kernel's address of physical page `n`.
abbrev pub window : ℕ → ℕ
window n = 0xC0000000 + n * 4096

-- Whether the processor finds a frame.
abbrev pub is_some : Option ℕ → Bool
is_some none = false
is_some (some frame) = true

is_mapped_lem :
    (vm : Vmm) (virt : ℕ)
    → IsSound vm
    → virt < 2 ^ 32
    → is_mapped vm.cur_directory virt vm ≡ is_some (translate vm virt)
unfolding is_mapped
is_mapped_lem vm virt s word =
    let d = dir_index virt in
    let t = table_index virt in
    let p : d < 1024 = omega arith in
    let entry : load vm (
          u32 (
            p2v (page_get_physical_address (load vm (entry_address vm d)))
            + 4 * page_table_index virt))
        ≡ pte vm d t =
      ap vm.ram (written_at vm d virt s p) in
    rw
      (
        directory_address vm virt s word,
        entry,
        load_entry vm d s p,
        bit_and-mask 1 (pde vm d),
        bit_and-mask 1 (pte vm d t),
      )
      (elim (Bool-cases (present (pde vm d) == 0)) [
        | inl missing ↦ rw missing refl
        | inr there ↦ elim (Bool-cases (present (pte vm d t) == 0)) [
          | inl missing ↦ rw (there, missing) refl
          | inr mapped ↦ rw (there, mapped) refl
        ]
      ])

translate-present :
    (vm : Vmm) (virt x : ℕ) → translate vm virt ≡ some x → present (pde vm (dir_index virt)) ≡ 1
translate-present vm virt x e = elim (Bool-cases (present (pde vm (dir_index virt)) == 0)) [
  | inl missing ↦ absurd (cc (rw missing at e))
  | inr there ↦ ground arith
]

-- A round of the loop at page `n`.
pub record Extends (n : ℕ) (vm vm' : Vmm) : Type 0 where
  pub sound : IsSound vm'
  pub target : translate vm' (window n) ≡ some (n * 4096)
  pub others : (m : ℕ) → m < 2 ^ 18 → m ≢ n → translate vm' (window m) ≡ translate vm (window m)
  pub directory : vm'.cur_directory ≡ vm.cur_directory
  pub blocks :
      ((present (pde vm (768 + n / 1024)) ≡ 1) × (vm'.pmm ≡ vm.pmm))
      ⊎ ((present (pde vm (768 + n / 1024)) ≡ 0) × (vm'.pmm ≡ (alloc_memory_block vm.pmm).1))
  pub table : present (pde vm' (768 + n / 1024)) ≡ 1

dir_index-window : (n : ℕ) → n < 2 ^ 18 → dir_index (window n) ≡ 768 + n / 1024
dir_index-window n h = omega arith

pub extend_page-Extends :
    (vm : Vmm) (n : ℕ)
    → IsSound vm
    → 0 < n
    → n < 2 ^ 18
    → (translate vm (window n) ≡ none) ⊎ (translate vm (window n) ≡ some (n * 4096))
    → (present (pde vm (768 + n / 1024)) ≡ 1) ⊎ ((alloc_memory_block vm.pmm).0 ≢ 0)
    → Extends n vm (extend_page vm.cur_directory (n * 4096) vm)
unfolding extend_page
extend_page-Extends vm n s some_page h before room =
    let virt : u32 (0xC0000000 + n * 4096) ≡ window n = omega arith in
    let word : window n < 2 ^ 32 = omega arith in
    let d = dir_index-window n h in
    elim before [
      | inr there ↦
          let e : is_mapped vm.cur_directory (window n) vm ≡ true =
            is_mapped_lem vm (window n) s word ∙ ap is_some there in
          let table =
            ap (λ i. present (pde vm i)) (sym d) ∙ translate-present vm (window n) _ there in
          rw (virt, e)
            (record {
              sound = s;
              target = there;
              others = λ m p q. refl;
              directory = refl;
              blocks = inl (table, refl);
              table = table;
            })
      | inl missing ↦
          let e : is_mapped vm.cur_directory (window n) vm ≡ false =
            is_mapped_lem vm (window n) s word ∙ ap is_some missing in
          let room' =
            subst (λ i. (present (pde vm i) ≡ 1) ⊎ ((alloc_memory_block vm.pmm).0 ≢ 0)) (sym d)
              room in
          let m =
            vmmngr_map_page-Maps vm (n * 4096) (window n) s (omega arith) (omega arith)
              (omega arith) (omega arith) word room' in
          let k =
            vmmngr_map_page-Keeps vm (n * 4096) (window n) s (omega arith) (omega arith) word
              room' in
          let after = vmmngr_map_page vm (n * 4096) (window n) in
          let target : translate after (window n) ≡ some (n * 4096) =
            m.target ∙ ap some (omega arith) in
          let outside : (i : ℕ)
              → i < 2 ^ 18
              → i ≢ n
              → translate after (window i) ≡ translate vm (window i) =
            λ i p q. m.others (window i) (omega arith) (λ same. q (omega arith)) in
          rw (virt, e)
            (record {
              sound = m.sound;
              target = target;
              others = λ i p q. outside i p q;
              directory = k.directory;
              blocks =
                  subst
                    (λ i.
                      ((present (pde vm i) ≡ 1) × (after.pmm ≡ vm.pmm))
                      ⊎ ((present (pde vm i) ≡ 0) × (after.pmm ≡ (alloc_memory_block vm.pmm).1)))
                    d k.blocks;
              table =
                  ap (λ i. present (pde after i)) (sym d)
                  ∙ translate-present after (window n) (n * 4096) target;
            })
    ]
