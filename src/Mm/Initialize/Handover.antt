-- ===== src/Mm/Initialize/Handover.antt =====
-- vmmngr_initialize from the boot tables to the kernel's own.
use ten_os.Mm.Initialize.{copy_tables, extend_from, remove_identity, vmmngr_initialize}
use ten_os.Mm.Initialize.Boot.{Copying, in_dir, boot_frame}
use ten_os.Mm.Initialize.Start.{
  IsBooted, emptied, emptied-Copying, boot_frame-emptied, boot_count-emptied,
}
use ten_os.Mm.Initialize.Tables.{boot_count, IsCopied, copy_tables-IsCopied}
use ten_os.Mm.Initialize.Window.{window}
use ten_os.Mm.Initialize.Extension.{HasBlocks, tables, IsReady, extend_from-IsExtended}
use ten_os.Mm.Initialize.Identity.{remove_identity-Unmaps}
use ten_os.Mm.Initialize.Linear.{remove_identity-extend_from}
use ten_os.Mm.Paging.{Vmm, p2v, page_size, vmmngr_switch_pdirectory}
use ten_os.Mm.Paging.Walk.{dir_index, table_index, frame_at, offset_in, translate, IsSound}
use ten_os.Mm.Paging.Cleared.{clear_table_lem}
use ten_os.Mm.Memory.{alloc_memory_block}
use ten_os.Mm.Memory.Alloc.{Takes, taken}
use mathlib.Core.Path.{subst}
use ten_os.Prelude.{
  ℕ, suc, ◌+◌, ◌-◌, ◌*◌, ◌/◌, ◌%◌, ◌^◌, ◌≤◌, ◌<◌, ◌≡◌, ◌⊎◌, ◌==◌, ltb, if◌then◌else◌, Option, none,
  some, inl, inr, false, refl, ap, sym, ◌∙◌, arith,
}

-- At most 1 GB of memory comes into the window.
abbrev pub capped : ℕ → ℕ
capped total = if ltb 0x40000000 total then 0x40000000 else total

-- What the boot directory, page `b`, says of page `m` of the window.
abbrev pub boot_window : (ℕ → ℕ) → ℕ → ℕ → Option ℕ
boot_window ram b m = boot_frame ram b (768 + m / 1024) (m % 1024)

-- As many blocks as the call takes: a directory, a table for each entry of the boot directory and
-- one for each 4 MB of the window.
abbrev pub needed : ℕ → ℕ → (ℕ → ℕ) → ℕ
needed total b ram = suc (boot_count ram b 1024 0 + tables 1024 ((capped total + 4095) / 4096))

module _ (vm : Vmm) (b n total : ℕ) (s : IsBooted b vm)
    (t : Takes vm.pmm n (alloc_memory_block vm.pmm)) where
  abbrev copied : Vmm
  copied = copy_tables 1024 0 (p2v (b * 4096)) (p2v (n * 4096)) (emptied vm b n s t)

  low : n < 2 ^ 18
  low = omega (arith, t.in_range, s.memory)

  vmmngr_initialize-copied : vmmngr_initialize total (b * 4096) vm ≡ (
      let w = in_dir copied n in
      remove_identity w.cur_directory
        (extend_from (capped total / page_size) 0x400000 (capped total) w.cur_directory w))
  unfolding vmmngr_initialize vmmngr_switch_pdirectory
  vmmngr_initialize-copied =
      let not_null : (n * 4096 == 0) ≡ false = ground (arith, t.not_null) in
      let new : p2v (n * 4096) ≡ n * 4096 + 0xC0000000 = omega (arith, low) in
      let page : 0xC0000000 + 4 * (n * 1024) ≡ n * 4096 + 0xC0000000 = omega arith in
      let clear =
        clear_table_lem 1024 (n * 1024) (record vm { pmm = (alloc_memory_block vm.pmm).1 })
          (omega (arith, low)) in
      rw (t.address, not_null, new) (rw (rw page at clear) refl)

  module _ (k : ℕ) (x : IsCopied b n k (emptied vm b n s t) copied) where
    frame_at-copied :
        (d u : ℕ) → d < 1024 → u < 1024 → frame_at (in_dir copied n) d u ≡ boot_frame vm.ram b d u
    frame_at-copied d u p q =
        x.copying.done d u p q ∙ x.frames d u p q ∙ boot_frame-emptied vm b n s t d u p q

    translate-window :
        (m : ℕ)
        → m < 2 ^ 18
        → translate (in_dir copied n) (window m) ≡ offset_in (window m) (boot_window vm.ram b m)
    translate-window m p =
        let d : dir_index (window m) ≡ 768 + m / 1024 = omega arith in
        let u : table_index (window m) ≡ m % 1024 = omega arith in
        rw (d, u)
          (ap (offset_in (window m))
            (frame_at-copied (768 + m / 1024) (m % 1024) (omega arith) (omega arith)))

    chosen-IsReady :
        ((m : ℕ)
          → 1024 ≤ m
          → m < 2 ^ 18
          → (boot_window vm.ram b m ≡ none) ⊎ (boot_window vm.ram b m ≡ some m))
        → k ≡ tables 1024 ((capped total + 4095) / 4096)
        → IsReady 1024 ((capped total + 4095) / 4096) (in_dir copied n)
    chosen-IsReady linear enough = record {
      sound = x.copying.sound;
      pages = λ m p q. elim (linear m p q) [
        | inl nothing ↦ inl (translate-window m q ∙ ap (offset_in (window m)) {y = none} nothing)
        | inr there ↦ inr (
            translate-window m q
            ∙ ap (offset_in (window m)) {y = some m} there
            ∙ ap some (omega arith))
      ];
      begun = inl refl;
      blocks = subst (λ j. HasBlocks j copied.pmm) enough x.blocks;
    }

-- The whole call, for boot tables below 1 GB that its first allocations spare, in which the pages of the window from 4 MB on are not mapped or 3 GB above their frames, with as
-- many blocks to allocate as the call needs: behind it the tables are sound, no address of the
-- first 4 MB is translated, each page of the first 4 MB of the window is where the boot tables have
-- it, and every address of the window from 4 MB to the end of memory, of which at most 1 GB counts,
-- goes to the physical address 3 GB below.
pub vmmngr_initialize_lem :
    (total b : ℕ) (vm : Vmm) (low first high : ℕ)
    → IsBooted b vm
    → ((m : ℕ)
        → 1024 ≤ m
        → m < 2 ^ 18
        → (boot_window vm.ram b m ≡ none) ⊎ (boot_window vm.ram b m ≡ some m))
    → HasBlocks (needed total b vm.ram) vm.pmm
    → low < 2 ^ 22
    → first < 1024
    → 0xC0400000 ≤ high
    → high < 0xC0000000 + capped total
    → let vm' = vmmngr_initialize total (b * 4096) vm in
      IsSound vm'
      × (translate vm' low ≡ none)
      × (translate vm' (window first) ≡ offset_in (window first) (boot_window vm.ram b first))
      × (translate vm' high ≡ some (high - 0xC0000000))
vmmngr_initialize_lem total b vm low first high s linear (got, blocks) p q h h' =
    let (n, t) = taken vm.pmm s.pmm got in
    let last = (capped total + 4095) / 4096 in
    let fits : capped total ≤ 2 ^ 30 = ground arith in
    let start = emptied vm b n s t in
    let count : boot_count start.ram b 1024 0 ≡ boot_count vm.ram b 1024 0 =
      boot_count-emptied vm b n s t in
    let x =
      copy_tables-IsCopied 1024 0 b n (tables 1024 last) start
        (subst (λ c. Copying c b n 0 start) (sym count) (emptied-Copying vm b n s t)) refl
        (subst (λ c. HasBlocks (c + tables 1024 last) start.pmm) (sym count) blocks) in
    let w = in_dir (copied vm b n total s t) n in
    let r = chosen-IsReady vm b n total s t (tables 1024 last) x linear refl in
    let (sound, gone, there) =
      remove_identity-extend_from (capped total) w low high r fits p h h' in
    let e =
      extend_from-IsExtended (capped total / page_size) 1024 (capped total) w.cur_directory w refl r
        (omega arith) fits (omega arith) in
    let u =
      remove_identity-Unmaps
        (extend_from (capped total / page_size) 0x400000 (capped total) w.cur_directory w)
        w.cur_directory e.sound e.directory in
    rw (vmmngr_initialize-copied vm b n total s t) (
      sound,
      gone,
      u.others (window first) (omega arith) (omega arith)
          ∙ e.below first q (omega arith)
          ∙ translate-window vm b n total s t (tables 1024 last) x first (omega arith),
      there,
    )
