-- ===== src/Mm/Initialize/Extension.antt =====
-- The whole loop that extends the window.
use ten_os.Mm.Initialize.{extend_page, extend_from}
use ten_os.Mm.Initialize.Window.{window, Extends, extend_page-Extends}
use ten_os.Mm.Paging.{Vmm}
use ten_os.Mm.Paging.Walk.{present, pde, translate, IsSound}
use ten_os.Mm.Memory.{Pmm, alloc_memory_block}
use mathlib.Core.Path.{subst}
use ten_os.Prelude.{
  ℕ, zero, suc, ◌+◌, ◌-◌, ◌*◌, ◌/◌, ◌%◌, ◌^◌, ◌≤◌, ◌<◌, ◌≡◌, ◌≢◌, ◌⊎◌, ◌==◌, ltb, none, some, inl,
  inr, Bool-cases, refl, ap, ◌∙◌, sym, arith,
}

-- So many allocations in a row give a block.
abbrev pub HasBlocks : ℕ → Pmm → Type 0
HasBlocks zero m = Unit
HasBlocks (suc k) m = ((alloc_memory_block m).0 ≢ 0) × HasBlocks k (alloc_memory_block m).1

HasBlocks-le : (k l : ℕ) (m : Pmm) → k ≤ l → HasBlocks l m → HasBlocks k m
HasBlocks-le zero l m h b = tt
HasBlocks-le (suc k) zero m h b = absurd (omega arith)
HasBlocks-le (suc k) (suc l) m h (b, bs) =
    (b, HasBlocks-le k l (alloc_memory_block m).1 (omega arith) bs)

-- The tables of 1024 pages that begin in the pages from `n` to `last`.
abbrev pub tables : ℕ → ℕ → ℕ
tables n last = (last + 1023) / 1024 - (n + 1023) / 1024

-- The state in front of the round for page `n`, if the loop runs up to page `last`: the pages from
-- `n` on are not mapped or mapped as they should be, the table of page `n` is there unless the page
-- is its first, and each table that begins from there on has a block.
pub record IsReady (n last : ℕ) (vm : Vmm) : Type 0 where
  pub sound : IsSound vm
  pub pages :
      (m : ℕ)
      → n ≤ m
      → m < 2 ^ 18
      → (translate vm (window m) ≡ none) ⊎ (translate vm (window m) ≡ some (m * 4096))
  pub begun : (n % 1024 ≡ 0) ⊎ (present (pde vm (768 + n / 1024)) ≡ 1)
  pub blocks : HasBlocks (tables n last) vm.pmm

room :
    (n last : ℕ) (vm : Vmm)
    → IsReady n last vm
    → n < last
    → (present (pde vm (768 + n / 1024)) ≡ 1) ⊎ ((alloc_memory_block vm.pmm).0 ≢ 0)
room n last vm r h = elim r.begun [
  | inr there ↦ inl there
  | inl first ↦
      let one : HasBlocks 1 vm.pmm = HasBlocks-le 1 (tables n last) vm.pmm (omega arith) r.blocks in
      inr one.0
]

blocks_after :
    (n last : ℕ) (vm vm' : Vmm)
    → IsReady n last vm
    → n < last
    → Extends n vm vm'
    → HasBlocks (tables (n + 1) last) vm'.pmm
blocks_after n last vm vm' r h x = elim x.blocks [
  | inl (there, same) ↦
      subst (HasBlocks (tables (n + 1) last)) (sym same)
        (HasBlocks-le (tables (n + 1) last) (tables n last) vm.pmm (omega arith) r.blocks)
  | inr (missing, taken) ↦ elim r.begun [
    | inr there ↦ absurd (omega arith)
    | inl first ↦
        let count : tables n last ≡ suc (tables (n + 1) last) = omega arith in
        subst (HasBlocks (tables (n + 1) last)) (sym taken)
          (subst (λ k. HasBlocks k vm.pmm) count r.blocks).1
  ]
]

IsReady-next :
    (n last : ℕ) (vm vm' : Vmm)
    → IsReady n last vm
    → n < last
    → last ≤ 2 ^ 18
    → Extends n vm vm'
    → IsReady (n + 1) last vm'
IsReady-next n last vm vm' r h fits x = record {
  sound = x.sound;
  pages = λ m p q.
      subst (λ t. (t ≡ none) ⊎ (t ≡ some (m * 4096))) (sym (x.others m q (omega arith)))
        (r.pages m (omega arith) q);
  begun = elim (Bool-cases ((n + 1) % 1024 == 0)) [
    | inl first ↦ inl (ground arith)
    | inr within ↦
        let same : (n + 1) / 1024 ≡ n / 1024 = ground arith in
        inr (ap (λ i. present (pde vm' (768 + i))) same ∙ x.table)
  ];
  blocks = blocks_after n last vm vm' r h x;
}

-- What the loop leaves: the pages from `n` on up to `last` are mapped, the others as before.
pub record IsExtended (n last : ℕ) (vm vm' : Vmm) : Type 0 where
  pub sound : IsSound vm'
  pub directory : vm'.cur_directory ≡ vm.cur_directory
  pub pages : (m : ℕ) → n ≤ m → m < last → translate vm' (window m) ≡ some (m * 4096)
  pub below : (m : ℕ) → m < n → m < 2 ^ 18 → translate vm' (window m) ≡ translate vm (window m)

joined :
    (n last : ℕ) (vm vm' out : Vmm)
    → Extends n vm vm'
    → IsExtended (n + 1) last vm' out
    → last ≤ 2 ^ 18
    → IsExtended n last vm out
joined n last vm vm' out x later fits = record {
  sound = later.sound;
  directory = later.directory ∙ x.directory;
  pages = λ m p q. elim (Bool-cases (m == n)) [
    | inl first ↦
        let e : m ≡ n = ground arith in rw e (later.below n (omega arith) (omega arith) ∙ x.target)
    | inr other ↦ later.pages m (ground arith) q
  ];
  below = λ m p q. later.below m (omega arith) q ∙ x.others m q (omega arith);
}

-- The loop from page `n` on, with rounds enough, in a state that is ready for the pages up to the
-- end of a memory of at most 1 GB: every page from there on to the end is in the window, at its place
-- 3 GB above its address, and the tables are sound.
pub extend_from-IsExtended :
    (left n total directory : ℕ) (vm : Vmm)
    → vm.cur_directory ≡ directory
    → IsReady n ((total + 4095) / 4096) vm
    → 0 < n
    → total ≤ 2 ^ 30
    → (total + 4095) / 4096 ≤ n + left
    → IsExtended n ((total + 4095) / 4096) vm (extend_from left (n * 4096) total directory vm)
unfolding extend_from
extend_from-IsExtended zero n total directory vm own r some_page fits enough = record {
  sound = r.sound;
  directory = refl;
  pages = λ m p q. absurd (omega arith);
  below = λ m p q. refl;
}
extend_from-IsExtended (suc left) n total directory vm own r some_page fits enough =
    let last = (total + 4095) / 4096 in
    elim (Bool-cases (ltb (n * 4096) total)) [
      | inl more ↦
          let h : n < last = ground arith in
          let vm' = extend_page directory (n * 4096) vm in
          let x : Extends n vm vm' =
            subst (λ d. Extends n vm (extend_page d (n * 4096) vm)) own
              (extend_page-Extends vm n r.sound some_page (omega arith)
                (r.pages n (omega arith) (omega arith)) (room n last vm r h)) in
          let next : n * 4096 + 4096 ≡ (n + 1) * 4096 = omega arith in
          let ih =
            extend_from-IsExtended left (n + 1) total directory vm' (x.directory ∙ own)
              (IsReady-next n last vm vm' r h (omega arith) x) (omega arith) fits (omega arith) in
          rw (more, next) (joined n last vm vm' _ x ih (omega arith))
      | inr done ↦
          let h : last ≤ n = ground arith in
          rw done (record {
            sound = r.sound;
            directory = refl;
            pages = λ m p q. absurd (omega arith);
            below = λ m p q. refl;
          })
    ]
