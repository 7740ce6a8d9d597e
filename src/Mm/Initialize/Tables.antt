-- ===== src/Mm/Initialize/Tables.antt =====
-- The whole loop that copies the boot tables.
use ten_os.Mm.Initialize.{copy_table, copy_tables}
use ten_os.Mm.Initialize.Copy.{copy_table-absent, copy_table-present}
use ten_os.Mm.Initialize.Boot.{boot_frame, Copying}
use ten_os.Mm.Initialize.Round.{
  Copying-absent, Copying-present, n-ne, boot-ne, table-ne, boot_entry, boot_frame-later, later,
}
use ten_os.Mm.Initialize.Extension.{HasBlocks}
use ten_os.Mm.Paging.{Vmm, p2v}
use ten_os.Mm.Paging.Walk.{present}
use ten_os.Mm.Memory.Alloc.{taken}
use mathlib.Core.Path.{subst}
use ten_os.Prelude.{
  ℕ, zero, suc, ◌+◌, ◌*◌, ◌≤◌, ◌<◌, ◌≡◌, ◌==◌, Bool-cases, inl, inr, refl, ap₂, sym, ◌∙◌, arith,
}

-- How many entries of the boot directory are there, from `i` on, of `left`.
abbrev pub boot_count : (ℕ → ℕ) → ℕ → ℕ → ℕ → ℕ
boot_count ram b zero i = 0
boot_count ram b (suc left) i = present (ram (b * 1024 + i)) + boot_count ram b left (i + 1)

pub boot_count-ext :
    (ram ram' : ℕ → ℕ) (b left i : ℕ)
    → ((c : ℕ) → c < 1024 → ram' (b * 1024 + c) ≡ ram (b * 1024 + c))
    → i + left ≤ 1024
    → boot_count ram' b left i ≡ boot_count ram b left i
boot_count-ext ram ram' b zero i same p = refl
boot_count-ext ram ram' b (suc left) i same p =
    ap₂ (λ x y. present x + y) (same i (omega arith))
      (boot_count-ext ram ram' b left (i + 1) same (omega arith))

-- What the loop leaves: every entry that was there has its table in the new directory, page `n`,
-- the boot tables say what they said, and `k` blocks are left.
pub record IsCopied (b n k : ℕ) (vm out : Vmm) : Type 0 where
  pub copying : Copying 0 b n 1024 out
  pub frames : (c u : ℕ) → c < 1024 → u < 1024 → boot_frame out.ram b c u ≡ boot_frame vm.ram b c u
  pub blocks : HasBlocks k out.pmm

-- The loop from entry `i` to the end of the directory, with a block for each entry that is
-- there, none of which is one of the boot tables.
pub copy_tables-IsCopied :
    (left i b n k : ℕ) (vm : Vmm)
    → Copying (boot_count vm.ram b left i) b n i vm
    → i + left ≡ 1024
    → HasBlocks (boot_count vm.ram b left i + k) vm.pmm
    → IsCopied b n k vm (copy_tables left i (p2v (b * 4096)) (p2v (n * 4096)) vm)
unfolding copy_tables
copy_tables-IsCopied zero i b n k vm r bound blocks = record {
  copying = subst (λ j. Copying 0 b n j vm) (omega arith) r;
  frames = λ c u p q. refl;
  blocks = subst (λ x. HasBlocks x vm.pmm) (omega arith) blocks;
}
copy_tables-IsCopied (suc left) i b n k vm r bound blocks =
    elim (Bool-cases (present (vm.ram (b * 1024 + i)) == 0)) [
      | inl none_there ↦
          let missing : present (vm.ram (b * 1024 + i)) ≡ 0 = ground arith in
          let rest = boot_count vm.ram b left (i + 1) in
          let fewer : boot_count vm.ram b (suc left) i ≡ rest = omega arith in
          let r' = subst (λ x. Copying x b n i vm) fewer r in
          rw (copy_table-absent vm b n i r.boot.low (omega arith) missing) (
            copy_tables-IsCopied left (i + 1) b n k vm
              (Copying-absent rest vm b n i r' (omega arith) missing) (omega arith)
              (subst (λ x. HasBlocks (x + k) vm.pmm) fewer blocks))
      | inr some_there ↦
          let there : present (vm.ram (b * 1024 + i)) ≡ 1 = ground arith in
          let rest = boot_count vm.ram b left (i + 1) in
          let more : boot_count vm.ram b (suc left) i ≡ suc rest = omega arith in
          let one_more : boot_count vm.ram b (suc left) i + k ≡ suc (rest + k) = omega arith in
          let r' = subst (λ x. Copying x b n i vm) more r in
          let blocks' = subst (λ x. HasBlocks x vm.pmm) one_more blocks in
          let (f, t) = taken vm.pmm r.sound.pmm blocks'.0 in
          let next = later rest vm b n i r' (omega arith) f t there in
          let same = boot_entry rest vm b n i r' (omega arith) f t there in
          let frames = boot_frame-later rest vm b n i r' (omega arith) f t there in
          let count = boot_count-ext vm.ram next.ram b left (i + 1) same (omega arith) in
          let round : copy_table (p2v (b * 4096)) (p2v (n * 4096)) i vm ≡ next =
            copy_table-present vm b n i r.boot.low (omega arith) f (omega (arith, r.sound.low))
              (omega (arith, t.in_range, r.sound.memory)) (r.boot.entries i (omega arith)) t.address
              (boot-ne rest vm b n i r' (omega arith) f t there)
              (n-ne rest vm b n i r' (omega arith) f t there) there
              (table-ne rest vm b n i r' (omega arith) f t there i (omega arith) there) in
          let ih =
            copy_tables-IsCopied left (i + 1) b n k next
              (subst (λ x. Copying x b n (i + 1) next) (sym count)
                (Copying-present rest vm b n i r' (omega arith) f t there))
              (omega arith) (subst (λ x. HasBlocks (x + k) next.pmm) (sym count) blocks'.1) in
          rw round (record {
            copying = ih.copying;
            frames = λ c u p q. ih.frames c u p q ∙ frames c u p q;
            blocks = ih.blocks;
          })
    ]
