-- ===== src/Mm/Paging/Cleared.antt =====
-- What `clear_table` leaves.
use ten_os.Mm.Paging.{Vmm, v2p, clear_table}
use ten_os.Word.{u32}
use ten_os.Prelude.{
  ℕ, zero, suc, ◌+◌, ◌*◌, ◌/◌, ◌^◌, ◌≤◌, ◌≡◌, ◌&&◌, leb, ltb, if◌then◌else◌, ap, ◌∙◌, update, arith,
  fun_ext,
}

-- The words from `from` on, `left` of them, cleared.
abbrev pub cleared : (ℕ → ℕ) → ℕ → ℕ → ℕ → ℕ
cleared ram from left i = if leb from i && ltb i (from + left) then 0 else ram i

pub clear_table_lem :
    (left from : ℕ) (vm : Vmm)
    → from + left ≤ 2 ^ 28
    → clear_table left (0xC0000000 + 4 * from) vm ≡ record vm { ram = cleared vm.ram from left }
unfolding clear_table
clear_table_lem zero from vm p =
    ap (λ (r : ℕ → ℕ). record vm { ram = r }) (fun_ext λ i. ground arith)
clear_table_lem (suc zero) from vm p =
    let here : v2p (0xC0000000 + 4 * from) / 4 ≡ from = omega arith in
    rw here (ap (λ (r : ℕ → ℕ). record vm { ram = r }) (fun_ext λ i. ground arith))
clear_table_lem (suc (suc left)) from vm p =
    let here : v2p (0xC0000000 + 4 * from) / 4 ≡ from = omega arith in
    let next : u32 (0xC0000000 + 4 * from + 4) ≡ 0xC0000000 + 4 * (from + 1) = omega arith in
    rw (next, here)
      (clear_table_lem (suc left) (from + 1) (record vm { ram = update vm.ram from 0 })
          (omega arith)
        ∙ ap (λ (r : ℕ → ℕ). record vm { ram = r }) (fun_ext λ i. ground arith))
