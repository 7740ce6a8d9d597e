-- ===== src/Mm/Initialize/Words.antt =====
-- What the copy of a table leaves in memory.
use ten_os.Mm.Initialize.{copy_words}
use ten_os.Mm.Paging.{Vmm, v2p}
use ten_os.Word.{u32}
use ten_os.Prelude.{
  ℕ, zero, suc, ◌+◌, ◌-◌, ◌*◌, ◌/◌, ◌^◌, ◌≤◌, ◌<◌, ◌≡◌, ◌≢◌, ◌&&◌, leb, ltb, if◌then◌else◌, ap, ap₂,
  ◌∙◌, update, arith, fun_ext,
}

-- The words of page `b` in page `f`, from the word `j` on, `left` of them.
abbrev pub copied : (ℕ → ℕ) → ℕ → ℕ → ℕ → ℕ → ℕ → ℕ
copied ram b f j left i =
    if leb (f * 1024 + j) i && ltb i (f * 1024 + j + left)
    then ram (b * 1024 + (i - f * 1024))
    else ram i

one_word :
    (ram : ℕ → ℕ) (b f j left i : ℕ)
    → b ≢ f
    → j + suc left ≤ 1024
    → copied (update ram (f * 1024 + j) (ram (b * 1024 + j))) b f (j + 1) left i
      ≡ copied ram b f j (suc left) i
one_word ram b f j left i apart bound =
    ground (arith, ap ram {x = b * 1024 + j} {y = b * 1024 + (i - f * 1024)})

pub copy_words_lem :
    (left j b f : ℕ) (vm : Vmm)
    → b ≢ f
    → j + left ≤ 1024
    → b < 2 ^ 18
    → f < 2 ^ 18
    → copy_words left j (0xC0000000 + 4 * (b * 1024)) (0xC0000000 + 4 * (f * 1024)) vm
      ≡ record vm { ram = copied vm.ram b f j left }
unfolding copy_words
copy_words_lem zero j b f vm apart bound p q =
    ap (λ (r : ℕ → ℕ). record vm { ram = r }) (fun_ext λ i. ground arith)
copy_words_lem (suc left) j b f vm apart bound p q =
    let to : v2p (u32 (0xC0000000 + 4 * (f * 1024) + 4 * j)) / 4 ≡ f * 1024 + j = omega arith in
    let from : v2p (u32 (0xC0000000 + 4 * (b * 1024) + 4 * j)) / 4 ≡ b * 1024 + j = omega arith in
    let next = record vm { ram = update vm.ram (f * 1024 + j) (vm.ram (b * 1024 + j)) } in
    ap (copy_words left (j + 1) (0xC0000000 + 4 * (b * 1024)) (0xC0000000 + 4 * (f * 1024)))
      (ap₂ (λ x y. record vm { ram = update vm.ram x (vm.ram y) }) to from)
    ∙ copy_words_lem left (j + 1) b f next apart (omega arith) p q
    ∙ ap (λ (r : ℕ → ℕ). record vm { ram = r })
        (fun_ext λ i. one_word vm.ram b f j left i apart bound)
