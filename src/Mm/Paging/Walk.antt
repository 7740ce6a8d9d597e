-- ===== src/Mm/Paging/Walk.antt =====
-- How the processor translates an address, and the page tables on which that is sound.
use ten_os.Mm.Paging.{Vmm}
use ten_os.Mm.Memory.Bitmap.{used}
use ten_os.Mm.Memory.Alloc.{IsValid}
use ten_os.Prelude.{
  ℕ, ◌+◌, ◌*◌, ◌/◌, ◌%◌, ◌^◌, ◌<◌, ◌≡◌, ◌≢◌, ◌==◌, Option, none, some, if◌then◌else◌,
}

-- Word `i` of the page with the number `page`.
abbrev pub word : (ℕ → ℕ) → ℕ → ℕ → ℕ
word ram page i = ram (page * 1024 + i)

-- The flag "present" of an entry, and the number of the page that it points to.
abbrev pub present : ℕ → ℕ
present e = e % 2

abbrev pub page_of : ℕ → ℕ
page_of e = e / 4096

-- The two indices of an address.
abbrev pub dir_index : ℕ → ℕ
dir_index virt = virt / 2 ^ 22

abbrev pub table_index : ℕ → ℕ
table_index virt = virt / 4096 % 1024

-- The entries of an address, and its translation: the processor starts from the directory in CR3.
abbrev pub pde : Vmm → ℕ → ℕ
pde vm d = word vm.ram (page_of vm.cur_pdbr) d

abbrev pub pte : Vmm → ℕ → ℕ → ℕ
pte vm d t = word vm.ram (page_of (pde vm d)) t

abbrev pub frame_at : Vmm → ℕ → ℕ → Option ℕ
frame_at vm d t =
    if present (pde vm d) == 0
    then none
    else if present (pte vm d t) == 0
    then none
    else some (page_of (pte vm d t))

abbrev pub offset_in : ℕ → Option ℕ → Option ℕ
offset_in virt none = none
offset_in virt (some frame) = some (frame * 4096 + virt % 4096)

abbrev pub translate : Vmm → ℕ → Option ℕ
translate vm virt = offset_in virt (frame_at vm (dir_index virt) (table_index virt))

-- The kernel reaches the directory where CR3 points; the memory is below 1 GB; the directory and
-- the tables are pages of their own, which the physical memory manager holds as used.
pub record IsSound (vm : Vmm) : Type 0 where
  pub pmm : IsValid vm.pmm
  pub memory : vm.pmm.max_blocks < 2 ^ 18
  pub directory : vm.cur_directory ≡ vm.cur_pdbr + 0xC0000000
  pub aligned : vm.cur_pdbr % 4096 ≡ 0
  pub low : vm.cur_pdbr < 2 ^ 30
  pub directory_used : used vm.pmm (page_of vm.cur_pdbr) ≡ 1
  pub entries : (d : ℕ) → d < 1024 → pde vm d < 2 ^ 30
  pub tables_used :
      (d : ℕ) → d < 1024 → present (pde vm d) ≡ 1 → used vm.pmm (page_of (pde vm d)) ≡ 1
  pub not_directory :
      (d : ℕ) → d < 1024 → present (pde vm d) ≡ 1 → page_of (pde vm d) ≢ page_of vm.cur_pdbr
  pub apart :
      (d c : ℕ)
      → d < 1024
      → c < 1024
      → d ≢ c
      → present (pde vm d) ≡ 1
      → present (pde vm c) ≡ 1
      → page_of (pde vm d) ≢ page_of (pde vm c)
  pub pages : (d t : ℕ) → d < 1024 → t < 1024 → present (pde vm d) ≡ 1 → pte vm d t < 2 ^ 31
