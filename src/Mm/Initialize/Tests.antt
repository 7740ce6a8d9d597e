-- ===== src/Mm/Initialize/Tests.antt =====
-- The witness of the theorem on vmmngr_initialize: the boot directory at 0x9C000 with its tables
-- behind it, both of which map page n to frame n, and two pages above 4 MB.
use ten_os.Mm.Initialize.{vmmngr_initialize}
use ten_os.Mm.Initialize.Boot.{Spares}
use ten_os.Mm.Initialize.Start.{IsBooted}
use ten_os.Mm.Initialize.Window.{window}
use ten_os.Mm.Initialize.Extension.{HasBlocks}
use ten_os.Mm.Initialize.Handover.{boot_window, needed, vmmngr_initialize_lem}
use ten_os.Mm.Paging.{Vmm}
use ten_os.Mm.Paging.Walk.{present, page_of, translate, IsSound}
use ten_os.Mm.Memory.{mmap_set, alloc_memory_block, mmap_first_free, scan_words, scan_bits}
use ten_os.Mm.Memory.Bitmap.{used}
use ten_os.Word.Bits.{bit}
use ten_os.Prelude.{
  ℕ, ◌+◌, ◌*◌, ◌/◌, ◌%◌, ◌<◌, ◌≤◌, ◌^◌, ◌≡◌, ◌==◌, ◌-◌, ◌||◌, if◌then◌else◌, none, some, inl, inr,
  ◌⊎◌, refl, arith,
}

abbrev boot_ram : ℕ → ℕ
boot_ram x =
    if x / 1024 == 0x9C
    then (if x % 1024 == 0 then 0x9D007 else if x % 1024 == 768 then 0x9E007 else 0)
    else if x / 1024 == 0x9D || x / 1024 == 0x9E
    then x % 1024 * 4096 + 7
    else 0

-- Block 0 of each 32 is in use, and none of the boot tables.
abbrev booted : Vmm
booted = record {
  pmm = record { mem_mngr = λ i. 1; max_blocks = 1024; used_blocks = 32; size = 4096 };
  ram = boot_ram;
  cur_directory = 0;
  cur_pdbr = 0x9C000;
}

boot_page :
    (d : ℕ)
    → d < 1024
    → present (boot_ram (0x9C * 1024 + d)) ≡ 1
    → (page_of (boot_ram (0x9C * 1024 + d)) ≡ 0x9D) ⊎ (page_of (boot_ram (0x9C * 1024 + d)) ≡ 0x9E)
boot_page d p there = ground arith

booted-Spares : (page : ℕ) → 0x10 ≤ page → Spares 3 booted.pmm page
unfolding alloc_memory_block mmap_first_free scan_words scan_bits mmap_set
booted-Spares page h = ((λ e. omega arith), ((λ e. omega arith), ((λ e. omega arith), tt)))

booted-IsBooted : IsBooted 0x9C booted
unfolding used bit
booted-IsBooted = record {
  pmm = record { blocks = omega arith; counter = omega arith; null_used = refl };
  memory = omega arith;
  low = omega arith;
  directory_spared = booted-Spares 0x9C (omega arith);
  entries = λ d p. ground arith;
  tables_spared = λ d p there.
      booted-Spares (page_of (boot_ram (0x9C * 1024 + d)))
        (elim (boot_page d p there) [ inl e ↦ omega arith | inr e ↦ omega arith ]);
  words = λ d u p q there. elim (boot_page d p there) [
    | inl e ↦ rw e (ground arith)
    | inr e ↦ rw e (ground arith)
  ];
}

boot_window-above : (m : ℕ) → 1024 ≤ m → m < 2 ^ 18 → boot_window boot_ram 0x9C m ≡ none
boot_window-above m p q =
    let e : boot_ram (0x9C * 1024 + (768 + m / 1024)) ≡ 0 = ground arith in rw e refl

-- Four blocks are enough.
needed-run : needed 0x402000 0x9C boot_ram ≡ 4
needed-run = refl

booted-HasBlocks : HasBlocks 4 booted.pmm
unfolding alloc_memory_block mmap_first_free scan_words scan_bits mmap_set
booted-HasBlocks =
    ((λ e. omega arith), ((λ e. omega arith), ((λ e. omega arith), ((λ e. omega arith), tt))))

vmmngr_initialize_lem_example :
    let vm' = vmmngr_initialize 0x402000 (0x9C * 4096) booted in
    IsSound vm'
    × (translate vm' 0x1234 ≡ none)
    × (translate vm' (window 5) ≡ some 0x5000)
    × (translate vm' 0xC0401ABC ≡ some (0xC0401ABC - 0xC0000000))
vmmngr_initialize_lem_example =
    vmmngr_initialize_lem 0x402000 0x9C booted 0x1234 5 0xC0401ABC booted-IsBooted
      (λ m p q. inl (boot_window-above m p q)) booted-HasBlocks (omega arith) (omega arith)
      (omega arith) (omega arith)
