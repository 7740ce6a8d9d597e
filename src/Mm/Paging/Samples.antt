-- ===== src/Mm/Paging/Samples.antt =====
-- An empty directory in page 1, for tests.
use ten_os.Mm.Paging.{Vmm}
use ten_os.Mm.Paging.Walk.{IsSound}
use ten_os.Mm.Memory.{mmap_set, alloc_memory_block, mmap_first_free, scan_words, scan_bits}
use ten_os.Mm.Memory.Bitmap.{used}
use ten_os.Word.Bits.{bit}
use ten_os.Prelude.{◌≡◌, refl, arith}

-- Blocks 0 and 1 of 64 are in use.
abbrev pub vm : Vmm
vm = record {
  pmm = record { mem_mngr = λ i. 3; max_blocks = 64; used_blocks = 2; size = 256 };
  ram = λ i. 0;
  cur_directory = 0xC0001000;
  cur_pdbr = 0x1000;
}

pub vm-IsSound : IsSound vm
unfolding used bit
vm-IsSound = record {
  pmm = record { blocks = omega arith; counter = omega arith; null_used = refl };
  memory = omega arith;
  directory = refl;
  aligned = refl;
  low = omega arith;
  directory_used = refl;
  entries = λ d p. omega arith;
  tables_used = λ d p there. absurd (omega arith);
  not_directory = λ d p there. absurd (omega arith);
  apart = λ d c p q ne there here. absurd (omega arith);
  pages = λ d t p q there. absurd (omega arith);
}

pub block-run : (alloc_memory_block vm.pmm).0 ≡ 0x2000
unfolding alloc_memory_block mmap_first_free scan_words scan_bits
block-run = refl

pub next-run : (alloc_memory_block (alloc_memory_block vm.pmm).1).0 ≡ 0x3000
unfolding alloc_memory_block mmap_first_free scan_words scan_bits mmap_set
next-run = refl
