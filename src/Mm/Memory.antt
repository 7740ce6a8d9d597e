-- ===== src/Mm/Memory.antt =====
-- mm/memory.c and mm/memory.h: the physical memory manager. Its static variables are the fields
-- of `Pmm`; a function that changes them returns the new record. Block numbers are `int` in the
-- source and stay far below 2 ^ 31, since an address has 32 bits and a block 4096 bytes.
pub mod Bitmap
pub mod Search
pub mod Setup
pub mod Alloc
pub mod Blocks
pub mod Trace
mod Tests
use ten_os.Util.{memset}
use ten_os.Word.{u32, sub_u32, not_u32, ◌<<<◌}
use ten_os.Prelude.{
  ℕ, zero, suc, ◌+◌, ◌-◌, ◌*◌, ◌/◌, ◌%◌, ◌^◌, bit_and, bit_or, Bool, true, false, ◌&&◌, Option,
  none, some, ltb, leb, ◌==◌, if◌then◌else◌, update,
}

abbrev pub memory_blocks_per_byte : ℕ
memory_blocks_per_byte = 8

abbrev pub memory_block_size : ℕ
memory_block_size = 4096

-- The words of the bit array are those of the memory from the pointer `mem_mngr` on: an index
-- beyond the array reaches what lies behind it.
pub record Pmm : Type 0 where
  pub mem_mngr : ℕ → ℕ
  pub max_blocks : ℕ
  pub used_blocks : ℕ
  pub size : ℕ

unfoldable pub mmap_set : Pmm → ℕ → Pmm
mmap_set m b = record m {
  mem_mngr = update m.mem_mngr (b / 32) (bit_or (m.mem_mngr (b / 32)) (1 <<< (b % 32)));
}

pub mmap_unset : Pmm → ℕ → Pmm
mmap_unset m b = record m {
  mem_mngr = update m.mem_mngr (b / 32) (bit_and (m.mem_mngr (b / 32)) (not_u32 (1 <<< (b % 32))));
}

pub mmap_test : Pmm → ℕ → ℕ
mmap_test m b = bit_and (m.mem_mngr (b / 32)) (1 <<< (b % 32))

abbrev pub get_memory_size : Pmm → ℕ
get_memory_size m = m.size

abbrev pub get_block_count : Pmm → ℕ
get_block_count m = m.max_blocks

abbrev pub get_use_block_count : Pmm → ℕ
get_use_block_count m = m.used_blocks

abbrev pub get_free_block_count : Pmm → ℕ
get_free_block_count m = sub_u32 m.max_blocks m.used_blocks

-- The u8 view of an array of u32 words, lowest byte first, and the way back.
pub bytes_of : (ℕ → ℕ) → ℕ → ℕ
bytes_of words j = words (j / 4) / 256 ^ (j % 4) % 256

pub words_of : (ℕ → ℕ) → ℕ → ℕ
words_of bytes i =
    bytes (4 * i) + 256 * (bytes (4 * i + 1) + 256 * (bytes (4 * i + 2) + 256 * bytes (4 * i + 3)))

-- `ram` is what the memory at `addr` holds before.
pub init_mem_mngr : (ℕ → ℕ) → ℕ → Pmm
init_mem_mngr ram size =
    let blocks = u32 (size * 1024) / memory_block_size in
    record {
      mem_mngr = words_of (memset (bytes_of ram) 0xf (blocks / memory_blocks_per_byte));
      max_blocks = blocks;
      used_blocks = blocks;
      size = size;
    }

-- The loop of `init_memory_region`, with the rounds that are left.
pub unset_from : ℕ → ℕ → Pmm → Pmm
unset_from zero align m = m
unset_from (suc left) align m =
    let m' = mmap_unset m align in
    unset_from left (align + 1) (record m' { used_blocks = sub_u32 m'.used_blocks 1 })

-- `for (; blocks >= 0; blocks--)` makes one round more than `blocks`.
pub init_memory_region : Pmm → ℕ → ℕ → Pmm
unfolding unset_from
init_memory_region m base size =
    let align = base / memory_block_size in
    let blocks = size / memory_block_size in mmap_set (unset_from (blocks + 1) align m) 0

-- The two nested loops that `mmap_first_free` and `mmap_first_free_s` share: the words from `i`
-- on, and in a word that is not full its bits from `j` on. `accept` is what the second one asks
-- of a clear bit besides.
module _ (m : Pmm) (accept : ℕ → Bool) where
  unfoldable pub scan_bits : ℕ → ℕ → ℕ → Option ℕ
  scan_bits zero i j = none
  scan_bits (suc left) i j =
      let rest = scan_bits left i (j + 1) in
      let found = bit_and (m.mem_mngr i) (1 <<< j) == 0 && accept (i * 32 + j) in
      if found then some (i * 32 + j) else rest

  unfoldable pub scan_words : ℕ → ℕ → Option ℕ
  scan_words zero i = none
  scan_words (suc left) i =
      let rest = scan_words left (i + 1) in
      if m.mem_mngr i == 0xffffffff
      then rest
      else elim (scan_bits 32 i 0) [ some f ↦ some f | none ↦ rest ]

-- `none` is the -1 of the source.
unfoldable pub mmap_first_free : Pmm → Option ℕ
unfolding scan_words scan_bits
mmap_first_free m = scan_words m (λ _. true) (get_block_count m / 32) 0

-- `for (count = 0; count <= size; count++)` from the block `at` on.
pub room : Pmm → ℕ → ℕ → ℕ → ℕ → Bool
room m size zero at free = false
room m size (suc left) at free =
    let free' = if mmap_test m at == 0 then free + 1 else free in
    let rest = room m size left (at + 1) free' in if free' == size then true else rest

pub mmap_first_free_s : Pmm → ℕ → Option ℕ
unfolding scan_words scan_bits room mmap_test
mmap_first_free_s m size =
    if size == 0
    then none
    else if size == 1
    then mmap_first_free m
    else scan_words m (λ b. room m size (size + 1) b 0) (get_block_count m / 32) 0

-- The address is 0 when there is no block.
unfoldable pub alloc_memory_block : Pmm → ℕ × Pmm
alloc_memory_block m = if leb (get_free_block_count m) 0 then (0, m) else elim (mmap_first_free m) [
  | none ↦ (0, m)
  | some frame ↦ (
    u32 (frame * memory_block_size),
    record (mmap_set m frame) { used_blocks = u32 (m.used_blocks + 1) },
  )
]

pub free_memory_block : Pmm → ℕ → Pmm
free_memory_block m addr = record (mmap_unset m (addr / memory_block_size)) {
  used_blocks = sub_u32 m.used_blocks 1;
}

-- The loops of `alloc_memory_blocks` and of `free_memory_blocks`.
pub set_run : ℕ → ℕ → Pmm → Pmm
set_run zero b m = m
set_run (suc left) b m = set_run left (b + 1) (mmap_set m b)

pub unset_run : ℕ → ℕ → Pmm → Pmm
unset_run zero b m = m
unset_run (suc left) b m = unset_run left (b + 1) (mmap_unset m b)

pub alloc_memory_blocks : Pmm → ℕ → ℕ × Pmm
alloc_memory_blocks m size =
    if leb (get_free_block_count m) size then (0, m) else elim (mmap_first_free_s m size) [
      | none ↦ (0, m)
      | some frame ↦ (
        u32 (frame * memory_block_size),
        record (set_run size frame m) { used_blocks = u32 (m.used_blocks + size) },
      )
    ]

pub free_memory_blocks : Pmm → ℕ → ℕ → Pmm
free_memory_blocks m addr size = record (unset_run size (addr / memory_block_size) m) {
  used_blocks = sub_u32 m.used_blocks size;
}
