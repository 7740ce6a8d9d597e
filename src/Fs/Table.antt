-- ===== src/Fs/Table.antt =====
-- The file allocation table of fs/fs.c, cached at `fat_buffer`: entries of 12 bits, two in three
-- bytes.
pub mod Entries
pub mod Chain
mod Tests
use ten_os.Word.{u16, u32, ◌<<<◌, ◌>>>◌}
use ten_os.Prelude.{
  ℕ, zero, suc, ◌+◌, ◌-◌, ◌*◌, ◌/◌, ◌%◌, ◌^◌, bit_and, bit_or, Option, none, some, ◌==◌,
  if◌then◌else◌, update,
}

abbrev pub fat12_free : ℕ
fat12_free = 0x000

abbrev pub fat12_eof_min : ℕ
fat12_eof_min = 0xFF8

abbrev pub fat12_eof : ℕ
fat12_eof = 0xFFF

-- A `u16` in the memory of bytes, low byte first, and a write of one.
abbrev pub load_u16 : (ℕ → ℕ) → ℕ → ℕ
load_u16 mem at = mem at + 256 * mem (at + 1)

abbrev pub store_u16 : (ℕ → ℕ) → ℕ → ℕ → ℕ → ℕ
store_u16 mem at v = update (update mem at (v % 256)) (at + 1) (v / 256 % 256)

-- The offset of the two bytes that hold an entry.
abbrev pub fat_offset : ℕ → ℕ
fat_offset cluster = cluster + cluster / 2

unfoldable pub get_next_cluster : (ℕ → ℕ) → ℕ → ℕ
get_next_cluster fat cluster =
    let next_cluster = load_u16 fat (fat_offset cluster) in
    if bit_and cluster 1 == 0 then bit_and next_cluster 0x0FFF else next_cluster >>> 4

unfoldable pub set_cluster_value : (ℕ → ℕ) → ℕ → ℕ → ℕ → ℕ
set_cluster_value fat cluster value =
    let at = fat_offset cluster in
    let old = load_u16 fat at in
    store_u16 fat at (
      if bit_and cluster 1 == 0
      then bit_or (bit_and old 0xF000) (bit_and value 0x0FFF)
      else u16 (bit_or (bit_and old 0x000F) (value <<< 4)))

-- `for (cluster = 2; cluster < 4084; cluster++)`, with the rounds that are left.
unfoldable pub find_free_from : ℕ → ℕ → (ℕ → ℕ) → ℕ
find_free_from zero cluster fat = 0
find_free_from (suc left) cluster fat =
    let rest = find_free_from left (cluster + 1) fat in
    if get_next_cluster fat cluster == fat12_free then cluster else rest

-- 0 when no cluster is free.
unfoldable pub find_free_cluster : (ℕ → ℕ) → ℕ
unfolding find_free_from get_next_cluster
find_free_cluster fat = find_free_from 4082 2 fat

-- The loop of `fat12_create` that allocates clusters, from round `i` on: the table that it
-- leaves, and the first cluster, or none for its `return -1`.
unfoldable pub allocate_clusters : ℕ → ℕ → ℕ → (ℕ → ℕ) → ℕ → ℕ → (ℕ → ℕ) × Option ℕ
unfolding find_free_cluster set_cluster_value
allocate_clusters zero i needed fat first prev = (fat, some first)
allocate_clusters (suc left) i needed fat first prev =
    let cluster = find_free_cluster fat in
    let linked = if i == 0 then fat else set_cluster_value fat prev cluster in
    let fat' = set_cluster_value linked cluster (if i == needed - 1 then fat12_eof else 0) in
    let rest =
      allocate_clusters left (i + 1) needed fat' (if i == 0 then cluster else first) cluster in
    if cluster == 0 then (fat, none) else rest
