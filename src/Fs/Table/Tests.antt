-- ===== src/Fs/Table/Tests.antt =====
-- The table at concrete entries.
use ten_os.Fs.Table.{get_next_cluster, set_cluster_value, find_free_cluster, allocate_clusters}
use ten_os.Fs.Table.Entries.{IsBytes, get_next_cluster-set_cluster_value}
use ten_os.Prelude.{ℕ, ◌%◌, ◌^◌, ◌≡◌, ◌≢◌, refl, if◌then◌else◌, ◌==◌, some, arith}

-- The entries 0 to 3 are in use; 2 and 3 are a chain.
abbrev small_fat : ℕ → ℕ
small_fat j =
    if j == 0
    then 0xF8
    else if j == 1
    then 0xFF
    else if j == 2
    then 0xFF
    else if j == 3
    then 0x03
    else if j == 4
    then 0xF0
    else if j == 5
    then 0xFF
    else 0

small_fat-IsBytes : IsBytes small_fat
small_fat-IsBytes j = ground arith

entries :
    (get_next_cluster small_fat 2 ≡ 3)
    × (get_next_cluster small_fat 3 ≡ 0xFFF)
    × (get_next_cluster (set_cluster_value small_fat 3 0xABC) 2 ≡ 3)
    × (find_free_cluster small_fat ≡ 4)
unfolding get_next_cluster set_cluster_value find_free_cluster
entries = (refl, refl, refl, refl)

-- Three clusters are wanted, and one is allocated.
three_clusters :
    ((allocate_clusters 3 0 3 small_fat 0 0).1 ≡ some 4)
    × (get_next_cluster (allocate_clusters 3 0 3 small_fat 0 0).0 4 ≡ 0xFFF)
    × (get_next_cluster (allocate_clusters 3 0 3 small_fat 0 0).0 5 ≡ 0)
unfolding get_next_cluster set_cluster_value find_free_cluster allocate_clusters
three_clusters = (refl, refl, refl)

get_next_cluster-set_cluster_value_example :
    get_next_cluster (set_cluster_value small_fat 3 0x1234) 2
    ≡ (if 3 == 2 then 0x1234 % 2 ^ 12 else get_next_cluster small_fat 2)
get_next_cluster-set_cluster_value_example =
    get_next_cluster-set_cluster_value small_fat 3 0x1234 2 small_fat-IsBytes

a_cluster : find_free_cluster small_fat ≢ 0
unfolding get_next_cluster find_free_cluster
a_cluster = omega arith
