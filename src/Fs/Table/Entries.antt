-- ===== src/Fs/Table/Entries.antt =====
-- Entries of the table are read as they were written, and do not disturb one another.
use ten_os.Fs.Table.{get_next_cluster, set_cluster_value, fat_offset, load_u16}
use ten_os.Word.Bits.{bit_or-eq-add, bit_or_comm, bit_and-shift, bit_and-mask}
use native.Mathlib.Decide.{ℕ_discrete}
use ten_os.Word.{u16}
use ten_os.Prelude.{
  ℕ, ◌+◌, ◌*◌, ◌/◌, ◌%◌, ◌^◌, ◌<◌, bit_and, bit_or, ◌≡◌, ◌==◌, if◌then◌else◌, arith,
}

abbrev pub IsBytes : (ℕ → ℕ) → Type 0
IsBytes mem = (j : ℕ) → mem j < 256

odd_test : (c : ℕ) → bit_and c 1 ≡ c % 2
odd_test c = bit_and-mask 1 c

-- An entry by the bytes that hold it.
pub get_next_cluster_bytes :
    (fat : ℕ → ℕ) (c : ℕ)
    → get_next_cluster fat c ≡ (
        if c % 2 == 0
        then (fat (fat_offset c) + 256 * fat (fat_offset c + 1)) % 2 ^ 12
        else (fat (fat_offset c) + 256 * fat (fat_offset c + 1)) / 16)
unfolding get_next_cluster
get_next_cluster_bytes fat c =
    ground (arith, odd_test c, bit_and-mask 12 (load_u16 fat (fat_offset c)))

high_nibble : (w : ℕ) → w < 2 ^ 16 → bit_and w 0xF000 ≡ w / 2 ^ 12 * 2 ^ 12
high_nibble w h = omega (arith, bit_and-shift 12 w 15, bit_and-mask 4 (w / 2 ^ 12))

-- The word that is written for an even and for an odd entry.
even_word :
    (w v : ℕ)
    → w < 2 ^ 16
    → bit_or (bit_and w 0xF000) (bit_and v 0x0FFF) ≡ w / 2 ^ 12 * 2 ^ 12 + v % 2 ^ 12
even_word w v h =
    rw (high_nibble w h, bit_and-mask 12 v)
      (bit_or-eq-add 12 (w / 2 ^ 12) (v % 2 ^ 12) (omega arith))

odd_word : (w v : ℕ) → u16 (bit_or (bit_and w 0x000F) (v * 2 ^ 4)) ≡ w % 16 + v % 2 ^ 12 * 16
odd_word w v =
    rw
      (
        bit_and-mask 4 w,
        bit_or_comm (w % 2 ^ 4) (v * 2 ^ 4),
        bit_or-eq-add 4 v (w % 2 ^ 4) (omega arith),
      )
      (omega arith)

-- The two bytes that a write of an entry leaves, and that no other byte changes.
even_bytes :
    (fat : ℕ → ℕ) (c v j : ℕ)
    → IsBytes fat
    → c % 2 ≡ 0
    → let at = fat_offset c in
      set_cluster_value fat c v j ≡ (
        if at + 1 == j
        then fat (at + 1) / 16 * 16 + v / 256 % 16
        else if at == j
        then v % 256
        else fat j)
unfolding set_cluster_value
even_bytes fat c v j bytes even =
    let at = fat_offset c in
    ground (arith, odd_test c, even_word (load_u16 fat at) v, bytes at, bytes (at + 1))

odd_bytes :
    (fat : ℕ → ℕ) (c v j : ℕ)
    → IsBytes fat
    → c % 2 ≡ 1
    → let at = fat_offset c in
      set_cluster_value fat c v j
      ≡ (if at + 1 == j then v / 16 % 256 else if at == j then fat at % 16 + v % 16 * 16 else fat j)
unfolding set_cluster_value
odd_bytes fat c v j bytes odd =
    let at = fat_offset c in
    ground (arith, odd_test c, odd_word (load_u16 fat at) v, bytes at, bytes (at + 1))

pub set_cluster_value-IsBytes :
    (fat : ℕ → ℕ) (c v : ℕ) → IsBytes fat → IsBytes (set_cluster_value fat c v)
set_cluster_value-IsBytes fat c v bytes j = ground (
  arith,
  even_bytes fat c v j bytes,
  odd_bytes fat c v j bytes,
  bytes j,
  bytes (fat_offset c),
  bytes (fat_offset c + 1),
)

-- Reading entry `d` after writing `v` to entry `c` gives the low 12 bits of `v` if they are the
-- same entry, and else what it gave before.
pub get_next_cluster-set_cluster_value :
    (fat : ℕ → ℕ) (c v d : ℕ)
    → IsBytes fat
    → get_next_cluster (set_cluster_value fat c v) d
      ≡ (if c == d then v % 2 ^ 12 else get_next_cluster fat d)
get_next_cluster-set_cluster_value fat c v d bytes = elim (ℕ_discrete (c % 2) 0) [
  | yes even ↦ ground (
    arith,
    get_next_cluster_bytes fat d,
    get_next_cluster_bytes (set_cluster_value fat c v) d,
    even_bytes fat c v (fat_offset d) bytes even,
    even_bytes fat c v (fat_offset d + 1) bytes even,
    bytes (fat_offset c),
    bytes (fat_offset c + 1),
    bytes (fat_offset d),
    bytes (fat_offset d + 1),
  )
  | no odd ↦ ground (
    arith,
    get_next_cluster_bytes fat d,
    get_next_cluster_bytes (set_cluster_value fat c v) d,
    odd_bytes fat c v (fat_offset d) bytes (omega arith),
    odd_bytes fat c v (fat_offset d + 1) bytes (omega arith),
    bytes (fat_offset c),
    bytes (fat_offset c + 1),
    bytes (fat_offset d),
    bytes (fat_offset d + 1),
  )
]
