-- ===== src/Fs/File/Chains.antt =====
-- The clusters of a file as a list, and its bytes as one sequence.
pub mod Reads
pub mod Writes
pub mod Roundtrip
mod Tests
use ten_os.Fs.Volume.{MountInfo, cluster_lba}
use ten_os.Fs.Table.{get_next_cluster, fat12_eof_min}
use ten_os.Fs.File.{piece}
use ten_os.Prelude.{
  ℕ, zero, suc, ◌+◌, ◌-◌, ◌*◌, ◌≤◌, ◌<◌, ◌≡◌, List, [], ◌∷◌, length, ltb, if◌then◌else◌, refl,
  arith, ap, ◌∙◌, ◌⊎◌, inl, inr, Bool, true, false, Bool-cases, not, ◌==◌, ◌&&◌, ◌||◌,
}

-- The table leads from the cluster `c` through the clusters of the list to an end mark.
abbrev pub IsChain : (ℕ → ℕ) → ℕ → List ℕ → Type 0
IsChain fat c [] = fat12_eof_min ≤ c
IsChain fat c (d ∷ ds) = (c ≡ d) × (c < fat12_eof_min) × IsChain fat (get_next_cluster fat c) ds

-- Byte `i` of the clusters of a chain, one sector of 512 bytes for each.
abbrev pub chain_byte : (ℕ → ℕ → ℕ) → MountInfo → List ℕ → ℕ → ℕ
chain_byte disk m [] i = 0
chain_byte disk m (c ∷ cs) i =
    if ltb i 512 then disk (cluster_lba m c) i else chain_byte disk m cs (i - 512)

-- How many of `size` bytes the clusters hold, counted as the loops go.
abbrev pub held : List ℕ → ℕ → ℕ
held [] size = 0
held (c ∷ cs) size = piece size + held cs (size - piece size)

abbrev pub lesser : ℕ → ℕ → ℕ
lesser a b = if ltb a b then a else b

-- That is the smaller of `size` and the chain's capacity.
pub held_lem : (cs : List ℕ) (size : ℕ) → held cs size ≡ lesser (512 * length cs) size
held_lem [] size = ground arith
held_lem (c ∷ cs) size = ground (arith, held_lem cs (size - piece size))

-- Whether a sector belongs to a cluster of the list.
abbrev pub uses : MountInfo → ℕ → List ℕ → Bool
uses m lba [] = false
uses m lba (c ∷ cs) = cluster_lba m c == lba || uses m lba cs

-- No two clusters of the list share their sector.
abbrev pub separate : MountInfo → List ℕ → Bool
separate m [] = true
separate m (c ∷ cs) = not (uses m (cluster_lba m c) cs) && separate m cs

pub held-zero : (cs : List ℕ) → held cs 0 ≡ 0
held-zero cs = ground (arith, held_lem cs 0)

-- Either a round of the loops is the last one, or it moves a whole sector.
pub rest_or_full : (cs : List ℕ) (size : ℕ) → (held cs (size - piece size) ≡ 0) ⊎ (piece size ≡ 512)
rest_or_full cs size = elim (Bool-cases (ltb 512 size)) [
  | inl long ↦ rw long (inr refl)
  | inr short ↦
      let none_left : size - piece size ≡ 0 = ground arith in
      inl (ap (held cs) none_left ∙ held-zero cs)
]
