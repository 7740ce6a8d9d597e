-- ===== src/Fs/File/Chains/Writes.antt =====
-- What the loop of `fat12_write` does on a chain.
use ten_os.Fs.File.Chains.{
  IsChain, chain_byte, held, held-zero, lesser, held_lem, rest_or_full, uses, separate,
}
use ten_os.Fs.File.{File, fat12_write, piece, Writing, write_round, write_loop}
use ten_os.Fs.Volume.{Volume, write_sector, cluster_lba}
use ten_os.Fs.Table.{fat12_eof_min}
use ten_os.Util.{memset}
use ten_os.Util.Copy.{memcpy_lem}
use ten_os.Prelude.{
  ℕ, zero, suc, ◌+◌, ◌-◌, ◌*◌, ◌≤◌, ◌<◌, ◌≡◌, List, [], ◌∷◌, length, ltb, ◌&&◌, ◌==◌, if◌then◌else◌,
  refl, arith, true, false, Bool-cases, inl, inr, some, ap, ◌∙◌, ◌⊎◌,
}

-- `w'` is `w` behind the writing of `n` bytes of `buffer` to the chain.
pub record WritesChain (buffer : ℕ → ℕ) (cs : List ℕ) (n : ℕ) (w w' : Writing) : Type 0 where
  pub count : w'.at ≡ w.at + n
  pub byte :
      (i : ℕ) → i < n → chain_byte w'.volume.disk w.volume.mount_info cs i ≡ buffer (w.at + i)
  pub elsewhere :
      (lba i : ℕ)
      → uses w.volume.mount_info lba cs ≡ false
      → w'.volume.disk lba i ≡ w.volume.disk lba i
  pub same_mount : w'.volume.mount_info ≡ w.volume.mount_info

nothing_written : (buffer : ℕ → ℕ) (cs : List ℕ) (w : Writing) → WritesChain buffer cs 0 w w
nothing_written buffer cs w = record {
  count = omega arith;
  byte = λ i p. absurd (omega arith);
  elsewhere = λ lba i p. refl;
  same_mount = refl;
}

round_disk :
    (buffer : ℕ → ℕ) (w : Writing) (size lba i : ℕ)
    → (write_round buffer w size).volume.disk lba i ≡ (
        if cluster_lba w.volume.mount_info w.cluster == lba && ltb i 512
        then if ltb i (piece size) then buffer (w.at + i) else memset w.volume.sector_buffer 0 512 i
        else w.volume.disk lba i)
unfolding write_round write_sector
round_disk buffer w size lba i = ground (
  arith,
  memcpy_lem (piece size) 0 w.at (memset w.volume.sector_buffer 0 512) buffer i,
  ap (λ l. w.volume.disk l i) {x = cluster_lba w.volume.mount_info w.cluster} {y = lba},
)

one_round :
    (buffer : ℕ → ℕ) (cs : List ℕ) (n size : ℕ) (w w' : Writing)
    → separate w.volume.mount_info (w.cluster ∷ cs) ≡ true
    → WritesChain buffer cs n (write_round buffer w size) w'
    → (n ≡ 0) ⊎ (piece size ≡ 512)
    → WritesChain buffer (w.cluster ∷ cs) (piece size + n) w w'
unfolding write_round write_sector
one_round buffer cs n size w w' apart h full = record {
  count = h.count ∙ omega arith;
  byte = λ i p.
      let own = cluster_lba w.volume.mount_info w.cluster in
      let unused : uses w.volume.mount_info own cs ≡ false = ground arith in
      ground (
        arith,
        full,
        h.byte (i - 512),
        h.elsewhere own i unused,
        round_disk buffer w size own i,
        ap buffer {x = w.at + piece size + (i - 512)} {y = w.at + i},
      );
  elsewhere = λ lba i p.
      let unused : uses w.volume.mount_info lba cs ≡ false = ground arith in
      let other : (cluster_lba w.volume.mount_info w.cluster == lba) ≡ false = ground arith in
      h.elsewhere lba i unused ∙ round_disk buffer w size lba i ∙ rw other refl;
  same_mount = h.same_mount;
}

pub write_loop_lem :
    (buffer : ℕ → ℕ) (cs : List ℕ) (left size : ℕ) (w : Writing)
    → IsChain w.volume.mount_info.fat_buffer w.cluster cs
    → separate w.volume.mount_info cs ≡ true
    → size ≤ left
    → WritesChain buffer cs (held cs size) w (write_loop buffer left size w)
unfolding write_loop
write_loop_lem buffer cs zero size w chain apart enough =
    let nothing : size ≡ 0 = omega arith in rw (nothing, held-zero cs) (nothing_written buffer cs w)
write_loop_lem buffer [] (suc left) size w chain apart enough =
    let at_end : ltb w.cluster fat12_eof_min ≡ false = ground arith in
    rw at_end (elim (Bool-cases (ltb 0 size)) [
      | inl more ↦ rw more (nothing_written buffer [] w)
      | inr nothing ↦ rw nothing (nothing_written buffer [] w)
    ])
write_loop_lem buffer (c ∷ cs) (suc left) size w (e, inner, chain) apart enough =
    elim (Bool-cases (ltb 0 size)) [
      | inl more ↦
          let inside : ltb w.cluster fat12_eof_min ≡ true = ground arith in
          let rest : separate w.volume.mount_info cs ≡ true = ground arith in
          rw (more, inside, ← e)
            (one_round buffer cs (held cs (size - piece size)) size w _ (rw e apart)
              (write_loop_lem buffer cs left (size - piece size) (write_round buffer w size)
                (unfold write_round in unfold write_sector in chain)
                (unfold write_round in unfold write_sector in rest) (ground arith))
              (rest_or_full cs size))
      | inr nothing ↦
          let none_left : size ≡ 0 = ground arith in
          rw (nothing, none_left) (rw (held-zero cs) (nothing_written buffer (c ∷ cs) w))
    ]

-- For every file on a chain whose sectors differ: `fat12_write` stores in the chain's sectors the
-- bytes of `buffer`, as many as were given and as the chain holds, returns their number, and
-- changes no other sector.
pub fat12_write_lem :
    (file : File) (cs : List ℕ) (buffer : ℕ → ℕ) (size : ℕ) (v : Volume)
    → IsChain v.mount_info.fat_buffer file.first_cluster cs
    → separate v.mount_info cs ≡ true
    → let (written, file', v') = fat12_write (some file) buffer size v in
      (written ≡ some (lesser (512 * length cs) size))
      × ((i : ℕ)
          → i < lesser (512 * length cs) size
          → chain_byte v'.disk v.mount_info cs i ≡ buffer i)
      × ((lba i : ℕ) → uses v.mount_info lba cs ≡ false → v'.disk lba i ≡ v.disk lba i)
      × (v'.mount_info ≡ v.mount_info)
unfolding fat12_write
fat12_write_lem file cs buffer size v chain apart =
    let w : Writing = record { volume = v; at = 0; cluster = file.first_cluster } in
    let h = write_loop_lem buffer cs size size w chain apart (omega arith) in
    let total : (write_loop buffer size size w).at ≡ lesser (512 * length cs) size =
      omega (arith, h.count, held_lem cs size) in
    (
      ap some total,
      λ i p. ground (arith, h.byte i, held_lem cs size, ap buffer {x = 0 + i} {y = i}),
      h.elsewhere,
      h.same_mount,
    )
