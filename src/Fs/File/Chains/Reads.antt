-- ===== src/Fs/File/Chains/Reads.antt =====
-- What the loop of `fat12_read` does on a chain.
use ten_os.Fs.File.Chains.{IsChain, chain_byte, held, held-zero, lesser, held_lem, rest_or_full}
use ten_os.Word.{sub_u32}
use ten_os.Fs.File.{File, fat12_read, piece, Reading, read_round, read_loop}
use ten_os.Fs.Volume.{Volume, read_sector, cluster_lba}
use ten_os.Fs.Table.{fat12_eof_min}
use ten_os.Util.Copy.{memcpy_lem}
use ten_os.Prelude.{
  ℕ, zero, suc, ◌+◌, ◌-◌, ◌==◌, ◌*◌, ◌≤◌, ◌≡◌, List, [], ◌∷◌, length, ltb, leb, ◌&&◌, if◌then◌else◌,
  refl, arith, true, false, Bool-cases, inl, inr, some, ap, ◌∙◌, ◌⊎◌,
}

-- `r'` is `r` behind the reading of `n` bytes of the chain.
pub record ReadsChain (cs : List ℕ) (n : ℕ) (r r' : Reading) : Type 0 where
  pub count : r'.at ≡ r.at + n
  pub byte :
      (j : ℕ)
      → r'.buffer j ≡ (
          if leb r.at j && ltb j (r.at + n)
          then chain_byte r.volume.disk r.volume.mount_info cs (j - r.at)
          else r.buffer j)
  pub same_disk : r'.volume.disk ≡ r.volume.disk
  pub same_mount : r'.volume.mount_info ≡ r.volume.mount_info

no_bytes : (cs : List ℕ) (r : Reading) → ReadsChain cs 0 r r
no_bytes cs r = record {
  count = omega arith;
  byte = λ j. ground arith;
  same_disk = refl;
  same_mount = refl;
}

-- The bytes that one round copies.
round_byte :
    (r : Reading) (size j : ℕ)
    → (read_round r size).buffer j ≡ (
        if leb r.at j && ltb j (r.at + piece size)
        then r.volume.disk (cluster_lba r.volume.mount_info r.cluster) (j - r.at)
        else r.buffer j)
unfolding read_round read_sector
round_byte r size j = ground (
  arith,
  memcpy_lem (piece size) r.at 0 r.buffer
      (read_sector r.volume (cluster_lba r.volume.mount_info r.cluster)).sector_buffer j,
)

one_round :
    (c : ℕ) (cs : List ℕ) (n size : ℕ) (r r' : Reading)
    → r.cluster ≡ c
    → ReadsChain cs n (read_round r size) r'
    → (n ≡ 0) ⊎ (piece size ≡ 512)
    → ReadsChain (c ∷ cs) (piece size + n) r r'
unfolding read_round read_sector
one_round c cs n size r r' e h full = record {
  count = h.count ∙ omega arith;
  byte = λ j. ground (
    arith,
    e,
    full,
    h.byte j,
    round_byte r size j,
    ap (λ d. r.volume.disk (cluster_lba r.volume.mount_info d) (j - r.at)) e,
    ap (chain_byte r.volume.disk r.volume.mount_info cs) {x = j - (r.at + piece size)}
        {y = j - r.at - 512},
  );
  same_disk = h.same_disk;
  same_mount = h.same_mount;
}

pub read_loop_lem :
    (cs : List ℕ) (left size : ℕ) (r : Reading)
    → IsChain r.volume.mount_info.fat_buffer r.cluster cs
    → size ≤ left
    → ReadsChain cs (held cs size) r (read_loop left size r)
unfolding read_loop
read_loop_lem cs zero size r chain enough =
    let nothing : size ≡ 0 = omega arith in rw (nothing, held-zero cs) (no_bytes cs r)
read_loop_lem [] (suc left) size r chain enough =
    let at_end : ltb r.cluster fat12_eof_min ≡ false = ground arith in
    rw at_end (elim (Bool-cases (ltb 0 size)) [
      | inl more ↦ rw more (no_bytes [] r)
      | inr nothing ↦ rw nothing (no_bytes [] r)
    ])
read_loop_lem (c ∷ cs) (suc left) size r (e, inner, chain) enough = elim (Bool-cases (ltb 0 size)) [
  | inl more ↦
      let inside : ltb r.cluster fat12_eof_min ≡ true = ground arith in
      rw (more, inside)
        (one_round c cs (held cs (size - piece size)) size r _ e
          (read_loop_lem cs left (size - piece size) (read_round r size)
            (unfold read_round in unfold read_sector in chain) (ground arith))
          (rest_or_full cs size))
  | inr nothing ↦
      let none_left : size ≡ 0 = ground arith in
      rw (nothing, none_left) (rw (held-zero cs) (no_bytes (c ∷ cs) r))
]

-- For every handle that is not at its end, on a chain: `fat12_read` copies to `buffer` the chain's
-- bytes, as many as were asked for, as the file has left and as the chain holds, returns their
-- number, and changes nothing behind them in `buffer` and nothing on the disk.
pub fat12_read_lem :
    (file : File) (cs : List ℕ) (buffer : ℕ → ℕ) (size : ℕ) (v : Volume)
    → file.eof ≡ 0
    → IsChain v.mount_info.fat_buffer file.current_cluster cs
    → let (n, file', buffer', v') = fat12_read (some file) buffer size v in
      (n ≡ lesser (512 * length cs) (lesser (sub_u32 file.file_size file.position) size))
      × ((j : ℕ) → buffer' j ≡ (if ltb j n then chain_byte v.disk v.mount_info cs j else buffer j))
      × (v'.disk ≡ v.disk)
unfolding fat12_read
fat12_read_lem file cs buffer size v open_file chain =
    let asked = lesser (sub_u32 file.file_size file.position) size in
    let r : Reading = record {
      volume = v;
      buffer = buffer;
      at = 0;
      cluster = file.current_cluster;
    } in
    let h = read_loop_lem cs asked asked r chain (omega arith) in
    let started : (file.eof == 0) ≡ true = ground arith in
    let total : (read_loop asked asked r).at ≡ lesser (512 * length cs) asked =
      omega (arith, h.count, held_lem cs asked) in
    rw started (
      total,
      λ j.
          ground
            (arith, h.count, h.byte j, ap (chain_byte v.disk v.mount_info cs) {x = j - 0} {y = j}),
      h.same_disk,
    )
