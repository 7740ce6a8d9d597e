-- ===== src/Fs/File/Chains/Tests.antt =====
-- A file of two clusters, and the witnesses of the theorems on reading and writing.
use ten_os.Fs.File.{File, fat12_read, fat12_write}
use ten_os.Fs.File.Chains.{IsChain}
use ten_os.Fs.File.Chains.Roundtrip.{reopened, fat12_read-fat12_write}
use ten_os.Fs.Table.{get_next_cluster}
use ten_os.Fs.Volume.{Volume}
use ten_os.Prelude.{ℕ, List, [], ◌∷◌, ◌≡◌, refl, ◌%◌, get_or, if◌then◌else◌, ltb, some, arith}

-- Cluster 2 leads to 3, and 3 is the last.
abbrev table : List ℕ
table = 0 ∷ 0 ∷ 0 ∷ 3 ∷ 240 ∷ 255 ∷ []

abbrev volume : Volume
volume = record {
  mount_info = record {
    fat_start = 112;
    root_start = 136;
    root_size = 32;
    data_start = 168;
    sectors_per_fat = 12;
    bytes_per_sector = 512;
    sectors_per_cluster = 1;
    root_entries = 512;
    fat_buffer = λ j. get_or table j 0;
  };
  sector_buffer = λ j. 0;
  disk = λ lba j. lba;
}

abbrev file : File
file = record {
  name = 97 ∷ [];
  first_cluster = 2;
  current_cluster = 2;
  file_size = 600;
  position = 0;
  attributes = 32;
  eof = 0;
}

abbrev data_in : ℕ → ℕ
data_in j = j % 256

abbrev empty : ℕ → ℕ
empty j = 0

abbrev clusters : List ℕ
clusters = 2 ∷ 3 ∷ []

chain : IsChain volume.mount_info.fat_buffer 2 clusters
unfolding get_next_cluster
chain = (refl, omega arith, (refl, omega arith, omega arith))

fat12_read-fat12_write_example :
    let (written, file', v') = fat12_write (some file) data_in 550 volume in
    let (n, file'', buffer', v'') = fat12_read (some (reopened file)) empty 550 v' in
    (written ≡ some 550)
    × (n ≡ 550)
    × ((j : ℕ) → buffer' j ≡ (if ltb j 550 then data_in j else empty j))
fat12_read-fat12_write_example =
    fat12_read-fat12_write file clusters data_in empty 550 volume chain refl (omega arith)
      (omega arith) (omega arith)
