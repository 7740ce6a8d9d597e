-- ===== src/Fs/Volume/Tests.antt =====
-- The witnesses of the theorems on the driver behind a volume.
use ten_os.Fs.Volume.{Volume, write_sector}
use ten_os.Fs.Volume.Driver.{ata_write_sector-write_sector}
use ten_os.Drivers.Ata.{Io, ata_write_sector}
use ten_os.Drivers.Ata.Samples.{bytes, bytes-Ready, writing}
use ten_os.Drivers.Ata.Sectors.{selected}
use ten_os.Drivers.Ata.Transfer.{byte_at, data_words, sent_words}
use ten_os.Prelude.{ℕ, ◌%◌, ◌≡◌, inl, refl, List, [], ◌∷◌, ◌++◌, some, arith}

-- The bytes of each sector count up.
abbrev volume : Volume
volume = record {
  mount_info = record {
    fat_start = 1;
    root_start = 3;
    root_size = 1;
    data_start = 4;
    sectors_per_fat = 1;
    bytes_per_sector = 512;
    sectors_per_cluster = 1;
    root_entries = 16;
    fat_buffer = λ j. 0;
  };
  sector_buffer = λ j. 0;
  disk = λ lba j. j % 256;
}

abbrev reading : Io
reading = record {
  bytes = bytes (0x58 ∷ 0x50 ∷ 0x50 ∷ 0x50 ∷ 0x50 ∷ []);
  words = sent_words 256 0 (volume.disk 33) ++ [];
  writes = [];
}

ata_write_sector-write_sector_example :
    (ws : List (ℕ × ℕ)) × (ata_write_sector 33 (λ k. 7) writing
      ≡ some (record writing { bytes = []; writes = [] ++ ws }))
    × (selected ws ≡ 33)
    × (byte_at (data_words ws) 300 ≡ (write_sector volume 33 (λ k. 7)).disk 33 300)
ata_write_sector-write_sector_example =
    ata_write_sector-write_sector volume 33 (λ k. 7) writing 0x50 0x50 0x50 0x50 (0x80 ∷ []) 0x50
      0x50 [] [] 300 (bytes-Ready _) (refl, tt) refl (inl ((refl, refl), refl)) (omega arith)
      (λ k. omega arith) (omega arith)
