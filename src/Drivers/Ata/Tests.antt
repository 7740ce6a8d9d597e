-- ===== src/Drivers/Ata/Tests.antt =====
-- A drive that is busy for a while, and the witnesses of the theorems on sectors.
use ten_os.Drivers.Ata.{Io, command, ata_read_sector, ata_write_sector}
use ten_os.Drivers.Ata.Samples.{bytes, bytes-Ready, writing}
use ten_os.Drivers.Ata.Transfer.{data_words}
use ten_os.Drivers.Ata.Commands.{ata_read_sector-failure}
use ten_os.Drivers.Ata.Sectors.{read_sector-write_sector}
use ten_os.Prelude.{ℕ, ◌%◌, ◌≡◌, inl, refl, [], ◌∷◌, ◌++◌, some, replicate, arith}

abbrev reading : Io
reading = record {
  bytes = bytes (0x58 ∷ 0x50 ∷ 0x50 ∷ 0x50 ∷ 0x50 ∷ []);
  words = replicate 256 0x5445 ++ [];
  writes = [];
}

abbrev failing : Io
failing = record { bytes = bytes (0x59 ∷ 0x10 ∷ 0x50 ∷ []); words = []; writes = [] }

abbrev zeros : ℕ → ℕ
zeros j = 0

abbrev counted : ℕ → ℕ
counted j = j % 256

ata_read_sector-failure_example :
    ata_read_sector 33 counted failing
    ≡ some (record failing { bytes = 0x50 ∷ []; writes = [] ++ command 33 0x20 }, counted)
ata_read_sector-failure_example =
    ata_read_sector-failure 33 counted failing 0x59 (0x10 ∷ 0x50 ∷ []) (0x50 ∷ []) (bytes-Ready _)
      (inl (omega arith, (0x10, refl)))

read_sector-write_sector_example :
    (sent : Io) × (back : Io) × (got : ℕ → ℕ) × (ata_write_sector 33 counted writing ≡ some sent)
    × (ata_read_sector 33 zeros (record reading { words = data_words sent.writes })
        ≡ some (back, got))
    × (got 300 ≡ counted 300)
read_sector-write_sector_example =
    read_sector-write_sector 33 counted zeros writing reading 0x50 0x50 0x50 0x50 (0x80 ∷ []) 0x50
      0x50 [] [] 0x58 0x50 0x50 0x50 0x50 [] 300 refl (bytes-Ready _) (refl, tt) refl
      (inl ((refl, refl), refl)) (bytes-Ready _) (refl, refl) (λ k. omega arith) (omega arith)
