-- ===== src/Fs/Volume/Driver.antt =====
-- `read_sector` and `write_sector` of drivers/ata.c as the file system takes them, on the driver.
use ten_os.Fs.Volume.{Volume, write_sector}
use ten_os.Drivers.Ata.{Io, is_busy, ata_write_sector}
use ten_os.Drivers.Ata.Transfer.{byte_at, data_words, byte_at-sent_words}
use ten_os.Drivers.Ata.Commands.{All, Ready, IsChecked, sector_writes, ata_write_sector-done}
use ten_os.Drivers.Ata.Sectors.{selected, selected-sector_writes, data_words-sector_writes}
use ten_os.Prelude.{ℕ, ◌+◌, ◌*◌, ◌^◌, ◌<◌, ◌≡◌, ap, ◌∙◌, List, ◌∷◌, ◌++◌, some, false, arith}

stored_byte :
    (v : Volume) (lba : ℕ) (buffer : ℕ → ℕ) (j : ℕ)
    → j < 512
    → buffer (2 * 0 + j) ≡ (write_sector v lba buffer).disk lba j
unfolding write_sector
stored_byte v lba buffer j bound = ground (arith, ap buffer {x = 2 * 0 + j} {y = j})

-- A drive that gets ready for the command, and free again behind the flush: the driver returns
-- whatever the status says then. Its writes select the sector, and the words that it sends are the
-- bytes that `write_sector` of the volume stores there.
pub ata_write_sector-write_sector :
    (v : Volume) (lba : ℕ) (buffer : ℕ → ℕ) (io : Io) (a b c d : ℕ) (flushing : List ℕ)
    (free status : ℕ) (answers rest : List ℕ) (j : ℕ)
    → Ready io.bytes (a ∷ b ∷ c ∷ d ∷ (flushing ++ (free ∷ (status ∷ answers))))
    → All is_busy flushing
    → is_busy free ≡ false
    → IsChecked status answers rest
    → lba < 2 ^ 28
    → ((k : ℕ) → buffer k < 256)
    → j < 512
    → (ws : List (ℕ × ℕ)) × (ata_write_sector lba buffer io
        ≡ some (record io { bytes = rest; writes = io.writes ++ ws }))
      × (selected ws ≡ lba)
      × (byte_at (data_words ws) j ≡ (write_sector v lba buffer).disk lba j)
ata_write_sector-write_sector v lba buffer io a b c d flushing free status answers rest j r f h
      checked small bytes bound =
    (
      sector_writes lba buffer,
      ata_write_sector-done lba buffer io a b c d flushing free status answers rest r f h checked,
      selected-sector_writes lba buffer ∙ omega arith,
      rw (data_words-sector_writes lba buffer) (
          byte_at-sent_words 256 0 j buffer bytes (omega arith) ∙ stored_byte v lba buffer j bound),
    )
