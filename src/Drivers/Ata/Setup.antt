-- ===== src/Drivers/Ata/Setup.antt =====
-- ata_init and ata_identify of drivers/ata.c.
use ten_os.Drivers.Ata.{
  ata_primary_io, ata_primary_control, ata_drive_master, ata_cmd_identify, Io, out, ◌>>=◌, io_wait,
  ata_wait_bsy, ata_wait_drq, ata_wait_ready, ata_check_error, read_words,
}
use ten_os.Prelude.{ℕ, ◌+◌, ◌*◌, ◌^◌, List, [], ◌∷◌, ◌++◌, Option, none, some, ◌==◌, if◌then◌else◌}

pub ata_init : Io → Option Io
ata_init io = io_wait (out ata_primary_control 0x04 io) >>= λ waited.
    ata_wait_ready (out ata_primary_control 0x00 waited)

-- The writes of `ata_identify` behind the first one and its `io_wait`.
unfoldable pub identify_registers : List (ℕ × ℕ)
identify_registers =
    (ata_primary_io + 2, 0)
    ∷ (ata_primary_io + 3, 0)
    ∷ (ata_primary_io + 4, 0)
    ∷ (ata_primary_io + 5, 0)
    ∷ (ata_primary_io + 7, ata_cmd_identify)
    ∷ []

abbrev pub read_byte : Io → Option (ℕ × Io)
read_byte io = elim io.bytes [
  | [] ↦ none
  | status ∷ rest ↦ some (status, record io { bytes = rest })
]

-- The number of sectors that is shown with the result 0, or none with the result -1. The array
-- starts with unknown contents, which the words replace.
pub ata_identify : (ℕ → ℕ) → Io → Option (Io × Option ℕ)
ata_identify identify_data io = io_wait (out (ata_primary_io + 6) ata_drive_master io) >>= λ chosen.
    io_wait (record chosen { writes = chosen.writes ++ identify_registers }) >>= λ asked.
    read_byte asked >>= λ answer.
    if answer.0 == 0
    then some (answer.1, none)
    else ata_wait_bsy answer.1 >>= λ free. ata_check_error free >>= λ checked.
        if checked.0
        then some (checked.1, none)
        else ata_wait_drq checked.1 >>= λ ready.
            read_words 256 0 ready.words identify_data >>= λ got. some (
              record ready { words = got.1 },
              some (got.0 120 + 2 ^ 8 * got.0 121 + 2 ^ 16 * got.0 122 + 2 ^ 24 * got.0 123),
            )
