-- ===== src/Drivers/Ata.antt =====
-- drivers/ata.c. The drive is what it answers: the bytes that reads of its registers give, in the
-- order of the reads, and the words that reads of its data port give. A function that waits for an
-- answer that is not there yields none. The messages on the screen are left out.
pub mod Transfer
pub mod Commands
pub mod Sectors
pub mod Setup
pub mod Samples
mod Tests
use ten_os.Word.{u8, u32, ◌>>>◌}
use ten_os.Prelude.{
  ℕ, zero, suc, ◌+◌, ◌-◌, ◌*◌, ◌/◌, ◌%◌, ◌^◌, bit_and, bit_or, List, [], ◌∷◌, ◌++◌, Option, none,
  some, Bool, true, false, not, ◌||◌, leb, ◌==◌, if◌then◌else◌, update,
}

-- The status bits, the ports, and the commands.
abbrev pub ata_sr_bsy : ℕ
ata_sr_bsy = 0x80

abbrev pub ata_sr_drdy : ℕ
ata_sr_drdy = 0x40

abbrev pub ata_sr_df : ℕ
ata_sr_df = 0x20

abbrev pub ata_sr_drq : ℕ
ata_sr_drq = 0x08

abbrev pub ata_sr_err : ℕ
ata_sr_err = 0x01

abbrev pub ata_primary_io : ℕ
ata_primary_io = 0x1F0

abbrev pub ata_primary_control : ℕ
ata_primary_control = 0x3F6

abbrev pub ata_cmd_read_pio : ℕ
ata_cmd_read_pio = 0x20

abbrev pub ata_cmd_write_pio : ℕ
ata_cmd_write_pio = 0x30

abbrev pub ata_cmd_cache_flush : ℕ
ata_cmd_cache_flush = 0xE7

abbrev pub ata_cmd_identify : ℕ
ata_cmd_identify = 0xEC

abbrev pub ata_drive_master : ℕ
ata_drive_master = 0xE0

-- The answers that are left, and the writes to ports so far: the port and the byte or word.
pub record Io : Type 0 where
  pub bytes : List ℕ
  pub words : List ℕ
  pub writes : List (ℕ × ℕ)

abbrev pub out : ℕ → ℕ → Io → Io
out port value io = record io { writes = io.writes ++ (port, value) ∷ [] }

infixl 5 ◌>>=◌
abbrev pub ◌>>=◌ : {A B : Type 0} → Option A → (A → Option B) → Option B
none >>= f = none
some a >>= f = f a

-- The four reads of `io_wait`.
unfoldable pub skip_bytes : List ℕ → Option (List ℕ)
skip_bytes (a ∷ b ∷ c ∷ d ∷ rest) = some rest
skip_bytes _ = none

abbrev pub io_wait : Io → Option Io
io_wait io = skip_bytes io.bytes >>= λ rest. some (record io { bytes = rest })

-- `do { status = port_byte_in(...); } while (...)`: the answers behind the one that ends the loop.
unfoldable pub poll : (ℕ → Bool) → List ℕ → Option (List ℕ)
poll again [] = none
poll again (status ∷ rest) = if again status then poll again rest else some rest

abbrev pub is_busy : ℕ → Bool
is_busy status = not (bit_and status ata_sr_bsy == 0)

abbrev pub has_no_data : ℕ → Bool
has_no_data status = bit_and status ata_sr_drq == 0

abbrev pub is_not_ready : ℕ → Bool
is_not_ready status = bit_and status ata_sr_drdy == 0 || not (bit_and status ata_sr_bsy == 0)

abbrev pub wait : (ℕ → Bool) → Io → Option Io
wait again io = poll again io.bytes >>= λ rest. some (record io { bytes = rest })

pub ata_wait_bsy : Io → Option Io
ata_wait_bsy = wait is_busy

pub ata_wait_drq : Io → Option Io
ata_wait_drq = wait has_no_data

pub ata_wait_ready : Io → Option Io
ata_wait_ready = wait is_not_ready

-- An error takes a second read, of the error register.
unfoldable pub check_bytes : List ℕ → Option (Bool × List ℕ)
check_bytes [] = none
check_bytes (status ∷ []) =
    if not (bit_and status ata_sr_err == 0)
    then none
    else some (not (bit_and status ata_sr_df == 0), [])
check_bytes (status ∷ next ∷ rest) =
    if not (bit_and status ata_sr_err == 0)
    then some (true, rest)
    else some (not (bit_and status ata_sr_df == 0), next ∷ rest)

pub ata_check_error : Io → Option (Bool × Io)
ata_check_error io =
    check_bytes io.bytes >>= λ checked. some (checked.0, record io { bytes = checked.1 })

-- The writes that select the sector and start a command.
unfoldable pub command : ℕ → ℕ → List (ℕ × ℕ)
command lba code =
    (ata_primary_io + 6, u8 (bit_or (bit_or ata_drive_master 0x40) (bit_and (lba >>> 24) 0x0F)))
    ∷ (ata_primary_io + 2, 1)
    ∷ (ata_primary_io + 3, u8 (bit_and lba 0xFF))
    ∷ (ata_primary_io + 4, u8 (bit_and (lba >>> 8) 0xFF))
    ∷ (ata_primary_io + 5, u8 (bit_and (lba >>> 16) 0xFF))
    ∷ (ata_primary_io + 7, code)
    ∷ []

abbrev pub start : ℕ → ℕ → Io → Io
start lba code io = record io { writes = io.writes ++ command lba code }

-- `buf16[i] = port_word_in(...)` for the rounds that are left: the buffer and the words behind.
pub read_words : ℕ → ℕ → List ℕ → (ℕ → ℕ) → Option ((ℕ → ℕ) × List ℕ)
read_words zero i words buffer = some (buffer, words)
read_words (suc left) i [] buffer = none
read_words (suc left) i (w ∷ words) buffer =
    read_words left (i + 1) words
      (update (update buffer (2 * i) (w % 256)) (2 * i + 1) (w / 256 % 256))

-- `port_word_out(..., buf16[i])`
unfoldable pub write_words : ℕ → ℕ → (ℕ → ℕ) → List (ℕ × ℕ)
write_words zero i buffer = []
write_words (suc left) i buffer =
    (ata_primary_io, buffer (2 * i) + 256 * buffer (2 * i + 1)) ∷ write_words left (i + 1) buffer

-- The state behind the call and the buffer.
pub ata_read_sector : ℕ → (ℕ → ℕ) → Io → Option (Io × (ℕ → ℕ))
ata_read_sector lba buffer io = ata_wait_bsy io >>= λ free.
    ata_wait_drq (start lba ata_cmd_read_pio free) >>= λ ready. ata_check_error ready >>= λ checked.
    if checked.0
    then some (checked.1, buffer)
    else read_words 256 0 checked.1.words buffer >>= λ got.
        io_wait (record checked.1 { words = got.1 }) >>= λ done. some (done, got.0)

pub ata_write_sector : ℕ → (ℕ → ℕ) → Io → Option Io
ata_write_sector lba buffer io = ata_wait_bsy io >>= λ free.
    ata_wait_drq (start lba ata_cmd_write_pio free) >>= λ ready.
    io_wait (record ready { writes = ready.writes ++ write_words 256 0 buffer }) >>= λ sent.
    ata_wait_bsy (out (ata_primary_io + 7) ata_cmd_cache_flush sent) >>= λ flushed.
    ata_check_error flushed >>= λ checked. some checked.1

-- The loops over several sectors, from sector `i` on.
pub read_sectors_from : ℕ → ℕ → ℕ → (ℕ → ℕ) → Io → Option (Io × (ℕ → ℕ))
read_sectors_from zero i lba buffer io = some (io, buffer)
read_sectors_from (suc left) i lba buffer io =
    ata_read_sector (u32 (lba + i)) (λ j. buffer (i * 512 + j)) io >>= λ r.
    read_sectors_from left (i + 1) lba
      (λ j. if leb (i * 512) j then r.1 (j - i * 512) else buffer j) r.0

pub ata_read_sectors : ℕ → ℕ → (ℕ → ℕ) → Io → Option (Io × (ℕ → ℕ))
ata_read_sectors lba sector_count buffer io = read_sectors_from sector_count 0 lba buffer io

pub write_sectors_from : ℕ → ℕ → ℕ → (ℕ → ℕ) → Io → Option Io
write_sectors_from zero i lba buffer io = some io
write_sectors_from (suc left) i lba buffer io =
    ata_write_sector (u32 (lba + i)) (λ j. buffer (i * 512 + j)) io >>= λ io'.
    write_sectors_from left (i + 1) lba buffer io'

pub ata_write_sectors : ℕ → ℕ → (ℕ → ℕ) → Io → Option Io
ata_write_sectors lba sector_count buffer io = write_sectors_from sector_count 0 lba buffer io
