-- ===== src/Drivers/Ata/Sectors.antt =====
-- The sector that a command selects, and a sector that is written and read back.
use ten_os.Drivers.Ata.{
  write_words, ata_primary_io, Io, command, is_busy, ata_read_sector, ata_write_sector,
}
use ten_os.Drivers.Ata.Transfer.{
  byte_at, fill_words, data_words, fill_words-within, fill_words-above, sent_words,
  length-sent_words, data_words-write_words, byte_at-sent_words,
}
use ten_os.Drivers.Ata.Commands.{
  All, Ready, IsClean, IsChecked, sector_writes, ata_read_sector-done, ata_write_sector-done,
}
use ten_os.Word.Bits.{bit_and-mask, bit_or-eq-add}
use ten_os.Word.{u8}
use ten_os.Prelude.{
  ℕ, ◌+◌, ◌*◌, ◌/◌, ◌%◌, ◌^◌, ◌≤◌, ◌<◌, bit_and, bit_or, ◌≡◌, refl, sym, ap, ◌∙◌, List, [], ◌∷◌,
  ◌++◌, append-nil, some, false, ◌==◌, if◌then◌else◌, length, zero, suc, ne→==-false, arith,
}

-- The value that a register holds after a list of writes, the last one to it.
abbrev pub latched : List (ℕ × ℕ) → ℕ → ℕ → ℕ
latched [] register value = value
latched ((port, v) ∷ writes) register value =
    latched writes register (if port == ata_primary_io + register then v else value)

-- The sector that a drive in LBA mode reads out of its registers, of 28 bits.
abbrev pub selected : List (ℕ × ℕ) → ℕ
selected writes =
    latched writes 3 0
    + 2 ^ 8 * latched writes 4 0
    + 2 ^ 16 * latched writes 5 0
    + 2 ^ 24 * (latched writes 6 0 % 16)

low_byte : (a : ℕ) → u8 (bit_and a 0xFF) ≡ a % 256
low_byte a = rw (bit_and-mask 8 a) (omega arith)

head : (a : ℕ) → u8 (bit_or (bit_or 0xE0 0x40) (bit_and a 0x0F)) ≡ 0xE0 + a % 16
head a = rw (bit_and-mask 4 a, bit_or-eq-add 4 14 (a % 16) (omega arith)) (omega arith)

pub command_lem :
    (lba code : ℕ)
    → let writes = command lba code in
      (selected writes ≡ lba % 2 ^ 28)
      × (latched writes 2 0 ≡ 1)
      × (latched writes 6 0 / 16 ≡ 14)
      × (latched writes 7 0 ≡ code)
unfolding command
command_lem lba code =
    rw (head (lba / 2 ^ 24), low_byte lba, low_byte (lba / 2 ^ 8), low_byte (lba / 2 ^ 16))
      (omega arith, refl, omega arith, refl)

-- What `ata_read_sector` does with a drive that gets ready and reports no error, and gives 256
-- words: it takes exactly these answers, sends the command for a read of the sector and nothing
-- else; the byte `j` below 512 of the buffer is the low or the high byte of the word `j / 2`, and
-- the bytes beyond are as before.
ata_read_sector_lem :
    (lba : ℕ) (buffer : ℕ → ℕ) (io : Io) (status a b c d : ℕ) (rest ws later : List ℕ) (j k : ℕ)
    → Ready io.bytes (status ∷ a ∷ b ∷ c ∷ d ∷ rest)
    → IsClean status
    → io.words ≡ ws ++ later
    → length ws ≡ 256
    → j < 512
    → 512 ≤ k
    → (got : ℕ → ℕ) × (ata_read_sector lba buffer io
        ≡ some
            (record { bytes = rest; words = later; writes = io.writes ++ command lba 0x20 }, got))
      × (got j ≡ byte_at ws j)
      × (got k ≡ buffer k)
ata_read_sector_lem lba buffer io status a b c d rest ws later j k r clean words long within
      beyond =
    let at : j ≡ 2 * 0 + j = omega arith in
    (
      fill_words 0 ws buffer,
      ata_read_sector-done lba buffer io status a b c d rest ws later r clean words long,
      ap (λ n. fill_words 0 ws buffer n) at ∙ fill_words-within ws 0 j buffer (omega arith),
      fill_words-above ws 0 k buffer (omega arith),
    )

pub data_words-sector_writes :
    (lba : ℕ) (buffer : ℕ → ℕ) → data_words (sector_writes lba buffer) ≡ sent_words 256 0 buffer
unfolding sector_writes command
data_words-sector_writes lba buffer = data_words-write_words 256 0 buffer _ ∙ append-nil _

-- A sector is written to an idle port, and read back into another buffer from a drive whose data
-- port gives the words that the write sent. Both calls return, whatever the status says behind the
-- write, if the drive gets ready for each and the read reports no error; each of the 512 bytes is the one that was written.
pub read_sector-write_sector :
    (lba : ℕ) (buffer other : ℕ → ℕ) (io io' : Io) (a b c d : ℕ) (flushing : List ℕ)
    (free status : ℕ) (answers rest : List ℕ) (status' a' b' c' d' : ℕ) (rest' : List ℕ) (j : ℕ)
    → io.writes ≡ []
    → Ready io.bytes (a ∷ b ∷ c ∷ d ∷ (flushing ++ (free ∷ (status ∷ answers))))
    → All is_busy flushing
    → is_busy free ≡ false
    → IsChecked status answers rest
    → Ready io'.bytes (status' ∷ a' ∷ b' ∷ c' ∷ d' ∷ rest')
    → IsClean status'
    → ((k : ℕ) → buffer k < 256)
    → j < 512
    → (sent : Io) × (back : Io) × (got : ℕ → ℕ) × (ata_write_sector lba buffer io ≡ some sent)
      × (ata_read_sector lba other (record io' { words = data_words sent.writes })
          ≡ some (back, got))
      × (got j ≡ buffer j)
read_sector-write_sector lba buffer other io io' a b c d flushing free status answers rest status'
      a' b' c' d' rest' j idle r f h checked r' clean small within =
    let ws = sent_words 256 0 buffer in
    let at : j ≡ 2 * 0 + j = omega arith in
    let words : data_words (io.writes ++ sector_writes lba buffer) ≡ ws ++ [] =
      rw idle (data_words-sector_writes lba buffer ∙ sym (append-nil ws)) in
    (
      record io { bytes = rest; writes = io.writes ++ sector_writes lba buffer },
      _,
      fill_words 0 ws other,
      ata_write_sector-done lba buffer io a b c d flushing free status answers rest r f h checked,
      ata_read_sector-done lba other _ status' a' b' c' d' rest' ws [] r' clean words
          (length-sent_words 256 0 buffer),
      ap (λ n. fill_words 0 ws other n) at
          ∙ fill_words-within ws 0 j other (omega (arith, length-sent_words 256 0 buffer))
          ∙ byte_at-sent_words 256 0 j buffer small (omega arith)
          ∙ ap buffer (sym at),
    )

-- Writes to the data port do not reach the registers.
latched-write_words :
    (left i register value : ℕ) (buffer : ℕ → ℕ) (rest : List (ℕ × ℕ))
    → 0 < register
    → latched (write_words left i buffer ++ rest) register value ≡ latched rest register value
unfolding write_words
latched-write_words zero i register value buffer rest pos = refl
latched-write_words (suc left) i register value buffer rest pos =
    rw (latched, ne→==-false ata_primary_io (ata_primary_io + register) (omega arith))
      (latched-write_words left (i + 1) register value buffer rest pos)

-- The writes of a sector select it.
pub selected-sector_writes :
    (lba : ℕ) (buffer : ℕ → ℕ) → selected (sector_writes lba buffer) ≡ lba % 2 ^ 28
unfolding sector_writes command
selected-sector_writes lba buffer =
    rw
      (
        latched-write_words 256 0 3 _ buffer ((ata_primary_io + 7, 0xE7) ∷ []) (omega arith),
        latched-write_words 256 0 4 _ buffer ((ata_primary_io + 7, 0xE7) ∷ []) (omega arith),
        latched-write_words 256 0 5 _ buffer ((ata_primary_io + 7, 0xE7) ∷ []) (omega arith),
        latched-write_words 256 0 6 _ buffer ((ata_primary_io + 7, 0xE7) ∷ []) (omega arith),
      )
      ((command_lem lba 0x30).0)
