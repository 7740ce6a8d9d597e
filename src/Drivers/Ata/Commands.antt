-- ===== src/Drivers/Ata/Commands.antt =====
-- What `ata_read_sector` and `ata_write_sector` ask of the drive.
use ten_os.Drivers.Ata.{
  start, ◌>>=◌, ata_sr_err, ata_sr_df, ata_primary_io, Io, poll, check_bytes, is_busy, has_no_data,
  command, skip_bytes, ata_wait_bsy, ata_wait_drq, ata_check_error, ata_read_sector,
  ata_write_sector, write_words, read_words,
}
use ten_os.Drivers.Ata.Transfer.{fill_words, read_words_lem}
use ten_os.Prelude.{
  ℕ, ◌+◌, bit_and, ◌≡◌, ◌≢◌, ◌⊎◌, inl, inr, refl, sym, ap, ◌∙◌, List, [], ◌∷◌, ◌++◌, append_assoc,
  Option, none, some, Bool, true, false, length, arith,
}

-- Every answer in the list is one that the loop goes on for.
abbrev pub All : (ℕ → Bool) → List ℕ → Type 0
All again [] = Unit
All again (status ∷ rest) = (again status ≡ true) × All again rest

pub poll_lem :
    (again : ℕ → Bool) (before : List ℕ) (last : ℕ) (rest : List ℕ)
    → All again before
    → again last ≡ false
    → poll again (before ++ (last ∷ rest)) ≡ some rest
unfolding poll
poll_lem again [] last rest _ h = rw h refl
poll_lem again (b ∷ before) last rest (hb, hs) h = rw hb (poll_lem again before last rest hs h)

-- Status bytes that hold a call back while the drive is busy, then while it has no data: what is
-- behind them is `after`.
pub record Ready (bytes after : List ℕ) : Type 0 where
  pub busy : List ℕ
  pub free : ℕ
  pub idle : List ℕ
  pub requested : ℕ
  pub is_busy_all : All is_busy busy
  pub is_free : is_busy free ≡ false
  pub is_idle_all : All has_no_data idle
  pub is_requested : has_no_data requested ≡ false
  pub shape : bytes ≡ busy ++ (free ∷ (idle ++ (requested ∷ after)))

-- A status byte without the error and the fault bit.
abbrev pub IsClean : ℕ → Type 0
IsClean status = (bit_and status ata_sr_err ≡ 0) × (bit_and status ata_sr_df ≡ 0)

check_bytes-clean :
    (status : ℕ) (rest : List ℕ) → IsClean status → check_bytes (status ∷ rest) ≡ some (false, rest)
unfolding check_bytes
check_bytes-clean status [] (e, f) = rw (e, f) refl
check_bytes-clean status (r ∷ rest) (e, f) = rw (e, f) refl

-- Both waits, with the command between them.
started :
    (lba code : ℕ) (io : Io) (after : List ℕ)
    → Ready io.bytes after
    → (ata_wait_bsy io >>= λ free. ata_wait_drq (start lba code free))
      ≡ some (record io { bytes = after; writes = io.writes ++ command lba code })
unfolding ata_wait_bsy ata_wait_drq
started lba code io after r =
    rw
      (
        r.shape,
        poll_lem is_busy r.busy r.free (r.idle ++ (r.requested ∷ after)) r.is_busy_all r.is_free,
      )
      (rw (poll_lem has_no_data r.idle r.requested after r.is_idle_all r.is_requested) refl)

bind_assoc :
    {A B C : Type 0} (m : Option A) (f : A → Option B) (g : B → Option C)
    → (m >>= λ a. f a >>= g) ≡ (m >>= f >>= g)
bind_assoc none f g = refl
bind_assoc (some a) f g = refl

ata_check_error-clean :
    (io : Io) (status : ℕ) (rest : List ℕ)
    → io.bytes ≡ status ∷ rest
    → IsClean status
    → ata_check_error io ≡ some (false, record io { bytes = rest })
unfolding ata_check_error
ata_check_error-clean io status rest e clean = rw (e, check_bytes-clean status rest clean) refl

-- A drive that gets ready, reports no error, and gives 256 words: the call takes exactly these
-- answers, sends the command for a read of the sector and nothing else, and fills the buffer.
pub ata_read_sector-done :
    (lba : ℕ) (buffer : ℕ → ℕ) (io : Io) (status a b c d : ℕ) (rest ws later : List ℕ)
    → Ready io.bytes (status ∷ a ∷ b ∷ c ∷ d ∷ rest)
    → IsClean status
    → io.words ≡ ws ++ later
    → length ws ≡ 256
    → ata_read_sector lba buffer io
      ≡ some (
        record { bytes = rest; words = later; writes = io.writes ++ command lba 0x20 },
        fill_words 0 ws buffer,
      )
unfolding ata_read_sector skip_bytes
ata_read_sector-done lba buffer io status a b c d rest ws later r clean words long =
    let answers = status ∷ a ∷ b ∷ c ∷ d ∷ rest in
    let got : read_words 256 0 (ws ++ later) buffer ≡ some (fill_words 0 ws buffer, later) =
      ap (λ n. read_words n 0 (ws ++ later) buffer) (sym long) ∙ read_words_lem ws 0 later buffer in
    let asked = record io { bytes = answers; writes = io.writes ++ command lba 0x20 } in
    bind_assoc (ata_wait_bsy io) (λ free. ata_wait_drq (start lba 0x20 free)) _
    ∙ rw
        (
          started lba 0x20 io answers r,
          ata_check_error-clean asked status (a ∷ b ∷ c ∷ d ∷ rest) refl clean,
          words,
          got,
        )
        refl

-- An error takes the answer behind the status too, a fault does not.
abbrev pub IsFailure : ℕ → List ℕ → List ℕ → Type 0
IsFailure status answers rest =
    (bit_and status ata_sr_err ≢ 0) × ((error : ℕ) × (answers ≡ error ∷ rest))
    ⊎ (bit_and status ata_sr_err ≡ 0) × (bit_and status ata_sr_df ≢ 0) × (answers ≡ rest)

check_bytes-failure :
    (status : ℕ) (answers rest : List ℕ)
    → IsFailure status answers rest
    → check_bytes (status ∷ answers) ≡ some (true, rest)
unfolding check_bytes
check_bytes-failure status answers rest (inl (e, (error, shape))) = rw shape (ground arith)
check_bytes-failure status [] rest (inr (e, f, shape)) = rw (sym shape) (ground arith)
check_bytes-failure status (a ∷ answers) rest (inr (e, f, shape)) = rw (sym shape) (ground arith)

-- A drive that gets ready and then reports an error or a fault: the call returns, it has sent the
-- command, the buffer is as before, and no word is taken from the data port.
pub ata_read_sector-failure :
    (lba : ℕ) (buffer : ℕ → ℕ) (io : Io) (status : ℕ) (answers rest : List ℕ)
    → Ready io.bytes (status ∷ answers)
    → IsFailure status answers rest
    → ata_read_sector lba buffer io
      ≡ some (record io { bytes = rest; writes = io.writes ++ command lba 0x20 }, buffer)
unfolding ata_read_sector
ata_read_sector-failure lba buffer io status answers rest r failure =
    let asked = record io { bytes = status ∷ answers; writes = io.writes ++ command lba 0x20 } in
    let checked : ata_check_error asked ≡ some (true, record asked { bytes = rest }) =
      unfold ata_check_error in rw (check_bytes-failure status answers rest failure) refl in
    bind_assoc (ata_wait_bsy io) (λ free. ata_wait_drq (start lba 0x20 free)) _
    ∙ rw (started lba 0x20 io (status ∷ answers) r, checked) refl

-- The writes of a sector, and the flush behind them.
unfoldable pub sector_writes : ℕ → (ℕ → ℕ) → List (ℕ × ℕ)
sector_writes lba buffer =
    command lba 0x30 ++ (write_words 256 0 buffer ++ (ata_primary_io + 7, 0xE7) ∷ [])

-- A status of either kind, with what the check leaves of the answers behind it.
abbrev pub IsChecked : ℕ → List ℕ → List ℕ → Type 0
IsChecked status answers rest = IsClean status × (answers ≡ rest) ⊎ IsFailure status answers rest

ata_check_error-reads :
    (io : Io) (status : ℕ) (answers rest : List ℕ)
    → io.bytes ≡ status ∷ answers
    → IsChecked status answers rest
    → (ata_check_error io >>= λ checked. some checked.1) ≡ some (record io { bytes = rest })
unfolding ata_check_error
ata_check_error-reads io status answers rest e (inl (clean, shape)) =
    rw (e, check_bytes-clean status answers clean, shape) refl
ata_check_error-reads io status answers rest e (inr failure) =
    rw (e, check_bytes-failure status answers rest failure) refl

ata_wait_bsy_lem :
    (io : Io) (busy : List ℕ) (free : ℕ) (rest : List ℕ)
    → io.bytes ≡ busy ++ (free ∷ rest)
    → All is_busy busy
    → is_busy free ≡ false
    → ata_wait_bsy io ≡ some (record io { bytes = rest })
unfolding ata_wait_bsy
ata_wait_bsy_lem io busy free rest e f h = rw (e, poll_lem is_busy busy free rest f h) refl

-- A drive that gets ready, and free again after the flush: the call sends the command for a write
-- of the sector, the words of the buffer and the flush, in this order, and nothing else, whatever
-- the status says then.
pub ata_write_sector-done :
    (lba : ℕ) (buffer : ℕ → ℕ) (io : Io) (a b c d : ℕ) (flushing : List ℕ) (free status : ℕ)
    (answers rest : List ℕ)
    → Ready io.bytes (a ∷ b ∷ c ∷ d ∷ (flushing ++ (free ∷ (status ∷ answers))))
    → All is_busy flushing
    → is_busy free ≡ false
    → IsChecked status answers rest
    → ata_write_sector lba buffer io
      ≡ some (record io { bytes = rest; writes = io.writes ++ sector_writes lba buffer })
unfolding ata_write_sector skip_bytes sector_writes
ata_write_sector-done lba buffer io a b c d flushing free status answers rest r f h checked =
    let behind = flushing ++ (free ∷ (status ∷ answers)) in
    let words = write_words 256 0 buffer in
    let asked = io.writes ++ command lba 0x30 in
    let flushed = record io {
      bytes = behind;
      writes = asked ++ words ++ (ata_primary_io + 7, 0xE7) ∷ [];
    } in
    let last = record flushed { bytes = status ∷ answers } in
    bind_assoc (ata_wait_bsy io) (λ free. ata_wait_drq (start lba 0x30 free)) _
    ∙ rw
        (
          started lba 0x30 io (a ∷ b ∷ c ∷ d ∷ behind) r,
          ata_wait_bsy_lem flushed flushing free (status ∷ answers) refl f h,
          ata_check_error-reads last status answers rest refl checked,
        )
        (ap (λ (w : List (ℕ × ℕ)). some (record io { bytes = rest; writes = w }))
          (append_assoc asked words ((ata_primary_io + 7, 0xE7) ∷ [])
            ∙ append_assoc io.writes (command lba 0x30) (words ++ (ata_primary_io + 7, 0xE7) ∷ [])))
