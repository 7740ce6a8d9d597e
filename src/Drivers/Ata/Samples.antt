-- ===== src/Drivers/Ata/Samples.antt =====
-- The answers of a drive that is busy for a while, for tests.
use ten_os.Drivers.Ata.{Io}
use ten_os.Drivers.Ata.Commands.{Ready}
use ten_os.Prelude.{ℕ, refl, List, [], ◌∷◌}

-- Busy twice, free, without data once, and then ready; behind that, what the drive says.
abbrev pub bytes : List ℕ → List ℕ
bytes after = 0x80 ∷ 0xD0 ∷ 0x50 ∷ 0x50 ∷ 0x58 ∷ after

abbrev pub bytes-Ready : (after : List ℕ) → Ready (bytes after) after
bytes-Ready after = record {
  busy = 0x80 ∷ 0xD0 ∷ [];
  free = 0x50;
  idle = 0x50 ∷ [];
  requested = 0x58;
  is_busy_all = (refl, (refl, tt));
  is_free = refl;
  is_idle_all = (refl, tt);
  is_requested = refl;
  shape = refl;
}

abbrev pub writing : Io
writing = record {
  bytes = bytes (0x50 ∷ 0x50 ∷ 0x50 ∷ 0x50 ∷ 0x80 ∷ 0x50 ∷ 0x50 ∷ []);
  words = [];
  writes = [];
}
