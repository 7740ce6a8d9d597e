-- ===== src/Fs/Directory/Sectors.antt =====
-- How the scan of one sector of the root directory ends.
use ten_os.Fs.Directory.{
  Scan, return_null, found, next_sector, filename_0, char_int, has_name, scan_entries, scan_sector,
  entry_file,
}
use ten_os.Fs.Volume.{Volume, read_sector}
use ten_os.Prelude.Least.{IsLeast, IsLeast-skip}
use mathlib.Core.Path.{subst}
use ten_os.Util.{memcmp}
use ten_os.Prelude.{
  ℕ, zero, suc, ◌+◌, ◌*◌, ◌≤◌, ◌<◌, ◌≡◌, ◌≢◌, refl, sym, List, Option, none, some, Bool, true,
  false, ◌==◌, ◌||◌, arith, get_or, Bool-cases, inl, inr, ==_iff,
}

-- The scan of a sector stops at this entry.
abbrev pub stops_at : (ℕ → ℕ) → List ℕ → ℕ → Bool
stops_at buf dos_name i = filename_0 buf i == 0 || has_name buf i dos_name

-- What the outcome of a scan says of the entries from `lo` up to `hi`.
abbrev pub ScanOf : (ℕ → ℕ) → List ℕ → ℕ → ℕ → Scan → Type 0
ScanOf buf dos_name lo hi (found i) =
    IsLeast (stops_at buf dos_name) lo hi (some i) × (filename_0 buf i ≢ 0)
ScanOf buf dos_name lo hi return_null =
    (i : ℕ) × IsLeast (stops_at buf dos_name) lo hi (some i) × (filename_0 buf i ≡ 0)
ScanOf buf dos_name lo hi next_sector = IsLeast (stops_at buf dos_name) lo hi none

step_past :
    (buf : ℕ → ℕ) (dos_name : List ℕ) (i hi : ℕ) (r : Option ℕ)
    → stops_at buf dos_name i ≡ false
    → IsLeast (stops_at buf dos_name) (i + 1) hi r
    → IsLeast (stops_at buf dos_name) i hi r
step_past buf dos_name i hi r skipped rest =
    IsLeast-skip (stops_at buf dos_name) i (i + 1) hi r (omega arith)
      (λ b p q. let here : b ≡ i = omega arith in rw here skipped) rest

ScanOf-skip :
    (buf : ℕ → ℕ) (dos_name : List ℕ) (i hi : ℕ) (s : Scan)
    → stops_at buf dos_name i ≡ false
    → ScanOf buf dos_name (i + 1) hi s
    → ScanOf buf dos_name i hi s
ScanOf-skip buf dos_name i hi return_null skipped (k, least, ended) =
    (k, step_past buf dos_name i hi (some k) skipped least, ended)
ScanOf-skip buf dos_name i hi (found k) skipped (least, used) =
    (step_past buf dos_name i hi (some k) skipped least, used)
ScanOf-skip buf dos_name i hi next_sector skipped least =
    step_past buf dos_name i hi none skipped least

scan_entries-ScanOf :
    (left i hi : ℕ) (buf : ℕ → ℕ) (dos_name : List ℕ)
    → i + left ≡ hi
    → ScanOf buf dos_name i hi (scan_entries left i buf dos_name)
unfolding scan_entries
scan_entries-ScanOf zero i hi buf dos_name e = λ b p q. absurd (omega arith)
scan_entries-ScanOf (suc left) i hi buf dos_name e = elim (Bool-cases (filename_0 buf i == 0)) [
  | inl ended ↦
      let first : (char_int (filename_0 buf i) == 0x00) ≡ true = ground arith in
      rw first (
        i,
        (omega arith, omega arith, ground arith, λ b p q. absurd (omega arith)),
        (==_iff _ _).0 ended,
      )
  | inr used ↦
      let going : (char_int (filename_0 buf i) == 0x00) ≡ false = ground arith in
      let never : (char_int (filename_0 buf i) == 0xE5) ≡ false = ground arith in
      rw (going, never)
        (elim (Bool-cases (has_name buf i dos_name)) [
          | inl named ↦ rw named (
            (omega arith, omega arith, rw (used, named) refl, λ b p q. absurd (omega arith)),
            ground arith,
          )
          | inr other ↦ rw other (
              ScanOf-skip buf dos_name i hi _ (rw (used, other) refl)
                (scan_entries-ScanOf left (i + 1) hi buf dos_name (omega arith)))
        ])
]

memcmp-ext :
    (n at to : ℕ) (buf buf' dst : ℕ → ℕ)
    → ((j : ℕ) → at ≤ j → j < at + n → buf j ≡ buf' j)
    → memcmp buf at dst to n ≡ memcmp buf' at dst to n
unfolding memcmp
memcmp-ext zero at to buf buf' dst same_bytes = refl
memcmp-ext (suc n) at to buf buf' dst same_bytes = rw (
  same_bytes at (omega arith) (omega arith),
  memcmp-ext n (at + 1) (to + 1) buf buf' dst (λ j p q. same_bytes j (omega arith) (omega arith)),
)

-- The scan of a sector reads its 512 bytes only.
scan_entries-ext :
    (left i : ℕ) (buf buf' : ℕ → ℕ) (dos_name : List ℕ)
    → i + left ≤ 16
    → ((j : ℕ) → j < 512 → buf j ≡ buf' j)
    → scan_entries left i buf dos_name ≡ scan_entries left i buf' dos_name
unfolding scan_entries
scan_entries-ext zero i buf buf' dos_name bound same_bytes = refl
scan_entries-ext (suc left) i buf buf' dos_name bound same_bytes =
    rw
      (
        same_bytes (32 * i) (omega arith),
        memcmp-ext 11 (32 * i) 0 buf buf' (λ j. get_or dos_name j 0)
            (λ j p q. same_bytes j (omega arith)),
        scan_entries-ext left (i + 1) buf buf' dos_name (omega arith) same_bytes,
      )
      refl

pub entry_file-ext :
    (filename : List ℕ) (i : ℕ) (buf buf' : ℕ → ℕ)
    → ((j : ℕ) → 32 * i ≤ j → j < 32 * i + 32 → buf j ≡ buf' j)
    → entry_file filename buf i ≡ entry_file filename buf' i
entry_file-ext filename i buf buf' same_bytes =
    rw
      (
        same_bytes (32 * i + 11) (omega arith) (omega arith),
        same_bytes (32 * i + 26) (omega arith) (omega arith),
        same_bytes (32 * i + 26 + 1) (omega arith) (omega arith),
        same_bytes (32 * i + 28) (omega arith) (omega arith),
        same_bytes (32 * i + 28 + 1) (omega arith) (omega arith),
        same_bytes (32 * i + 28 + 2) (omega arith) (omega arith),
        same_bytes (32 * i + 28 + 2 + 1) (omega arith) (omega arith),
      )
      refl

-- Whether the scan stops at an entry is seen from its first 11 bytes.
pub stops_at-ext :
    (buf buf' : ℕ → ℕ) (dos_name : List ℕ) (i : ℕ)
    → ((j : ℕ) → 32 * i ≤ j → j < 32 * i + 32 → buf j ≡ buf' j)
    → stops_at buf dos_name i ≡ stops_at buf' dos_name i
stops_at-ext buf buf' dos_name i same_bytes =
    rw
      (
        same_bytes (32 * i) (omega arith) (omega arith),
        memcmp-ext 11 (32 * i) 0 buf buf' (λ j. get_or dos_name j 0)
            (λ j p q. same_bytes j p (omega arith)),
      )
      refl

pub sector_bytes :
    (v : Volume) (lba j : ℕ) → j < 512 → (read_sector v lba).sector_buffer j ≡ v.disk lba j
unfolding read_sector
sector_bytes v lba j bound = ground arith

pub scan_sector-ScanOf :
    (v : Volume) (lba : ℕ) (dos_name : List ℕ)
    → ScanOf (v.disk lba) dos_name 0 16 (scan_sector (read_sector v lba).sector_buffer dos_name)
unfolding scan_sector
scan_sector-ScanOf v lba dos_name =
    let disk_scan = scan_entries-ScanOf 16 0 16 (v.disk lba) dos_name refl in
    subst (ScanOf (v.disk lba) dos_name 0 16)
      (sym (
        scan_entries-ext 16 0 (read_sector v lba).sector_buffer (v.disk lba) dos_name (omega arith)
          (sector_bytes v lba)))
      disk_scan
