-- ===== src/Fs/Directory/Free.antt =====
-- The entry of the directory that `find_free_dir_entry` finds.
use ten_os.Fs.Directory.{
  filename_0, char_int, free_entry_from, free_entry_sectors, find_free_dir_entry,
}
use ten_os.Fs.Directory.Slots.{slot_sector}
use ten_os.Fs.Directory.Sectors.{sector_bytes}
use ten_os.Fs.Volume.{Volume, read_sector}
use ten_os.Word.{u32}
use ten_os.Prelude.Least.{IsLeast, IsLeast-skip, IsLeast_unique}
use ten_os.Prelude.{
  ℕ, zero, suc, ◌+◌, ◌-◌, ◌*◌, ◌/◌, ◌%◌, ◌≤◌, ◌<◌, ◌≡◌, refl, ap, ap₂, ◌∙◌, Option, none, some,
  Bool, true, false, ◌==◌, ◌||◌, Bool-cases, inl, inr, arith,
}

-- Entry `k` of the directory is the end mark.
abbrev pub ends_at : Volume → ℕ → Bool
ends_at v k = filename_0 (slot_sector v k) (k % 16) == 0

-- A sector's entries: a `char` of 0xE5 is negative, so the test for a deleted entry never holds.
free_entry_from-IsLeast :
    (left i hi : ℕ) (buf : ℕ → ℕ)
    → i + left ≡ hi
    → IsLeast (λ k. filename_0 buf k == 0) i hi (free_entry_from left i buf)
unfolding free_entry_from
free_entry_from-IsLeast zero i hi buf e = λ b p q. absurd (omega arith)
free_entry_from-IsLeast (suc left) i hi buf e = elim (Bool-cases (filename_0 buf i == 0)) [
  | inl ended ↦
      let test : (char_int (filename_0 buf i) == 0x00 || char_int (filename_0 buf i) == 0xE5)
          ≡ true =
        ground arith in
      rw test (omega arith, omega arith, ended, λ b p q. absurd (omega arith))
  | inr used ↦
      let test : (char_int (filename_0 buf i) == 0x00 || char_int (filename_0 buf i) == 0xE5)
          ≡ false =
        ground arith in
      rw test (
        IsLeast-skip (λ k. filename_0 buf k == 0) i (i + 1) hi _ (omega arith)
          (λ b p q. let here : b ≡ i = omega arith in rw here used)
          (free_entry_from-IsLeast left (i + 1) hi buf (omega arith)))
]

-- The two numbers for entry `k`.
abbrev pub place_of : Option ℕ → Option (ℕ × ℕ)
place_of none = none
place_of (some k) = some (k / 16, k % 16)

-- What the search from entry `lo` up to `hi` gives.
record Finds (v : Volume) (lo hi : ℕ) (out : Option (ℕ × ℕ) × Volume) : Type 0 where
  pub entry : Option ℕ
  pub least : IsLeast (ends_at v) lo hi entry
  pub place : out.0 ≡ place_of entry
  pub same_disk : out.1.disk ≡ v.disk
  pub same_mount : out.1.mount_info ≡ v.mount_info

ends_at-place :
    (v : Volume) (s j b : ℕ)
    → b ≡ 16 * s + j
    → j < 16
    → ends_at v b ≡ (filename_0 (v.disk (u32 (v.mount_info.root_start + s))) j == 0)
ends_at-place v s j b e bound =
    let sector : b / 16 ≡ s = omega arith in
    let place : b % 16 ≡ j = omega arith in
    ap₂ (λ q r. filename_0 (v.disk (u32 (v.mount_info.root_start + q))) r == 0) sector place

place_of-place : (s i : ℕ) → i < 16 → some (s, i) ≡ place_of (some (16 * s + i))
place_of-place s i bound =
    let sector : s ≡ (16 * s + i) / 16 = omega arith in
    let place : i ≡ (16 * s + i) % 16 = omega arith in ap₂ (λ q r. some (q, r)) sector place

-- The outcome in a sector, read into the buffer of `v'`, and that of the search behind it.
at_sector :
    (v v' : Volume) (s hi : ℕ) (found : Option ℕ) (rest : Option (ℕ × ℕ) × Volume)
    → 16 * s + 16 ≤ hi
    → v'.disk ≡ v.disk
    → v'.mount_info ≡ v.mount_info
    → IsLeast (λ k. filename_0 (v.disk (u32 (v.mount_info.root_start + s))) k == 0) 0 16 found
    → Finds v (16 * (s + 1)) hi rest
    → Finds v (16 * s) hi (elim found [ none ↦ rest | some i ↦ (some (s, i), v') ])
at_sector v v' s hi none rest bound sd sm least later = record {
  entry = later.entry;
  least =
      IsLeast-skip (ends_at v) (16 * s) (16 * (s + 1)) hi later.entry (omega arith)
        (λ b p q.
          ends_at-place v s (b - 16 * s) b (omega arith) (omega arith)
          ∙ least (b - 16 * s) (omega arith) (omega arith))
        later.least;
  place = later.place;
  same_disk = later.same_disk;
  same_mount = later.same_mount;
}
at_sector v v' s hi (some i) rest bound sd sm least later = record {
  entry = some (16 * s + i);
  least = (
    omega arith,
    omega (arith, least.1),
    ends_at-place v s i (16 * s + i) refl least.1 ∙ least.2,
    λ b p q.
        ends_at-place v s (b - 16 * s) b (omega arith) (omega (arith, least.1))
        ∙ least.3 (b - 16 * s) (omega arith) (omega arith),
  );
  place = place_of-place s i least.1;
  same_disk = sd;
  same_mount = sm;
}

Finds-read_sector :
    (v : Volume) (lba lo hi : ℕ) (out : Option (ℕ × ℕ) × Volume)
    → Finds (read_sector v lba) lo hi out
    → Finds v lo hi out
unfolding read_sector
Finds-read_sector v lba lo hi out h = record {
  entry = h.entry;
  least = h.least;
  place = h.place;
  same_disk = h.same_disk;
  same_mount = h.same_mount;
}

-- The end marks of the sector in the buffer are those on the disk.
ends_in_sector :
    (v : Volume) (lba : ℕ) (r : Option ℕ)
    → IsLeast (λ k. filename_0 (read_sector v lba).sector_buffer k == 0) 0 16 r
    → IsLeast (λ k. filename_0 (v.disk lba) k == 0) 0 16 r
ends_in_sector v lba none h = λ b p q. rw (← sector_bytes v lba (32 * b) (omega arith)) (h b p q)
ends_in_sector v lba (some i) (p, q, here, below) = (
  p,
  q,
  rw (← sector_bytes v lba (32 * i) (omega arith)) here,
  λ b p' q'. rw (← sector_bytes v lba (32 * b) (omega arith)) (below b p' q'),
)

free_entry_sectors-Finds :
    (left s hi : ℕ) (v : Volume)
    → 16 * (s + left) ≡ hi
    → Finds v (16 * s) hi (free_entry_sectors left s v)
unfolding free_entry_sectors
free_entry_sectors-Finds zero s hi v e = record {
  entry = none;
  least = λ b p q. absurd (omega arith);
  place = refl;
  same_disk = refl;
  same_mount = refl;
}
free_entry_sectors-Finds (suc left) s hi v e =
    let lba = u32 (v.mount_info.root_start + s) in
    at_sector v (read_sector v lba) s hi _ _ (omega arith) (unfold read_sector in refl)
      (unfold read_sector in refl)
      (ends_in_sector v lba _
        (free_entry_from-IsLeast 16 0 16 (read_sector v lba).sector_buffer refl))
      (Finds-read_sector v lba (16 * (s + 1)) hi _
        (free_entry_sectors-Finds left (s + 1) hi (read_sector v lba) (omega arith)))

-- If `k` is the first end mark of the directory, it is the place that is found.
pub find_free_dir_entry_lem :
    (v : Volume) (k : ℕ)
    → IsLeast (ends_at v) 0 (16 * v.mount_info.root_size) (some k)
    → let (place, v') = find_free_dir_entry v in
      (place ≡ some (k / 16, k % 16)) × (v'.disk ≡ v.disk) × (v'.mount_info ≡ v.mount_info)
unfolding find_free_dir_entry
find_free_dir_entry_lem v k least =
    let h =
      free_entry_sectors-Finds v.mount_info.root_size 0 (16 * v.mount_info.root_size) v
        (omega arith) in
    (
      h.place ∙ ap place_of (IsLeast_unique (ends_at v) 0 _ h.entry (some k) h.least least),
      h.same_disk,
      h.same_mount,
    )

pub disk-find_free_dir_entry : (v : Volume) → (find_free_dir_entry v).1.disk ≡ v.disk
unfolding find_free_dir_entry
disk-find_free_dir_entry v =
    (free_entry_sectors-Finds v.mount_info.root_size 0 (16 * v.mount_info.root_size) v
      (omega arith)).same_disk
