-- ===== src/Fs/Directory/Slots.antt =====
-- The directory as one sequence of entries, and the entry that `fat12_open` opens.
use ten_os.Fs.Directory.{
  Scan, return_null, found, next_sector, filename_0, open_entry, entry_file, open_sectors,
  fat12_open,
}
use ten_os.Fs.Name.{to_dos_filename}
use ten_os.Fs.Volume.{Volume, read_sector}
use ten_os.Fs.Directory.Sectors.{stops_at, ScanOf, entry_file-ext, sector_bytes, scan_sector-ScanOf}
use ten_os.Prelude.Least.{IsLeast, IsLeast-skip}
use mathlib.Core.Path.{subst}
use ten_os.Fs.File.{File}
use ten_os.Mm.Paging.{Vmm, vmmngr_alloc_page}
use ten_os.Word.{u32}
use ten_os.Prelude.{
  ℕ, zero, suc, ◌+◌, ◌-◌, ◌*◌, ◌/◌, ◌%◌, ◌≤◌, ◌<◌, ◌≡◌, refl, ne→==-false, sym, ap₂, ◌∙◌, List,
  Option, none, some, Bool, ◌==◌, if◌then◌else◌, arith,
}

-- Entry `k` of the directory stands in the sector `k / 16`, at place `k % 16`.
abbrev pub slot_sector : Volume → ℕ → ℕ → ℕ
slot_sector v k = v.disk (u32 (v.mount_info.root_start + k / 16))

-- Entry `k` is the end mark or has the name.
abbrev pub ends_or_has : Volume → List ℕ → ℕ → Bool
ends_or_has v dos_name k = stops_at (slot_sector v k) dos_name (k % 16)

-- The file that opening yields when entry `i` of a sector is the one found.
abbrev pub opened : List ℕ → (ℕ → ℕ) → Vmm → ℕ → Option File
opened filename sector vm i =
    if filename_0 sector i == 0
    then none
    else if (vmmngr_alloc_page vm).0 == 0
    then none
    else some (entry_file filename sector i)

abbrev pub opened_at : List ℕ → Volume → Vmm → Option ℕ → Option File
opened_at filename v vm none = none
opened_at filename v vm (some k) = opened filename (slot_sector v k) vm (k % 16)

-- The page tables behind the opening: a page is taken for a handle.
abbrev pub paged : (ℕ → ℕ) → Vmm → ℕ → Vmm
paged sector vm i = if filename_0 sector i == 0 then vm else (vmmngr_alloc_page vm).1

abbrev pub paged_at : Volume → Vmm → Option ℕ → Vmm
paged_at v vm none = vm
paged_at v vm (some k) = paged (slot_sector v k) vm (k % 16)

slot-place :
    (v : Volume) (dos_name : List ℕ) (s j b : ℕ)
    → b ≡ 16 * s + j
    → j < 16
    → ends_or_has v dos_name b ≡ stops_at (v.disk (u32 (v.mount_info.root_start + s))) dos_name j
slot-place v dos_name s j b e bound =
    let sector : b / 16 ≡ s = omega arith in
    let place : b % 16 ≡ j = omega arith in
    ap₂ (λ q r. stops_at (v.disk (u32 (v.mount_info.root_start + q))) dos_name r) sector place

opened-place :
    (filename : List ℕ) (v : Volume) (vm : Vmm) (s i : ℕ)
    → i < 16
    → opened_at filename v vm (some (16 * s + i))
      ≡ opened filename (v.disk (u32 (v.mount_info.root_start + s))) vm i
opened-place filename v vm s i bound =
    let sector : (16 * s + i) / 16 ≡ s = omega arith in
    let place : (16 * s + i) % 16 ≡ i = omega arith in
    ap₂ (λ q r. opened filename (v.disk (u32 (v.mount_info.root_start + q))) vm r) sector place

paged-place :
    (v : Volume) (vm : Vmm) (s i : ℕ)
    → i < 16
    → paged_at v vm (some (16 * s + i)) ≡ paged (v.disk (u32 (v.mount_info.root_start + s))) vm i
paged-place v vm s i bound =
    let sector : (16 * s + i) / 16 ≡ s = omega arith in
    let place : (16 * s + i) % 16 ≡ i = omega arith in
    ap₂ (λ q r. paged (v.disk (u32 (v.mount_info.root_start + q))) vm r) sector place

-- An entry of a sector as an entry of the directory.
in_directory :
    (v : Volume) (dos_name : List ℕ) (s : ℕ) (hi i : ℕ)
    → 16 * s + 16 ≤ hi
    → IsLeast (stops_at (v.disk (u32 (v.mount_info.root_start + s))) dos_name) 0 16 (some i)
    → IsLeast (ends_or_has v dos_name) (16 * s) hi (some (16 * s + i))
in_directory v dos_name s hi i bound least = (
  omega arith,
  omega (arith, least.1),
  slot-place v dos_name s i (16 * s + i) refl least.1 ∙ least.2,
  λ b p q.
      slot-place v dos_name s (b - 16 * s) b (omega arith) (omega (arith, least.1))
      ∙ least.3 (b - 16 * s) (omega arith) (omega arith),
)

none_in_directory :
    (v : Volume) (dos_name : List ℕ) (s hi : ℕ) (r : Option ℕ)
    → 16 * s + 16 ≤ hi
    → IsLeast (stops_at (v.disk (u32 (v.mount_info.root_start + s))) dos_name) 0 16 none
    → IsLeast (ends_or_has v dos_name) (16 * (s + 1)) hi r
    → IsLeast (ends_or_has v dos_name) (16 * s) hi r
none_in_directory v dos_name s hi r bound least later =
    IsLeast-skip (ends_or_has v dos_name) (16 * s) (16 * (s + 1)) hi r (omega arith)
      (λ b p q.
        slot-place v dos_name s (b - 16 * s) b (omega arith) (omega arith)
        ∙ least (b - 16 * s) (omega arith) (omega arith))
      later

-- What opening a file from entry `lo` up to `hi` gives.
pub record Opens (filename dos_name : List ℕ) (v : Volume) (vm : Vmm) (lo hi : ℕ)
    (out : Option File × Volume × Vmm) : Type 0 where
  pub entry : Option ℕ
  pub least : IsLeast (ends_or_has v dos_name) lo hi entry
  pub file : out.0 ≡ opened_at filename v vm entry
  pub pages : out.2 ≡ paged_at v vm entry
  pub same_disk : out.1.disk ≡ v.disk
  pub same_mount : out.1.mount_info ≡ v.mount_info

-- The sector's scan and the outcome of `fat12_open` behind it.
at_sector :
    (filename dos_name : List ℕ) (v v' : Volume) (vm : Vmm) (s hi : ℕ) (scan : Scan)
    (rest : Option File × Volume × Vmm)
    → 16 * s + 16 ≤ hi
    → v'.disk ≡ v.disk
    → v'.mount_info ≡ v.mount_info
    → ((j : ℕ) → j < 512 → v'.sector_buffer j ≡ v.disk (u32 (v.mount_info.root_start + s)) j)
    → ScanOf (v.disk (u32 (v.mount_info.root_start + s))) dos_name 0 16 scan
    → Opens filename dos_name v vm (16 * (s + 1)) hi rest
    → Opens filename dos_name v vm (16 * s) hi (elim scan [
      | return_null ↦ (none, v', vm)
      | found i ↦ open_entry filename i v' vm
      | next_sector ↦ rest
    ])
unfolding open_entry
at_sector filename dos_name v v' vm s hi return_null rest bound sd sm bytes (i, least, ended)
      later =
    record {
      entry = some (16 * s + i);
      least = in_directory v dos_name s hi i bound least;
      file = sym (opened-place filename v vm s i least.1 ∙ rw ended refl);
      pages = sym (paged-place v vm s i least.1 ∙ rw ended refl);
      same_disk = sd;
      same_mount = sm;
    }
at_sector filename dos_name v v' vm s hi (found i) rest bound sd sm bytes (least, used) later =
    record {
      entry = some (16 * s + i);
      least = in_directory v dos_name s hi i bound least;
      file =
          rw
            (entry_file-ext filename i v'.sector_buffer (v.disk (u32 (v.mount_info.root_start + s)))
              (λ j p q. bytes j (omega (arith, least.1))))
            (sym (opened-place filename v vm s i least.1 ∙ rw (ne→==-false _ _ used) refl));
      pages = sym (paged-place v vm s i least.1 ∙ rw (ne→==-false _ _ used) refl);
      same_disk = sd;
      same_mount = sm;
    }
at_sector filename dos_name v v' vm s hi next_sector rest bound sd sm bytes least later = record {
  entry = later.entry;
  least = none_in_directory v dos_name s hi later.entry bound least later.least;
  file = later.file;
  pages = later.pages;
  same_disk = later.same_disk;
  same_mount = later.same_mount;
}

none_left :
    (filename dos_name : List ℕ) (v : Volume) (vm : Vmm) (hi : ℕ)
    → Opens filename dos_name v vm hi hi (none, v, vm)
none_left filename dos_name v vm hi = record {
  entry = none;
  least = λ b p q. absurd (omega arith);
  file = refl;
  pages = refl;
  same_disk = refl;
  same_mount = refl;
}

-- Reading a sector leaves the directory as it is.
Opens-read_sector :
    (filename dos_name : List ℕ) (v : Volume) (vm : Vmm) (lba lo hi : ℕ)
    (out : Option File × Volume × Vmm)
    → Opens filename dos_name (read_sector v lba) vm lo hi out
    → Opens filename dos_name v vm lo hi out
unfolding read_sector
Opens-read_sector filename dos_name v vm lba lo hi out h = record {
  entry = h.entry;
  least = h.least;
  file = h.file ∙ same_file h.entry;
  pages = h.pages ∙ same_pages h.entry;
  same_disk = h.same_disk;
  same_mount = h.same_mount;
}
  where
    same_file :
        (r : Option ℕ) → opened_at filename (read_sector v lba) vm r ≡ opened_at filename v vm r
    same_file none = refl
    same_file (some k) = refl

    same_pages : (r : Option ℕ) → paged_at (read_sector v lba) vm r ≡ paged_at v vm r
    same_pages none = refl
    same_pages (some k) = refl

open_sectors-Opens :
    (left s hi : ℕ) (filename dos_name : List ℕ) (v : Volume) (vm : Vmm)
    → 16 * (s + left) ≡ hi
    → Opens filename dos_name v vm (16 * s) hi (open_sectors left s filename dos_name v vm)
unfolding open_sectors
open_sectors-Opens zero s hi filename dos_name v vm e =
    subst (λ lo. Opens filename dos_name v vm lo hi (none, v, vm)) {x = hi} {y = 16 * s}
      (omega arith) (none_left filename dos_name v vm hi)
open_sectors-Opens (suc left) s hi filename dos_name v vm e =
    let lba = u32 (v.mount_info.root_start + s) in
    at_sector filename dos_name v (read_sector v lba) vm s hi _ _ (omega arith)
      (unfold read_sector in refl) (unfold read_sector in refl) (sector_bytes v lba)
      (scan_sector-ScanOf v lba dos_name)
      (Opens-read_sector filename dos_name v vm lba (16 * (s + 1)) hi _
        (open_sectors-Opens left (s + 1) hi filename dos_name (read_sector v lba) vm (omega arith)))

-- For every name and volume: `fat12_open` looks for the first entry of the root directory that is
-- its end mark or has the 8.3 form of the name. If that entry has the name and there is a page for
-- the handle, it yields the handle with the entry's fields, and else none. The disk is unchanged.
pub fat12_open-Opens :
    (filename : List ℕ) (v : Volume) (vm : Vmm)
    → Opens filename
        (to_dos_filename filename)
        v
        vm
        0
        (16 * v.mount_info.root_size)
        (fat12_open filename v vm)
unfolding fat12_open
fat12_open-Opens filename v vm =
    open_sectors-Opens v.mount_info.root_size 0 (16 * v.mount_info.root_size) filename
      (to_dos_filename filename) v vm (omega arith)
