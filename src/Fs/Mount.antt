-- ===== src/Fs/Mount.antt =====
-- fat12_init of fs/fs.c. The fields of the BPB are read from the boot sector at their offsets in the
-- packed struct; the output on the screen is left out.
mod Bpb
pub mod Loaded
mod Tests
use ten_os.Mm.Paging.{page_size, Vmm, vmmngr_alloc_page}
use ten_os.Fs.Volume.{MountInfo, Volume, read_sector}
use ten_os.Fs.Mount.Bpb
use ten_os.Fs.Directory.{is_same}
use ten_os.Util.{memcmp}
use ten_os.Word.{u32}
use ten_os.Prelude.{
  Option, none, some, ℕ, zero, suc, ◌+◌, ◌-◌, ◌*◌, ◌/◌, List, [], ◌∷◌, Bool, true, false, ◌&&◌, ltb,
  leb, ◌==◌, not, if◌then◌else◌, get_or,
}

-- "FAT12   "
abbrev pub fat12_type : List ℕ
fat12_type = b'F' ∷ b'A' ∷ b'T' ∷ b'1' ∷ b'2' ∷ 32 ∷ 32 ∷ 32 ∷ []

abbrev pub is_fat12 : (ℕ → ℕ) → Bool
is_fat12 bpb = is_same (memcmp bpb Bpb.filesystem_type (λ j. get_or fat12_type j 0) 0 8)

-- The fields of `mount_info` but `fat_buffer`, from the boot sector.
abbrev pub fields : (ℕ → ℕ) → (ℕ → ℕ) → MountInfo
fields bpb page =
    let root_start = u32 (Bpb.reserved_sectors bpb + Bpb.num_fats bpb * Bpb.sectors_per_fat bpb) in
    let root_size = Bpb.root_entries bpb * 32 / Bpb.bytes_per_sector bpb in
    record {
      bytes_per_sector = Bpb.bytes_per_sector bpb;
      sectors_per_cluster = Bpb.sectors_per_cluster bpb;
      sectors_per_fat = Bpb.sectors_per_fat bpb;
      root_entries = Bpb.root_entries bpb;
      fat_start = Bpb.reserved_sectors bpb;
      root_start = root_start;
      root_size = root_size;
      data_start = u32 (root_start + root_size);
      fat_buffer = page;
    }

-- None where the division by `bytes_per_sector` faults.
abbrev pub mount : (ℕ → ℕ) → (ℕ → ℕ) → Option MountInfo
mount bpb page = if Bpb.bytes_per_sector bpb == 0 then none else some (fields bpb page)

-- `read_sector` of sector `i` of the table into `fat_buffer + i * 512`.
abbrev pub load_sector : ℕ → Volume → Volume
load_sector i v =
    let sector = v.disk (u32 (v.mount_info.fat_start + i)) in
    let old = v.mount_info.fat_buffer in
    let buffer : ℕ → ℕ =
      λ j. if leb (i * 512) j && ltb j (i * 512 + 512) then sector (j - i * 512) else old j in
    record v { mount_info = record v.mount_info { fat_buffer = buffer } }

-- The loop that loads the table, from sector `i` of it on: none where it would write behind the page
-- at `fat_buffer`.
pub load_fat : ℕ → ℕ → Volume → Option Volume
load_fat zero i v = some v
load_fat (suc left) i v =
    let rest = load_fat left (i + 1) (load_sector i v) in
    if ltb page_size (i * 512 + 512) then none else rest

-- The end of `fat12_init`, with its result: true for 0.
abbrev loaded : Vmm → Option Volume → Option (Bool × Volume × Vmm)
loaded vm none = none
loaded vm (some v) = some (true, v, vm)

-- From the fields on.
abbrev mount_with : Volume → Vmm → Option MountInfo → Option (Bool × Volume × Vmm)
mount_with boot vm none = none
mount_with boot vm (some m) =
    let mounted = record boot { mount_info = m } in
    let (at, vm') = vmmngr_alloc_page vm in
    if at == 0
    then some (false, mounted, vm')
    else loaded vm' (load_fat m.sectors_per_fat 0 mounted)

-- True for 0, false for -1. `page` is what the page for the table holds before.
unfoldable pub fat12_init : (ℕ → ℕ) → Volume → Vmm → Option (Bool × Volume × Vmm)
fat12_init page v vm =
    let boot = read_sector v 0 in
    if not (is_fat12 boot.sector_buffer)
    then some (false, boot, vm)
    else mount_with boot vm (mount boot.sector_buffer page)
