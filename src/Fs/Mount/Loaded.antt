-- ===== src/Fs/Mount/Loaded.antt =====
-- The table that `fat12_init` leaves in memory.
use ten_os.Mm.Paging.{Vmm, vmmngr_alloc_page}
use ten_os.Fs.Mount.{fat12_type, fields, is_fat12, load_sector, load_fat, fat12_init}
use ten_os.Fs.Directory.{is_same}
use ten_os.Util.Compare.{memcmp-equal}
use ten_os.Fs.Volume.{MountInfo, Volume, read_sector}
use ten_os.Word.{u32}
use ten_os.Prelude.{
  ◌≤◌, ◌<◌, get_or, some, sym, ap, false, ℕ, zero, suc, ◌+◌, ◌-◌, ◌*◌, ◌/◌, ◌%◌, ◌≡◌, ◌≢◌, refl,
  ap₂, ◌∙◌, true, ◌&&◌, ltb, leb, if◌then◌else◌, arith, ne→==-false,
}

-- The sectors from `i` on, `left` of them, are in the buffer.
pub record Loads (left i : ℕ) (v v' : Volume) : Type 0 where
  pub byte :
      (j : ℕ)
      → v'.mount_info.fat_buffer j ≡ (
          if leb (i * 512) j && ltb j ((i + left) * 512)
          then v.disk (u32 (v.mount_info.fat_start + j / 512)) (j % 512)
          else v.mount_info.fat_buffer j)
  pub same_disk : v'.disk ≡ v.disk
  pub same_mount : v'.mount_info ≡ record v.mount_info { fat_buffer = v'.mount_info.fat_buffer }

-- A sector and those behind it.
join_sectors :
    (sector : ℕ → ℕ → ℕ) (old : ℕ → ℕ) (left i j : ℕ)
    → (if leb ((i + 1) * 512) j && ltb j ((i + 1 + left) * 512)
        then sector (j / 512) (j % 512)
        else if leb (i * 512) j && ltb j (i * 512 + 512)
        then sector i (j - i * 512)
        else old j)
      ≡ (if leb (i * 512) j && ltb j ((i + suc left) * 512)
          then sector (j / 512) (j % 512)
          else old j)
join_sectors sector old left i j =
    ground (arith, λ (p : i ≡ j / 512) (q : j - i * 512 ≡ j % 512). ap₂ sector p q)

-- The table is at most a page.
load_fat-Loads :
    (left i : ℕ) (v : Volume)
    → i + left ≤ 8
    → (v' : Volume) × (load_fat left i v ≡ some v') × Loads left i v v'
unfolding load_fat
load_fat-Loads zero i v fits =
    (v, refl, record { byte = λ j. ground arith; same_disk = refl; same_mount = refl })
load_fat-Loads (suc left) i v fits =
    let inside : ltb 4096 (i * 512 + 512) ≡ false = ground arith in
    let (v', e, ih) = load_fat-Loads left (i + 1) (load_sector i v) (omega arith) in
    (
      v',
      rw inside e,
      record {
        byte = λ j.
            ih.byte j
            ∙ join_sectors (λ s. v.disk (u32 (v.mount_info.fat_start + s))) v.mount_info.fat_buffer
                left i j;
        same_disk = ih.same_disk;
        same_mount = ih.same_mount;
      },
    )

whole_table :
    (n j a b : ℕ)
    → (if leb (0 * 512) j && ltb j ((0 + n) * 512) then a else b)
      ≡ (if ltb j (n * 512) then a else b)
whole_table n j a b = ground arith

-- Two bytes of the boot sector, the low one first.
abbrev pub word_at : Volume → ℕ → ℕ
word_at v at = v.disk 0 at + 256 * v.disk 0 (at + 1)

-- The fields that the boot sector gives, by the offsets of a FAT12 boot sector, and its table in
-- memory.
pub record IsMounted (page : ℕ → ℕ) (v v' : Volume) : Type 0 where
  pub bytes_per_sector : v'.mount_info.bytes_per_sector ≡ word_at v 11
  pub sectors_per_cluster : v'.mount_info.sectors_per_cluster ≡ v.disk 0 13
  pub sectors_per_fat : v'.mount_info.sectors_per_fat ≡ word_at v 22
  pub root_entries : v'.mount_info.root_entries ≡ word_at v 17
  pub fat_start : v'.mount_info.fat_start ≡ word_at v 14
  pub root_start : v'.mount_info.root_start ≡ u32 (word_at v 14 + v.disk 0 16 * word_at v 22)
  pub root_size : v'.mount_info.root_size ≡ word_at v 17 * 32 / word_at v 11
  pub data_start :
      v'.mount_info.data_start ≡ u32 (v'.mount_info.root_start + v'.mount_info.root_size)
  pub table :
      (j : ℕ)
      → v'.mount_info.fat_buffer j ≡ (
          if ltb j (word_at v 22 * 512)
          then v.disk (u32 (word_at v 14 + j / 512)) (j % 512)
          else page j)
  pub disk : v'.disk ≡ v.disk

typed_lem :
    (v : Volume)
    → ((j : ℕ) → j < 8 → v.disk 0 (54 + j) ≡ get_or fat12_type j 0)
    → is_fat12 (read_sector v 0).sector_buffer ≡ true
unfolding is_same read_sector
typed_lem v typed =
    rw
      (memcmp-equal 8 0x36 0 (read_sector v 0).sector_buffer (λ j. get_or fat12_type j 0)
        (λ j h.
          let inside : ltb (54 + j) 512 ≡ true = ground arith in
          let at : get_or fat12_type j 0 ≡ get_or fat12_type (0 + j) 0 =
            ap (λ i. get_or fat12_type i 0) (omega arith) in
          rw inside (typed j h ∙ at)))
      refl

-- For every drive with the type "FAT12   " at byte 54 of its boot sector, a number of bytes per sector
-- other than 0, and a table of at most 8 sectors, when there is a page: `fat12_init` succeeds, the
-- fields of `mount_info` are those of the boot sector, and the table in memory holds the bytes of the
-- sectors from the reserved ones on, as many as the boot sector gives for a table. The drive is
-- unchanged.
pub fat12_init_lem :
    (page : ℕ → ℕ) (v : Volume) (vm : Vmm)
    → ((j : ℕ) → j < 8 → v.disk 0 (54 + j) ≡ get_or fat12_type j 0)
    → word_at v 11 ≢ 0
    → word_at v 22 ≤ 8
    → (vmmngr_alloc_page vm).0 ≢ 0
    → (v' : Volume) × (fat12_init page v vm ≡ some (true, v', (vmmngr_alloc_page vm).1))
      × IsMounted page v v'
unfolding fat12_init read_sector
fat12_init_lem page v vm typed some_bytes fits paged =
    let boot = read_sector v 0 in
    let m : MountInfo = fields boot.sector_buffer page in
    let (v', e, h) =
      load_fat-Loads m.sectors_per_fat 0 (record boot { mount_info = m }) (omega arith) in
    (
      v',
      rw (fat12_init, typed_lem v typed, ne→==-false _ _ some_bytes, ne→==-false _ _ paged, e) refl,
      record {
        bytes_per_sector = ap (λ (i : MountInfo). i.bytes_per_sector) h.same_mount;
        sectors_per_cluster = ap (λ (i : MountInfo). i.sectors_per_cluster) h.same_mount;
        sectors_per_fat = ap (λ (i : MountInfo). i.sectors_per_fat) h.same_mount;
        root_entries = ap (λ (i : MountInfo). i.root_entries) h.same_mount;
        fat_start = ap (λ (i : MountInfo). i.fat_start) h.same_mount;
        root_start = ap (λ (i : MountInfo). i.root_start) h.same_mount;
        root_size = ap (λ (i : MountInfo). i.root_size) h.same_mount;
        data_start =
            ap (λ (i : MountInfo). i.data_start) h.same_mount
            ∙ sym (ap (λ (i : MountInfo). u32 (i.root_start + i.root_size)) h.same_mount);
        table = λ j. h.byte j ∙ whole_table m.sectors_per_fat j _ _;
        disk = h.same_disk;
      },
    )
