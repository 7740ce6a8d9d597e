-- ===== src/Fs/Create/Made.antt =====
-- The entry that `fat12_create` makes, and the cluster that it takes.
use ten_os.Fs.Create.{create_at, write_entry, fat12_create}
use ten_os.Fs.Directory.{attr_archive, filename_0, fat12_open, find_free_dir_entry}
use ten_os.Fs.Directory.Slots.{slot_sector, ends_or_has, opened_at, paged_at, fat12_open-Opens}
use ten_os.Fs.Directory.Free.{ends_at, find_free_dir_entry_lem}
use ten_os.Fs.Directory.Same.{SameDirectory}
use ten_os.Fs.File.{File}
use ten_os.Fs.Name.{to_dos_filename}
use ten_os.Fs.Table.{find_free_cluster, allocate_clusters}
use ten_os.Fs.Table.Entries.{IsBytes}
use ten_os.Fs.Table.Chain.{allocate_clusters_single, find_free_cluster-lt}
use ten_os.Fs.Volume.{Volume, MountInfo}
use ten_os.Mm.Paging.{Vmm}
use ten_os.Prelude.Least.{IsLeast, IsLeast_unique}
use ten_os.Word.{u32}
use ten_os.Prelude.{
  ℕ, zero, suc, ◌+◌, ◌*◌, ◌/◌, ◌%◌, ◌^◌, ◌<◌, ◌≡◌, ◌≢◌, refl, ap, ap₂, ◌∙◌, List, none, some, Bool,
  true, ◌==◌, if◌then◌else◌, arith, ne→==-false,
}

-- The name is in no entry in front of the directory's end mark, which is entry `k`.
pub record IsNew (name : List ℕ) (v : Volume) (k : ℕ) : Type 0 where
  pub least :
      IsLeast (ends_or_has v (to_dos_filename name)) 0 (16 * v.mount_info.root_size) (some k)
  pub ended : filename_0 (slot_sector v k) (k % 16) ≡ 0

-- The handle of a new file.
abbrev pub new_file : List ℕ → ℕ → ℕ → File
new_file name cluster size = record {
  name = name;
  first_cluster = cluster;
  current_cluster = cluster;
  file_size = size;
  position = 0;
  attributes = attr_archive;
  eof = 0;
}

module _ (name : List ℕ) (v : Volume) (k : ℕ) (new : IsNew name v k) where
  -- The search for the name ends at the end mark.
  open_none : (vm : Vmm) → (fat12_open name v vm).0 ≡ none
  open_none vm =
      let h = fat12_open-Opens name v vm in
      let at : h.entry ≡ some k =
        IsLeast_unique (ends_or_has v (to_dos_filename name)) 0 (16 * v.mount_info.root_size)
          h.entry (some k) h.least new.least in
      h.file ∙ ap (opened_at name v vm) at ∙ rw new.ended refl

  open_none_pages : (vm : Vmm) → (fat12_open name v vm).2 ≡ vm
  open_none_pages vm =
      let h = fat12_open-Opens name v vm in
      let at : h.entry ≡ some k =
        IsLeast_unique (ends_or_has v (to_dos_filename name)) 0 (16 * v.mount_info.root_size)
          h.entry (some k) h.least new.least in
      h.pages ∙ ap (paged_at v vm) at ∙ rw new.ended refl

  ends : IsLeast (ends_at v) 0 (16 * v.mount_info.root_size) (some k)
  ends = (omega arith, new.least.1, rw new.ended refl, λ b p q. ground (arith, new.least.3 b p q))

  -- The entry is made at the end mark, on the volume with the buffer that the searches leave.
  made_at :
      (size : ℕ) (vm : Vmm)
      → (w : Volume) × (w.disk ≡ v.disk)
        × (w.mount_info ≡ v.mount_info)
        × ((fat12_create name size v vm).0
            ≡ (create_at (k / 16) (k % 16) (to_dos_filename name) size w).0)
        × ((fat12_create name size v vm).1
            ≡ (create_at (k / 16) (k % 16) (to_dos_filename name) size w).1)
        × ((fat12_create name size v vm).2 ≡ vm)
  unfolding fat12_create create_at
  made_at size vm =
      let h = fat12_open-Opens name v vm in
      let v' = (fat12_open name v vm).1 in
      let found = find_free_dir_entry_lem v' k (rw (slot_sector, h.same_disk, h.same_mount) ends) in
      (
        (find_free_dir_entry v').1,
        found.1 ∙ h.same_disk,
        found.2 ∙ h.same_mount,
        rw (fat12_create, open_none vm, found.0) refl,
        rw (fat12_create, open_none vm, found.0) refl,
        rw (fat12_create, open_none vm, found.0) (open_none_pages vm),
      )

-- The first cluster of a new file: a file without bytes has none.
abbrev pub first_cluster : (ℕ → ℕ) → ℕ → ℕ
first_cluster fat size = if size == 0 then 0 else find_free_cluster fat

allocated :
    (fat : ℕ → ℕ) (size : ℕ)
    → IsBytes fat
    → size + 511 < 2 ^ 32
    → (0 < size → find_free_cluster fat ≢ 0)
    → let needed = u32 (size + 511) / 512 in
      (allocate_clusters needed 0 needed fat 0 0).1 ≡ some (first_cluster fat size)
allocated fat zero bytes bound free = unfold allocate_clusters in refl
allocated fat (suc size) bytes bound free =
    rw (ne→==-false (suc size) 0 (omega arith))
      (allocate_clusters_single fat (u32 (suc size + 511) / 512) bytes (omega arith)
        (free (omega arith))).0

pub first_cluster-lt : (fat : ℕ → ℕ) (size : ℕ) → first_cluster fat size < 2 ^ 16
first_cluster-lt fat size = ground (arith, find_free_cluster-lt fat)

-- The table that the allocation leaves, and the volume with it.
abbrev pub table : (ℕ → ℕ) → ℕ → ℕ → ℕ
table fat size =
    let needed = u32 (size + 511) / 512 in (allocate_clusters needed 0 needed fat 0 0).0

abbrev with_table : Volume → ℕ → Volume
with_table w size = record w {
  mount_info = record w.mount_info { fat_buffer = table w.mount_info.fat_buffer size };
}

create_at_lem :
    (s i size cluster : ℕ) (dos_name : List ℕ) (w : Volume)
    → (let needed = u32 (size + 511) / 512 in
        (allocate_clusters needed 0 needed w.mount_info.fat_buffer 0 0).1)
      ≡ some cluster
    → create_at s i dos_name size w
      ≡ (true, write_entry s i dos_name cluster size (with_table w size))
unfolding create_at
create_at_lem s i size cluster dos_name w first = rw (create_at, first) refl

-- What `fat12_create` does with a new name: `given` is the volume that `write_entry` is given.
pub record Creates (name : List ℕ) (size : ℕ) (v : Volume) (vm : Vmm) (k : ℕ)
    (out : Bool × Volume × Vmm) : Type 0 where
  pub given : Volume
  pub same : SameDirectory given v
  pub mount_info :
      given.mount_info ≡ record v.mount_info { fat_buffer = table v.mount_info.fat_buffer size }
  pub done : out.0 ≡ true
  pub written :
      out.1
      ≡ write_entry
          (k / 16)
          (k % 16)
          (to_dos_filename name)
          (first_cluster v.mount_info.fat_buffer size)
          size
          given
  pub pages : out.2 ≡ vm

pub fat12_create-Creates :
    (name : List ℕ) (size : ℕ) (v : Volume) (vm : Vmm) (k : ℕ)
    → IsBytes v.mount_info.fat_buffer
    → size + 511 < 2 ^ 32
    → (0 < size → find_free_cluster v.mount_info.fat_buffer ≢ 0)
    → IsNew name v k
    → Creates name size v vm k (fat12_create name size v vm)
fat12_create-Creates name size v vm k bytes bound free new =
    let (w, sd, sm, done, out, pages) = made_at name v k new size vm in
    let cluster = first_cluster v.mount_info.fat_buffer size in
    let made =
      create_at_lem (k / 16) (k % 16) size cluster (to_dos_filename name) w
        (rw sm (allocated v.mount_info.fat_buffer size bytes bound free)) in
    record {
      given = with_table w size;
      same = record {
        root_size = ap (λ (m : MountInfo). m.root_size) sm;
        sector = λ j p.
            ap₂ (λ (d : ℕ → ℕ → ℕ) s. d (u32 (s + j / 16))) sd
              (ap (λ (m : MountInfo). m.root_start) sm);
      };
      mount_info = ap (λ (m : MountInfo). record m { fat_buffer = table m.fat_buffer size }) sm;
      done = done ∙ ap (λ (r : Bool × Volume). r.0) made;
      written = out ∙ ap (λ (r : Bool × Volume). r.1) made;
      pages = pages;
    }
