-- ===== src/Fs/Create/Contents.antt =====
-- A new file keeps what is written to it.
use ten_os.Fs.Create.{fat12_create}
use ten_os.Fs.Create.Sync.{IsLaidOut}
use ten_os.Fs.Create.Entry.{mount_info-write_entry}
use ten_os.Fs.Create.Made.{IsNew, new_file, first_cluster, table, fat12_create-Creates}
use ten_os.Fs.Create.Opens.{created_opens}
use ten_os.Fs.Directory.{fat12_open}
use ten_os.Fs.Directory.Slots.{slot_sector, fat12_open-Opens}
use ten_os.Fs.Directory.Same.{SameDirectory, fat12_open-SameDirectory}
use ten_os.Fs.File.{fat12_read, fat12_write}
use ten_os.Fs.File.Chains.{IsChain, uses, lesser}
use ten_os.Fs.File.Chains.Reads.{fat12_read_lem}
use ten_os.Fs.File.Chains.Writes.{fat12_write_lem}
use ten_os.Fs.Table.{find_free_cluster}
use ten_os.Fs.Table.Entries.{IsBytes}
use ten_os.Fs.Table.Chain.{allocate_clusters_single, find_free_cluster-lt, le-find_free_cluster}
use ten_os.Fs.Volume.{Volume, MountInfo, cluster_lba}
use ten_os.Mm.Paging.{Vmm, vmmngr_alloc_page}
use native.Mathlib.Nat.{mul-le-mul_right}
use ten_os.Word.{u32, sub_u32}
use ten_os.Prelude.{
  ℕ, zero, suc, ◌+◌, ◌-◌, ◌*◌, ◌/◌, ◌^◌, ◌≤◌, ◌<◌, ◌≡◌, ◌≢◌, inl, inr, refl, ap, ◌∙◌, fun_ext, List,
  [], ◌∷◌, some, true, false, ltb, if◌then◌else◌, get_or, arith, ne→==-false, Bool-cases,
}

-- A cluster that the table can name stands behind the directory.
cluster_lba_behind :
    (m : MountInfo) (c : ℕ)
    → IsLaidOut m
    → 2 ≤ c
    → c < 4084
    → m.root_start + m.root_size ≤ cluster_lba m c
cluster_lba_behind m c laid low high =
    let place : sub_u32 c 2 ≡ c - 2 = omega arith in
    let room : (c - 2) * m.sectors_per_cluster ≤ 4082 * m.sectors_per_cluster =
      mul-le-mul_right m.sectors_per_cluster (omega arith) in
    rw place (omega (arith, laid.directory, laid.clusters, room))

-- A file's one cluster, in the table that `fat12_create` leaves.
one_cluster :
    (fat : ℕ → ℕ) (size : ℕ)
    → IsBytes fat
    → 0 < size
    → size + 511 < 2 ^ 32
    → find_free_cluster fat ≢ 0
    → IsChain (table fat size) (first_cluster fat size) (first_cluster fat size ∷ [])
one_cluster fat zero bytes pos bound free = absurd (omega arith)
one_cluster fat (suc size) bytes pos bound free =
    let at : first_cluster fat (suc size) ≡ find_free_cluster fat =
      rw (ne→==-false (suc size) 0 (omega arith)) refl in
    let next =
      (allocate_clusters_single fat (u32 (suc size + 511) / 512) bytes (omega arith) free).1
        (find_free_cluster fat) in
    rw at (refl, omega (arith, find_free_cluster-lt fat), ground (arith, next))

module _ (v v' : Volume) (c : ℕ) (laid : IsLaidOut v.mount_info) (low : 2 ≤ c) (high : c < 4084)
    (same_mount : v'.mount_info ≡ v.mount_info)
    (elsewhere : (lba i : ℕ)
      → uses v.mount_info lba (c ∷ []) ≡ false
      → v'.disk lba i ≡ v.disk lba i) where
  -- Writing a cluster leaves the directory as it is.
  written-SameDirectory : SameDirectory v' v
  written-SameDirectory = record {
    root_size = ap (λ (m : MountInfo). m.root_size) same_mount;
    sector = λ k bound. rw (slot_sector, same_mount) (fun_ext λ i. elsewhere _ i (unused k bound));
  }
    where
      unused :
          (k : ℕ)
          → k < 16 * v.mount_info.root_size
          → uses v.mount_info (u32 (v.mount_info.root_start + k / 16)) (c ∷ []) ≡ false
      unused k bound =
          let behind = cluster_lba_behind v.mount_info c laid low high in
          let apart : cluster_lba v.mount_info c ≢ u32 (v.mount_info.root_start + k / 16) =
            λ e. omega (arith, behind, e, laid.directory, laid.clusters) in
          rw (ne→==-false _ _ apart) refl

-- A file of one cluster that is written, opened again and read.
reread :
    (name : List ℕ) (cluster size given : ℕ) (data_in buffer : ℕ → ℕ) (v : Volume) (vm : Vmm)
    → IsLaidOut v.mount_info
    → 2 ≤ cluster
    → cluster < 4084
    → IsChain v.mount_info.fat_buffer cluster (cluster ∷ [])
    → (fat12_open name v vm).0 ≡ some (new_file name cluster size)
    → given ≤ 512
    → given ≤ size
    → size < 2 ^ 32
    → let (written, file', v') = fat12_write (some (new_file name cluster size)) data_in given v in
      let (file'', v'', vm'') = fat12_open name v' vm in
      let (n, file_end, buffer', v_end) = fat12_read file'' buffer given v'' in
      (written ≡ some given)
      × (n ≡ given)
      × ((j : ℕ) → buffer' j ≡ (if ltb j given then data_in j else buffer j))
reread name cluster size given data_in buffer v vm laid low high chain opens short within bound =
    let file = new_file name cluster size in
    let v' = (fat12_write (some file) data_in given v).2 in
    let v'' = (fat12_open name v' vm).1 in
    let wrote = fat12_write_lem file (cluster ∷ []) data_in given v chain refl in
    let again : (fat12_open name v' vm).0 ≡ some file =
      (fat12_open-SameDirectory v' v
        (written-SameDirectory v v' cluster laid low high wrote.3 wrote.2) name vm).0
      ∙ opens in
    let kept = fat12_open-Opens name v' vm in
    let same_mount : v''.mount_info ≡ v.mount_info = kept.same_mount ∙ wrote.3 in
    let read_back =
      fat12_read_lem file (cluster ∷ []) buffer given v'' refl (rw same_mount chain) in
    let whole : lesser (512 * 1) given ≡ given = ground arith in
    let asked : lesser (512 * 1) (lesser (sub_u32 size 0) given) ≡ given = ground arith in
    rw again (
      wrote.0 ∙ ap some whole,
      read_back.0 ∙ asked,
      λ j.
          read_back.1 j
          ∙ rw (same_mount, kept.same_disk, read_back.0, asked)
              (elim (Bool-cases (ltb j given)) [
                | inl inside ↦ rw inside (wrote.1 j (ground arith))
                | inr outside ↦ rw outside refl
              ]),
    )

-- What is written to a new file, and then read from it: `given` bytes in a file of `size` bytes.
module _ (name : List ℕ) (size given : ℕ) (data_in buffer : ℕ → ℕ) (v : Volume) (vm : Vmm) (k : ℕ)
    (laid : IsLaidOut v.mount_info) (bytes : IsBytes v.mount_info.fat_buffer)
    (free : find_free_cluster v.mount_info.fat_buffer ≢ 0) (new : IsNew name v k)
    (named : get_or name 0 1 ≢ 0) (pos : 0 < size) (bound : size + 511 < 2 ^ 32)
    (short : given ≤ 512) (within : given ≤ size) (page : (vmmngr_alloc_page vm).0 ≢ 0)
    (other_page : (vmmngr_alloc_page (vmmngr_alloc_page vm).1).0 ≢ 0) where
  abbrev at : ℕ
  at = first_cluster v.mount_info.fat_buffer size

  abbrev created : Volume
  created = (fat12_create name size v vm).1

  abbrev opened : Volume
  opened = (fat12_open name created vm).1

  opens_new :
      (vm' : Vmm)
      → (vmmngr_alloc_page vm').0 ≢ 0
      → ((fat12_create name size v vm).0 ≡ true)
        × ((fat12_open name created vm').0 ≡ some (new_file name at size))
        × ((fat12_open name created vm').2 ≡ (vmmngr_alloc_page vm').1)
  opens_new vm' paged =
      created_opens name size v vm k laid bytes bound (λ p. free) new vm' named paged

  created_mount :
      created.mount_info ≡ record v.mount_info { fat_buffer = table v.mount_info.fat_buffer size }
  created_mount =
      let c = fat12_create-Creates name size v vm k bytes bound (λ p. free) new in
      let laid' : IsLaidOut c.given.mount_info =
        rw c.mount_info
          (record { tables = laid.tables; directory = laid.directory; clusters = laid.clusters }) in
      rw c.written (
        mount_info-write_entry c.given k _ _ size laid' (rw c.same.root_size new.least.1)
        ∙ c.mount_info)

  opened_mount :
      opened.mount_info ≡ record v.mount_info { fat_buffer = table v.mount_info.fat_buffer size }
  opened_mount = (fat12_open-Opens name created vm).same_mount ∙ created_mount

  opened-SameDirectory : SameDirectory opened created
  opened-SameDirectory =
      let kept = fat12_open-Opens name created vm in
      record {
        root_size = ap (λ (m : MountInfo). m.root_size) kept.same_mount;
        sector = λ j p. rw (slot_sector, kept.same_disk, kept.same_mount) refl;
      }

  at_range : (2 ≤ at) × (at < 4084)
  at_range = ground (
    arith,
    le-find_free_cluster v.mount_info.fat_buffer free,
    find_free_cluster-lt v.mount_info.fat_buffer,
  )

  -- On a volume whose tables, directory and clusters stand behind one another, with a free cluster,
  -- two pages to allocate, and a name that no entry in front of the directory's end mark has: a file
  -- of `size` bytes is created and opened, at most 512 bytes and no more than `size` are written
  -- to it, it is opened again and read. Each call succeeds, and the bytes are those written.
  pub fat12_read-fat12_create :
      let (done, v1, vm1) = fat12_create name size v vm in
      let (file, v2, vm2) = fat12_open name v1 vm1 in
      let (written, file', v3) = fat12_write file data_in given v2 in
      let (file'', v4, vm4) = fat12_open name v3 vm2 in
      let (n, file_end, buffer', v5) = fat12_read file'' buffer given v4 in
      (done ≡ true)
      × (written ≡ some given)
      × (n ≡ given)
      × ((j : ℕ) → buffer' j ≡ (if ltb j given then data_in j else buffer j))
  fat12_read-fat12_create =
      let c = fat12_create-Creates name size v vm k bytes bound (λ p. free) new in
      let first = opens_new vm page in
      let again = opens_new (vmmngr_alloc_page vm).1 other_page in
      let back =
        reread name at size given data_in buffer opened (vmmngr_alloc_page vm).1
          (rw opened_mount
            (record { tables = laid.tables; directory = laid.directory; clusters = laid.clusters }))
          at_range.0 at_range.1
          (rw opened_mount (one_cluster v.mount_info.fat_buffer size bytes pos bound free))
          ((fat12_open-SameDirectory opened created opened-SameDirectory name
              (vmmngr_alloc_page vm).1).0
            ∙ again.1)
          short within (omega arith) in
      rw (c.pages, first.1, first.2) (first.0, back.0, back.1, back.2)
