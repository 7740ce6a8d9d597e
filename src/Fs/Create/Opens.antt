-- ===== src/Fs/Create/Opens.antt =====
-- `fat12_open` behind `fat12_create`.
use ten_os.Fs.Create.Made.{IsNew, new_file, first_cluster, first_cluster-lt, fat12_create-Creates}
use ten_os.Fs.Directory.Same.{IsLeast-SameDirectory, opened_at-SameDirectory}
use ten_os.Fs.Create.{write_entry, fat12_create}
use ten_os.Fs.Create.Sync.{IsLaidOut}
use ten_os.Fs.Create.Entry.{
  mount_info-write_entry, ends_or_has_others, entry_file_others, filename_0_others, filename_0_new,
  ends_or_has_new, entry_file_new,
}
use ten_os.Fs.Directory.{filename_0, fat12_open}
use ten_os.Fs.Directory.Slots.{slot_sector, ends_or_has, opened_at, paged_at, fat12_open-Opens}
use ten_os.Fs.File.{File}
use ten_os.Fs.Name.{dot, to_upper, to_dos_filename}
use ten_os.Fs.Name.Padded.{to_dos_filename-padded}
use ten_os.Fs.Table.{get_next_cluster, find_free_cluster}
use ten_os.Fs.Table.Chain.{find_free_cluster-IsLeast}
use ten_os.Fs.Table.Entries.{IsBytes}
use ten_os.Fs.Volume.{Volume}
use ten_os.Mm.Paging.{Vmm, vmmngr_alloc_page}
use ten_os.Prelude.Least.{IsLeast, IsLeast_unique}
use native.Mathlib.Decide.{ℕ_discrete}
use ten_os.Prelude.{
  zero, suc, ◌⊎◌, ℕ, ◌+◌, ◌*◌, ◌/◌, ◌%◌, ◌^◌, ◌<◌, ◌≡◌, ◌≢◌, inl, inr, refl, sym, ap, ◌∙◌, List, [],
  ◌∷◌, Option, none, some, true, false, ◌==◌, get_or, arith, ne→==-false, Bool-cases,
}

module _ (u : Volume) (k cluster size : ℕ) (laid : IsLaidOut u.mount_info)
    (inside : k < 16 * u.mount_info.root_size) where
  -- A file whose entry stands in front of the new one opens as before.
  open_other :
      (name dos_name : List ℕ) (vm : Vmm) (f : File) (e : Option ℕ)
      → filename_0 (slot_sector u k) (k % 16) ≡ 0
      → IsLeast (ends_or_has u (to_dos_filename name)) 0 (16 * u.mount_info.root_size) e
      → opened_at name u vm e ≡ some f
      → (fat12_open name (write_entry (k / 16) (k % 16) dos_name cluster size u) vm).0 ≡ some f
  open_other name dos_name vm f none ended least file = absurd (cc file)
  open_other name dos_name vm f (some b) ended least file =
      let v' = write_entry (k / 16) (k % 16) dos_name cluster size u in
      let h = fat12_open-Opens name v' vm in
      let used : filename_0 (slot_sector u b) (b % 16) ≢ 0 = ground (arith, file) in
      let before : b < k = front b ended used least in
      let apart : b ≢ k = λ e. absurd (omega arith) in
      let stays : IsLeast (ends_or_has v' (to_dos_filename name)) 0 (16 * v'.mount_info.root_size)
          (some b) =
        (
          omega arith,
          rw (mount_info-write_entry u k dos_name cluster size laid inside) least.1,
          ends_or_has_others u k dos_name cluster size laid inside (to_dos_filename name) b apart
                least.1
              ∙ least.2,
          λ c p q.
              ends_or_has_others u k dos_name cluster size laid inside (to_dos_filename name) c
                (λ e. absurd (omega arith)) (omega (arith, least.1))
              ∙ least.3 c p q,
        ) in
      h.file
      ∙ ap (opened_at name v' vm) (
          IsLeast_unique (ends_or_has v' (to_dos_filename name)) 0 _ h.entry (some b) h.least stays)
      ∙ rw
          (
            filename_0_others u k dos_name cluster size laid inside b apart least.1,
            entry_file_others u k dos_name cluster size laid inside name b apart least.1,
          )
          file
    where
      front :
          (b : ℕ)
          → filename_0 (slot_sector u k) (k % 16) ≡ 0
          → filename_0 (slot_sector u b) (b % 16) ≢ 0
          → IsLeast (ends_or_has u (to_dos_filename name)) 0 (16 * u.mount_info.root_size) (some b)
          → b < k
      front b ended used least = elim (ℕ_discrete b k) [
        | yes same ↦ absurd (used (rw same ended))
        | no apart ↦ ground (arith, least.3 k, ended)
      ]

  -- The new file is found, and a page is taken for its handle.
  open_new :
      (name : List ℕ) (vm : Vmm)
      → IsLeast (ends_or_has u (to_dos_filename name)) 0 (16 * u.mount_info.root_size) (some k)
      → get_or (to_dos_filename name) 0 0 ≢ 0
      → (vmmngr_alloc_page vm).0 ≢ 0
      → cluster < 2 ^ 16
      → size < 2 ^ 32
      → let v' = write_entry (k / 16) (k % 16) (to_dos_filename name) cluster size u in
        ((fat12_open name v' vm).0 ≡ some (new_file name cluster size))
        × ((fat12_open name v' vm).2 ≡ (vmmngr_alloc_page vm).1)
  open_new name vm least named page cluster_fits size_fits =
      let dos_name = to_dos_filename name in
      let v' = write_entry (k / 16) (k % 16) dos_name cluster size u in
      let h = fat12_open-Opens name v' vm in
      let stays : IsLeast (ends_or_has v' dos_name) 0 (16 * v'.mount_info.root_size) (some k) = (
        omega arith,
        rw (mount_info-write_entry u k dos_name cluster size laid inside) inside,
        ends_or_has_new u k dos_name cluster size laid inside,
        λ c p q.
            ends_or_has_others u k dos_name cluster size laid inside dos_name c
              (λ e. absurd (omega arith)) (omega arith)
            ∙ least.3 c p q,
      ) in
      let at : h.entry ≡ some k =
        IsLeast_unique (ends_or_has v' dos_name) 0 _ h.entry (some k) h.least stays in
      let used : (filename_0 (slot_sector v' k) (k % 16) == 0) ≡ false =
        ne→==-false _ _ (rw (filename_0_new u k dos_name cluster size laid inside) named) in
      (
        h.file
            ∙ ap (opened_at name v' vm) at
            ∙ rw
                (
                  used,
                  entry_file_new u k dos_name cluster size laid inside name cluster_fits size_fits,
                  ne→==-false _ _ page,
                )
                refl,
        h.pages ∙ ap (paged_at v' vm) at ∙ rw used refl,
      )

to_dos_filename_head : (name : List ℕ) → get_or name 0 1 ≢ 0 → get_or (to_dos_filename name) 0 0 ≢ 0
unfolding to_upper
to_dos_filename_head [] named = rw (to_dos_filename-padded []) (λ e. absurd (omega arith))
to_dos_filename_head (c ∷ s) named = elim (Bool-cases (c == dot)) [
  | inl stop ↦ rw (to_dos_filename-padded (c ∷ s), stop) (λ e. absurd (omega arith))
  | inr go ↦ rw (to_dos_filename-padded (c ∷ s), go) (λ e. ground arith)
]

-- Where a file of this size begins: a file without bytes at 0, any other at the lowest free cluster.
abbrev pub FirstCluster : (ℕ → ℕ) → ℕ → ℕ → Type 0
FirstCluster fat size cluster =
    ((size ≡ 0) × (cluster ≡ 0))
    ⊎ ((0 < size) × IsLeast (λ c. get_next_cluster fat c == 0) 2 4084 (some cluster))

first_cluster-FirstCluster :
    (fat : ℕ → ℕ) (size : ℕ)
    → (0 < size → find_free_cluster fat ≢ 0)
    → FirstCluster fat size (first_cluster fat size)
first_cluster-FirstCluster fat zero free = inl (refl, refl)
first_cluster-FirstCluster fat (suc size) free = inr (
  omega arith,
  rw (ne→==-false (suc size) 0 (omega arith)) (find_free_cluster-IsLeast fat (free (omega arith))),
)

module _ (name : List ℕ) (size : ℕ) (v : Volume) (vm : Vmm) (k : ℕ) (laid : IsLaidOut v.mount_info)
    (bytes : IsBytes v.mount_info.fat_buffer) (bound : size + 511 < 2 ^ 32)
    (free : 0 < size → find_free_cluster v.mount_info.fat_buffer ≢ 0) (new : IsNew name v k) where
  pub created_opens :
      (vm' : Vmm)
      → get_or name 0 1 ≢ 0
      → (vmmngr_alloc_page vm').0 ≢ 0
      → let (done, v', _) = fat12_create name size v vm in
        (done ≡ true)
        × ((fat12_open name v' vm').0
            ≡ some (new_file name (first_cluster v.mount_info.fat_buffer size) size))
        × ((fat12_open name v' vm').2 ≡ (vmmngr_alloc_page vm').1)
  created_opens vm' named page =
      let c = fat12_create-Creates name size v vm k bytes bound free new in
      let laid' : IsLaidOut c.given.mount_info =
        rw c.mount_info
          (record { tables = laid.tables; directory = laid.directory; clusters = laid.clusters }) in
      let new_one =
        open_new c.given k (first_cluster v.mount_info.fat_buffer size) size laid'
          (rw c.same.root_size new.least.1) name vm'
          (IsLeast-SameDirectory c.given v c.same (to_dos_filename name) (some k) new.least)
          (to_dos_filename_head name named) page (first_cluster-lt v.mount_info.fat_buffer size)
          (omega arith) in
      (c.done, rw c.written new_one.0, rw c.written new_one.1)

  -- A file is created on a volume whose tables stand in front of the root directory and whose table
  -- holds bytes, in a directory with an end mark, under a name that no entry in front of it has and
  -- that does not begin with the byte 0, with a size at most 4 GB less 512 and, if that is not 0,
  -- with a cluster free: `fat12_create` succeeds, and `fat12_open`, with a page for the handle, takes
  -- it and finds the file with its size, at the lowest cluster from 2 to 4083 whose entry in the
  -- table was 0, or at 0 if the size is 0.
  pub fat12_open-fat12_create :
      (vm' : Vmm)
      → get_or name 0 1 ≢ 0
      → (vmmngr_alloc_page vm').0 ≢ 0
      → let (done, v', _) = fat12_create name size v vm in
        (cluster : ℕ) × (done ≡ true)
        × ((fat12_open name v' vm').0 ≡ some (new_file name cluster size))
        × ((fat12_open name v' vm').2 ≡ (vmmngr_alloc_page vm').1)
        × FirstCluster v.mount_info.fat_buffer size cluster
  fat12_open-fat12_create vm' named page =
      let (done, opened, pages) = created_opens vm' named page in
      (
        first_cluster v.mount_info.fat_buffer size,
        done,
        opened,
        pages,
        first_cluster-FirstCluster v.mount_info.fat_buffer size free,
      )

  -- On such a volume, a file that could be opened before `fat12_create` is opened as before.
  pub fat12_create-keeps :
      (vm' : Vmm) (other : List ℕ) (f : File)
      → (fat12_open other v vm').0 ≡ some f
      → (fat12_open other (fat12_create name size v vm).1 vm').0 ≡ some f
  fat12_create-keeps vm' other f opened_before =
      let c = fat12_create-Creates name size v vm k bytes bound free new in
      let laid' : IsLaidOut c.given.mount_info =
        rw c.mount_info
          (record { tables = laid.tables; directory = laid.directory; clusters = laid.clusters }) in
      let h = fat12_open-Opens other v vm' in
      rw c.written (
        open_other c.given k _ size laid' (rw c.same.root_size new.least.1) other
          (to_dos_filename name) vm' f h.entry (rw (c.same.sector k new.least.1) new.ended)
          (IsLeast-SameDirectory c.given v c.same (to_dos_filename other) h.entry h.least)
          (opened_at-SameDirectory c.given v c.same (to_dos_filename other) other vm' h.entry
              h.least
            ∙ sym h.file
            ∙ opened_before))
