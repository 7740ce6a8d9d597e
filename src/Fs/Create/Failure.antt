-- ===== src/Fs/Create/Failure.antt =====
-- `fat12_create` where it returns -1.
use ten_os.Fs.Create.{create_at, fat12_create}
use ten_os.Fs.Directory.{fat12_open, find_free_dir_entry}
use ten_os.Fs.Directory.Slots.{fat12_open-Opens}
use ten_os.Fs.Directory.Free.{disk-find_free_dir_entry}
use ten_os.Fs.Name.{to_dos_filename}
use ten_os.Fs.File.{File}
use ten_os.Fs.Table.{allocate_clusters}
use ten_os.Fs.Volume.{Volume}
use ten_os.Mm.Paging.{Vmm}
use ten_os.Word.{u32}
use ten_os.Prelude.{ℕ, ◌+◌, ◌/◌, ◌≡◌, refl, ◌∙◌, List, Option, none, some, false}

-- The outcome behind the two searches.
create_at-failure :
    (s i size : ℕ) (dos_name : List ℕ) (w : Volume) (first : Option ℕ)
    → (let needed = u32 (size + 511) / 512 in
        (allocate_clusters needed 0 needed w.mount_info.fat_buffer 0 0).1)
      ≡ first
    → (create_at s i dos_name size w).0 ≡ false
    → (create_at s i dos_name size w).1.disk ≡ w.disk
unfolding create_at
create_at-failure s i size dos_name w none e failed = rw (create_at, e) refl
create_at-failure s i size dos_name w (some c) e failed = absurd (cc (rw (create_at, e) at failed))

failure_at :
    (name : List ℕ) (size : ℕ) (v : Volume) (vm : Vmm) (existing : Option File)
    (place : Option (ℕ × ℕ))
    → (fat12_open name v vm).0 ≡ existing
    → (find_free_dir_entry (fat12_open name v vm).1).0 ≡ place
    → (fat12_create name size v vm).0 ≡ false
    → (fat12_create name size v vm).1.disk ≡ v.disk
unfolding fat12_create create_at
failure_at name size v vm (some f) place e at failed =
    rw (fat12_create, e) (fat12_open-Opens name v vm).same_disk
failure_at name size v vm none none e at failed =
    rw (fat12_create, e, at)
      (disk-find_free_dir_entry (fat12_open name v vm).1 ∙ (fat12_open-Opens name v vm).same_disk)
failure_at name size v vm none (some (s, i)) e at failed =
    rw (fat12_create, e, at)
      (create_at-failure s i size (to_dos_filename name)
          (find_free_dir_entry (fat12_open name v vm).1).1 _ refl
          (rw (fat12_create, e, at) at failed)
        ∙ disk-find_free_dir_entry (fat12_open name v vm).1
        ∙ (fat12_open-Opens name v vm).same_disk)

-- Where `fat12_create` fails, be it that the file exists, that the directory is full or that no
-- cluster is free, the disk is as before.
pub fat12_create-failure :
    (name : List ℕ) (size : ℕ) (v : Volume) (vm : Vmm)
    → (fat12_create name size v vm).0 ≡ false
    → (fat12_create name size v vm).1.disk ≡ v.disk
fat12_create-failure name size v vm failed = failure_at name size v vm _ _ refl refl failed

-- A file that exists is not created again.
pub fat12_create-existing :
    (name : List ℕ) (size : ℕ) (v : Volume) (vm : Vmm) (f : File)
    → (fat12_open name v vm).0 ≡ some f
    → (fat12_create name size v vm).0 ≡ false
unfolding fat12_create
fat12_create-existing name size v vm f e = rw (fat12_create, e) refl
