-- ===== src/Fs/Create/Tests.antt =====
-- The witnesses of the theorems on `fat12_create`.
use ten_os.Fs.Create.Samples.{
  a_txt, b_txt, volume, vmm, a_page, laid, bytes, a_cluster, new, a_file,
}
use ten_os.Fs.Create.{fat12_create}
use ten_os.Fs.Create.Made.{new_file}
use ten_os.Fs.Create.Opens.{FirstCluster, fat12_open-fat12_create, fat12_create-keeps}
use ten_os.Fs.Create.Failure.{fat12_create-failure, fat12_create-existing}
use ten_os.Fs.Directory.{is_same, scan_entries, scan_sector, open_sectors, open_entry, fat12_open}
use ten_os.Fs.Name.{to_dos_filename, to_upper, copy_name, skip_to_dot, copy_extension, after_name}
use ten_os.Fs.Volume.{read_sector}
use ten_os.Mm.Memory.{alloc_memory_block, mmap_first_free, scan_words, scan_bits}
use ten_os.Mm.Paging.{vmmngr_alloc_page}
use ten_os.Util.{memcmp}
use ten_os.Prelude.{ℕ, ◌≡◌, refl, some, true, arith}

a_file-run : (fat12_open a_txt volume vmm).0 ≡ some a_file
unfolding fat12_open open_sectors open_entry read_sector scan_sector scan_entries to_dos_filename
    to_upper copy_name skip_to_dot copy_extension after_name memcmp is_same vmmngr_alloc_page
    alloc_memory_block mmap_first_free scan_words scan_bits
a_file-run = refl

fat12_open-fat12_create_example :
    let (done, v', _) = fat12_create b_txt 600 volume vmm in
    (cluster : ℕ) × (done ≡ true)
    × ((fat12_open b_txt v' vmm).0 ≡ some (new_file b_txt cluster 600))
    × ((fat12_open b_txt v' vmm).2 ≡ (vmmngr_alloc_page vmm).1)
    × FirstCluster volume.mount_info.fat_buffer 600 cluster
fat12_open-fat12_create_example =
    fat12_open-fat12_create b_txt 600 volume vmm 1 laid bytes (omega arith) (λ p. a_cluster) new vmm
      (λ e. omega (arith, e)) a_page

fat12_create-keeps_example :
    (fat12_open a_txt (fat12_create b_txt 600 volume vmm).1 vmm).0 ≡ some a_file
fat12_create-keeps_example =
    fat12_create-keeps b_txt 600 volume vmm 1 laid bytes (omega arith) (λ p. a_cluster) new vmm
      a_txt a_file a_file-run

fat12_create-failure_example : (fat12_create a_txt 600 volume vmm).1.disk ≡ volume.disk
fat12_create-failure_example =
    fat12_create-failure a_txt 600 volume vmm
      (fat12_create-existing a_txt 600 volume vmm a_file a_file-run)
