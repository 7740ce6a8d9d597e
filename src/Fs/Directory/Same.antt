-- ===== src/Fs/Directory/Same.antt =====
-- Two volumes with the same directory open the same files.
use ten_os.Fs.Directory.{fat12_open}
use ten_os.Fs.Directory.Slots.{
  slot_sector, ends_or_has, opened, opened_at, paged, paged_at, fat12_open-Opens,
}
use ten_os.Fs.Directory.Sectors.{stops_at}
use ten_os.Fs.Name.{to_dos_filename}
use ten_os.Fs.Volume.{Volume}
use ten_os.Mm.Paging.{Vmm}
use ten_os.Prelude.Least.{IsLeast, IsLeast_unique}
use ten_os.Prelude.{ℕ, ◌*◌, ◌%◌, ◌<◌, ◌≡◌, refl, sym, ap, ◌∙◌, List, Option, none, some, arith}

pub record SameDirectory (u v : Volume) : Type 0 where
  pub root_size : u.mount_info.root_size ≡ v.mount_info.root_size
  pub sector : (k : ℕ) → k < 16 * v.mount_info.root_size → slot_sector u k ≡ slot_sector v k

module _ (u v : Volume) (same : SameDirectory u v) where
  pub ends_or_has-SameDirectory :
      (dos_name : List ℕ) (k : ℕ)
      → k < 16 * v.mount_info.root_size
      → ends_or_has u dos_name k ≡ ends_or_has v dos_name k
  ends_or_has-SameDirectory dos_name k bound =
      ap (λ sector. stops_at sector dos_name (k % 16)) (same.sector k bound)

  pub IsLeast-SameDirectory :
      (dos_name : List ℕ) (r : Option ℕ)
      → IsLeast (ends_or_has v dos_name) 0 (16 * v.mount_info.root_size) r
      → IsLeast (ends_or_has u dos_name) 0 (16 * u.mount_info.root_size) r
  IsLeast-SameDirectory dos_name none h = λ b p q.
      let bound : b < 16 * v.mount_info.root_size = omega (arith, same.root_size) in
      ends_or_has-SameDirectory dos_name b bound ∙ h b p bound
  IsLeast-SameDirectory dos_name (some k) (p, q, here, below) = (
    p,
    omega (arith, same.root_size),
    ends_or_has-SameDirectory dos_name k q ∙ here,
    λ b p' q'. ends_or_has-SameDirectory dos_name b (omega arith) ∙ below b p' q',
  )

  pub opened_at-SameDirectory :
      (dos_name name : List ℕ) (vm : Vmm) (r : Option ℕ)
      → IsLeast (ends_or_has v dos_name) 0 (16 * v.mount_info.root_size) r
      → opened_at name u vm r ≡ opened_at name v vm r
  opened_at-SameDirectory dos_name name vm none h = refl
  opened_at-SameDirectory dos_name name vm (some k) h =
      ap (λ sector. opened name sector vm (k % 16)) (same.sector k h.1)

  paged_at-SameDirectory :
      (dos_name : List ℕ) (vm : Vmm) (r : Option ℕ)
      → IsLeast (ends_or_has v dos_name) 0 (16 * v.mount_info.root_size) r
      → paged_at u vm r ≡ paged_at v vm r
  paged_at-SameDirectory dos_name vm none h = refl
  paged_at-SameDirectory dos_name vm (some k) h =
      ap (λ sector. paged sector vm (k % 16)) (same.sector k h.1)

  -- The handle and the page tables do not depend on the rest of the drive.
  pub fat12_open-SameDirectory :
      (name : List ℕ) (vm : Vmm)
      → ((fat12_open name u vm).0 ≡ (fat12_open name v vm).0)
        × ((fat12_open name u vm).2 ≡ (fat12_open name v vm).2)
  fat12_open-SameDirectory name vm =
      let h = fat12_open-Opens name u vm in
      let k = fat12_open-Opens name v vm in
      let at : h.entry ≡ k.entry =
        IsLeast_unique (ends_or_has u (to_dos_filename name)) 0 _ h.entry k.entry h.least
          (IsLeast-SameDirectory (to_dos_filename name) k.entry k.least) in
      (
        h.file
            ∙ ap (opened_at name u vm) at
            ∙ opened_at-SameDirectory (to_dos_filename name) name vm k.entry k.least
            ∙ sym k.file,
        h.pages
            ∙ ap (paged_at u vm) at
            ∙ paged_at-SameDirectory (to_dos_filename name) vm k.entry k.least
            ∙ sym k.pages,
      )
