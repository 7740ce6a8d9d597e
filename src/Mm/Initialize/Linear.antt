-- ===== src/Mm/Initialize/Linear.antt =====
-- The kernel's window and the first 4 MB behind vmmngr_initialize.
use ten_os.Mm.Initialize.{extend_from, remove_identity}
use ten_os.Mm.Initialize.Window.{window}
use ten_os.Mm.Initialize.Extension.{IsReady, extend_from-IsExtended}
use ten_os.Mm.Initialize.Identity.{remove_identity-Unmaps}
use ten_os.Mm.Paging.{Vmm, page_size}
use ten_os.Mm.Paging.Walk.{frame_at, offset_in, dir_index, table_index, translate, IsSound}
use mathlib.Core.Option.{some-injective}
use ten_os.Prelude.{
  ℕ, ◌+◌, ◌-◌, ◌*◌, ◌/◌, ◌%◌, ◌^◌, ◌≤◌, ◌<◌, ◌≡◌, Option, none, some, refl, ap, ◌∙◌, arith,
}

from_frame :
    (frame : Option ℕ) (v m : ℕ)
    → offset_in (window m) frame ≡ some (m * 4096)
    → offset_in v frame ≡ some (m * 4096 + v % 4096)
from_frame none v m e = absurd (cc e)
from_frame (some f) v m e =
    let page : f * 4096 + window m % 4096 ≡ m * 4096 =
      some-injective (f * 4096 + window m % 4096) (m * 4096) e in
    ap some (omega arith)

in_page :
    (vm : Vmm) (v m : ℕ)
    → v / 4096 ≡ 0xC0000 + m
    → translate vm (window m) ≡ some (m * 4096)
    → translate vm v ≡ some (m * 4096 + v % 4096)
in_page vm v m h e =
    let d : dir_index v ≡ dir_index (window m) = omega arith in
    let t : table_index v ≡ table_index (window m) = omega arith in
    rw (d, t) (from_frame (frame_at vm (dir_index (window m)) (table_index (window m))) v m e)

-- The part of `vmmngr_initialize` from the switch to the new directory on, for a memory of at most
-- 1 GB, from sound tables in which the pages from 4 MB on are not in the window or at their place,
-- with as many blocks to allocate as tables of the window begin between 4 MB and the end of memory:
-- behind it no address of the first 4 MB is translated, every address of the window from 4 MB to
-- the end of memory goes to the physical address 3 GB below, and the tables are sound.
pub remove_identity-extend_from :
    (total : ℕ) (vm : Vmm) (low high : ℕ)
    → IsReady 1024 ((total + 4095) / 4096) vm
    → total ≤ 2 ^ 30
    → low < 2 ^ 22
    → 0xC0400000 ≤ high
    → high < 0xC0000000 + total
    → let vm' =
        remove_identity vm.cur_directory
          (extend_from (total / page_size) 0x400000 total vm.cur_directory vm) in
      IsSound vm' × (translate vm' low ≡ none) × (translate vm' high ≡ some (high - 0xC0000000))
remove_identity-extend_from total vm low high r fits p q h =
    let m = high / 4096 - 0xC0000 in
    let out = extend_from (total / page_size) 0x400000 total vm.cur_directory vm in
    let x =
      extend_from-IsExtended (total / page_size) 1024 total vm.cur_directory vm refl r (omega arith)
        fits (omega arith) in
    let u = remove_identity-Unmaps out vm.cur_directory x.sound x.directory in
    (
      u.sound,
      u.low low p,
      u.others high (omega arith) (omega arith)
          ∙ in_page out high m (omega arith) (x.pages m (omega arith) (omega arith))
          ∙ ap some (omega arith),
    )
