-- ===== src/Mm/Entry/Tests.antt =====
-- Page table entries at concrete words.
use ten_os.Mm.Entry.{pt_entry_del_attrib, pt_entry_set_frame, pt_entry_pfn}
use ten_os.Prelude.{◌≡◌, refl}

unmapped : pt_entry_del_attrib 0x00345007 1 ≡ 0x00345006
unfolding pt_entry_del_attrib
unmapped = refl

-- A frame from 2 GB on loses its top bit.
high_frame : pt_entry_pfn (pt_entry_set_frame 0 0x80001000) ≡ 0x1000
unfolding pt_entry_pfn pt_entry_set_frame
high_frame = refl
