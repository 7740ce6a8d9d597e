-- ===== src/Cpu/Gdt/Tests.antt =====
-- A task state segment in the table.
use ten_os.Cpu.Gdt.{GdtEntry, gdt_set_tss, tss_init}
use ten_os.Cpu.Gdt.Fields.{limit_of}
use ten_os.Prelude.{ℕ, ◌≡◌, refl}

abbrev empty : ℕ → GdtEntry
empty n = record {
  limit_low = 0;
  base_low = 0;
  base_middle = 0;
  access = 0;
  limit_high = 0;
  flags = 0;
  base_high = 0;
}

tss-run : limit_of ((tss_init 0xC0123456 0xC0200000 empty).1 5) ≡ 103
unfolding tss_init gdt_set_tss
tss-run = refl
