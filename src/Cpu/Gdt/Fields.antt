-- ===== src/Cpu/Gdt/Fields.antt =====
-- The base and the limit that a descriptor holds.
use ten_os.Cpu.Gdt.{GdtEntry, gdt_set_tss}
use ten_os.Word.Bits.{bit_and-mask}
use ten_os.Prelude.{ℕ, ◌+◌, ◌*◌, ◌/◌, ◌^◌, ◌<◌, ◌≡◌, ◌≢◌, refl, arith}

abbrev pub base_of : GdtEntry → ℕ
base_of e = e.base_low + 2 ^ 16 * e.base_middle + 2 ^ 24 * e.base_high

abbrev pub limit_of : GdtEntry → ℕ
limit_of e = e.limit_low + 2 ^ 16 * e.limit_high

-- For every segment below 4 GB with a limit of 20 bits: descriptor 5 holds its base and its limit and
-- is that of an available segment of the kernel, and no other descriptor changes.
gdt_set_tss_lem :
    (base limit : ℕ) (gdt : ℕ → GdtEntry)
    → base < 2 ^ 32
    → limit < 2 ^ 20
    → let gdt' = gdt_set_tss base limit gdt in
      (base_of (gdt' 5) ≡ base)
      × (limit_of (gdt' 5) ≡ limit)
      × ((gdt' 5).access ≡ 0x89)
      × ((d : ℕ) → d ≢ 5 → gdt' d ≡ gdt d)
unfolding gdt_set_tss
gdt_set_tss_lem base limit gdt p q = (
  rw (bit_and-mask 16 base, bit_and-mask 8 (base / 2 ^ 16), bit_and-mask 8 (base / 2 ^ 24))
      (omega arith),
  rw (bit_and-mask 16 limit, bit_and-mask 4 (limit / 2 ^ 16)) (omega arith),
  refl,
  λ d ne. ground arith,
)
