-- ===== src/Mm/Entry/Fields.antt =====
-- The frame and the flags of an entry do not disturb one another.
use ten_os.Mm.Entry.{
  i86_pte_present, i86_pte_writable, i86_pte_user, i86_pte_frame, pt_entry_add_attrib,
  pt_entry_set_frame, pt_entry_is_present, pt_entry_is_writable, pt_entry_pfn,
}
use ten_os.Word.{not_u32}
use ten_os.Word.Bits.{
  bit, bit-bit_or, bit-bit_and, bit-le-one, bit-mod, bit-zero, bit_ext, bit-div, bit_and-pow,
  bit_and-lt, bit_or-lt, bit_and-shift, bit_and-mask,
}
use ten_os.Prelude.{
  ℕ, ◌+◌, ◌*◌, ◌/◌, ◌%◌, ◌^◌, ◌<◌, bit_and, bit_or, ◌≡◌, refl, ap, sym, ◌∙◌, max, leb, ltb, ◌==◌,
  ◌&&◌, true, if◌then◌else◌, passes_below, passes_below_lem, arith,
}

-- The masks, as arithmetic: the frame is the bits 12 to 30.
pub pfn-eq : (e : ℕ) → pt_entry_pfn e ≡ e / 2 ^ 12 % 2 ^ 19 * 2 ^ 12
unfolding pt_entry_pfn
pfn-eq e = bit_and-shift 12 e 0x7FFFF ∙ ap (λ (t : ℕ). t * 2 ^ 12) (bit_and-mask 19 (e / 2 ^ 12))

-- The bits of the masks.
frame_table :
    passes_below 32 (λ i. bit i i86_pte_frame == (if leb 12 i && ltb i 31 then 1 else 0)) ≡ true
unfolding passes_below bit
frame_table = refl

other_table :
    passes_below 32 (λ i. bit i (not_u32 i86_pte_frame) == (if leb 12 i && ltb i 31 then 0 else 1))
    ≡ true
unfolding passes_below bit
other_table = refl

flag_table : passes_below 32 (λ i. bit i 1 + bit i 2 + bit i 4 == (if ltb i 3 then 1 else 0)) ≡ true
unfolding passes_below bit
flag_table = refl

abbrev flagged : ℕ → ℕ → ℕ
flagged e phys = bit_or (bit_or (bit_or (bit_or (bit_and e (not_u32 i86_pte_frame)) phys) 1) 2) 4

module _ (e phys i : ℕ) (inside : i < 32) where
  bit-flagged : bit i (flagged e phys) ≡ (
      if leb 12 i && ltb i 31
      then bit i phys
      else max (bit i phys) (max (bit i e) (if ltb i 3 then 1 else 0)))
  bit-flagged = ground (
    arith,
    bit-bit_or i (bit_or (bit_or (bit_or (bit_and e (not_u32 i86_pte_frame)) phys) 1) 2) 4,
    bit-bit_or i (bit_or (bit_or (bit_and e (not_u32 i86_pte_frame)) phys) 1) 2,
    bit-bit_or i (bit_or (bit_and e (not_u32 i86_pte_frame)) phys) 1,
    bit-bit_or i (bit_and e (not_u32 i86_pte_frame)) phys,
    bit-bit_and i e (not_u32 i86_pte_frame),
    passes_below_lem 32
        (λ i. bit i (not_u32 i86_pte_frame) == (if leb 12 i && ltb i 31 then 0 else 1)) i
        other_table inside,
    passes_below_lem 32 (λ i. bit i 1 + bit i 2 + bit i 4 == (if ltb i 3 then 1 else 0)) i
        flag_table inside,
    bit-le-one i e,
    bit-le-one i phys,
  )

flag_set : (e phys i : ℕ) → i < 3 → bit i (flagged e phys) ≡ 1
flag_set e phys i h =
    ground (arith, bit-flagged e phys i (omega arith), bit-le-one i e, bit-le-one i phys)

flagged-lt : (e phys : ℕ) → e < 2 ^ 32 → phys < 2 ^ 31 → flagged e phys < 2 ^ 32
flagged-lt e phys word low =
    let framed =
      bit_or-lt 32 (bit_and e (not_u32 i86_pte_frame)) phys
        (bit_and-lt 32 e (not_u32 i86_pte_frame) word) (omega arith) in
    bit_or-lt 32 _ 4 (bit_or-lt 32 _ 2 (bit_or-lt 32 _ 1 framed (omega arith)) (omega arith))
      (omega arith)

bit-phys-low : (phys i : ℕ) → phys % 4096 ≡ 0 → i < 12 → bit i phys ≡ 0
bit-phys-low phys i aligned h = sym (bit-mod 12 i phys h) ∙ ap (bit i) aligned ∙ bit-zero i

bit-phys-top : (phys : ℕ) → phys < 2 ^ 31 → bit 31 phys ≡ 0
bit-phys-top phys low =
    let down : phys / 2 ^ 31 ≡ 0 = omega arith in
    sym (bit-div 31 0 phys) ∙ ap (bit 0) down ∙ bit-zero 0

bit-pfn :
    (e phys : ℕ)
    → phys % 4096 ≡ 0
    → phys < 2 ^ 31
    → (i : ℕ) → (inside : i < 32) → bit i (pt_entry_pfn (flagged e phys)) ≡ bit i phys
unfolding pt_entry_pfn
bit-pfn e phys aligned low i inside = ground (
  arith,
  bit-bit_and i (flagged e phys) i86_pte_frame,
  bit-flagged e phys i inside,
  passes_below_lem 32 (λ i. bit i i86_pte_frame == (if leb 12 i && ltb i 31 then 1 else 0)) i
      frame_table inside,
  bit-phys-low phys i aligned,
  bit-phys-top phys low,
  bit-le-one i phys,
  ap (λ (j : ℕ). bit j phys) {x = i} {y = 31},
)

-- Setting a frame and then the three flags of a mapping, as `vmmngr_map_page` does, gives an
-- entry of that frame, present and writable, whatever the entry was.
pub mapped_entry :
    (e phys : ℕ)
    → phys % 4096 ≡ 0
    → phys < 2 ^ 31
    → e < 2 ^ 32
    → let e' =
        pt_entry_add_attrib
          (pt_entry_add_attrib
            (pt_entry_add_attrib (pt_entry_set_frame e phys) i86_pte_present)
            i86_pte_writable)
          i86_pte_user in
      (pt_entry_pfn e' ≡ phys)
      × (pt_entry_is_present e' ≡ i86_pte_present)
      × (pt_entry_is_writable e' ≡ i86_pte_writable)
unfolding pt_entry_add_attrib pt_entry_set_frame pt_entry_pfn pt_entry_is_present
    pt_entry_is_writable
mapped_entry e phys aligned low word = (
  bit_ext 32 _ phys (bit_and-lt 32 (flagged e phys) i86_pte_frame (flagged-lt e phys word low))
      (omega arith) (bit-pfn e phys aligned low),
  rw (bit_and-pow 0 (flagged e phys), flag_set e phys 0 (omega arith)),
  rw (bit_and-pow 1 (flagged e phys), flag_set e phys 1 (omega arith)),
)
