-- ===== src/Drivers/Screen/Scroll.antt =====
-- What scrolling leaves on the screen.
use ten_os.Drivers.Screen.{get_offset, scroll_from, scroll}
use ten_os.Util.{memcpy, memset_from}
use ten_os.Util.Copy.{memcpy_lem}
use ten_os.Util.Fill.{memset_from_lem}
use ten_os.Prelude.{
  ℕ, zero, suc, ◌+◌, ◌-◌, ◌*◌, ◌≤◌, ◌≡◌, ap, ◌∙◌, ltb, leb, ◌&&◌, if◌then◌else◌, arith,
}

row_offset : (i : ℕ) → i ≤ 25 → get_offset 0 i ≡ 160 * i
unfolding get_offset
row_offset i p = omega arith

scroll_from_lem :
    (left i : ℕ) (vidmem : ℕ → ℕ) (j : ℕ)
    → 1 ≤ i
    → i + left ≤ 25
    → scroll_from left i vidmem j ≡ (
        if leb (160 * (i - 1)) j && ltb j (160 * (i - 1 + left))
        then vidmem (j + 160)
        else vidmem j)
unfolding scroll_from
scroll_from_lem zero i vidmem j p q = ground arith
scroll_from_lem (suc left) i vidmem j p q =
    let moved = memcpy vidmem (get_offset 0 (i - 1)) vidmem (get_offset 0 i) 160 in
    ground (
      arith,
      row_offset (i - 1) (omega arith),
      row_offset i (omega arith),
      scroll_from_lem left (i + 1) moved j (omega arith) (omega arith),
      memcpy_lem 160 (get_offset 0 (i - 1)) (get_offset 0 i) vidmem vidmem j,
      memcpy_lem 160 (get_offset 0 (i - 1)) (get_offset 0 i) vidmem vidmem (j + 160),
      ap vidmem {x = get_offset 0 i + (j - get_offset 0 (i - 1))} {y = j + 160},
    )

scroll_all_lem :
    (vidmem : ℕ → ℕ) (j : ℕ)
    → scroll_from 24 1 vidmem j ≡ (if ltb j 3840 then vidmem (j + 160) else vidmem j)
scroll_all_lem vidmem j = scroll_from_lem 24 1 vidmem j (omega arith) (omega arith) ∙ ground arith

blank_lem :
    (moved vidmem : ℕ → ℕ)
    → ((j : ℕ) → moved j ≡ (if ltb j 3840 then vidmem (j + 160) else vidmem j))
    → (j : ℕ)
    → memset_from (get_offset 0 24) moved 0 160 j
      ≡ (if ltb j 3840 then vidmem (j + 160) else if ltb j 4000 then 0 else vidmem j)
blank_lem moved vidmem h j =
    memset_from_lem 160 (get_offset 0 24) moved 0 j
    ∙ rw (row_offset 24 (omega arith), h j) (ground arith)

-- For every screen: scrolling moves each row up by one, blanks the last row with zeros, and changes
-- nothing behind the screen.
pub scroll_lem :
    (vidmem : ℕ → ℕ) (j : ℕ)
    → scroll vidmem j
      ≡ (if ltb j 3840 then vidmem (j + 160) else if ltb j 4000 then 0 else vidmem j)
unfolding scroll
scroll_lem vidmem j = blank_lem (scroll_from 24 1 vidmem) vidmem (scroll_all_lem vidmem) j
