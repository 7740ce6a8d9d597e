-- ===== src/Util/Copy.antt =====
-- `memcpy` copies the bytes that it is given and changes no other.
use ten_os.Util.{memcpy}
use ten_os.Prelude.{ℕ, zero, suc, ◌+◌, ◌-◌, ◌≡◌, ◌&&◌, ltb, leb, if◌then◌else◌, update, ap, arith}

-- For all memories, offsets and lengths: byte `j` of the result is the source's byte at the same
-- distance from its offset, if `j` is among the copied ones, and else what it was.
pub memcpy_lem :
    (n to from : ℕ) (dest source : ℕ → ℕ) (j : ℕ)
    → memcpy dest to source from n j
      ≡ (if leb to j && ltb j (to + n) then source (from + (j - to)) else dest j)
unfolding memcpy
memcpy_lem zero to from dest source j = ground arith
memcpy_lem (suc n) to from dest source j = ground (
  arith,
  memcpy_lem n (to + 1) (from + 1) (update dest to (source from)) source j,
  ap source {x = from + 1 + (j - (to + 1))} {y = from + (j - to)},
  ap source {x = from} {y = from + (j - to)},
)
