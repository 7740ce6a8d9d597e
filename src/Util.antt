-- ===== src/Util.antt =====
-- lib/util.c. A pointer to bytes is the memory from it on, as a function from the offset.
pub mod Fill
pub mod Copy
pub mod Strings
pub mod Compare
pub mod Ascii
use ten_os.Prelude.{ℕ, zero, suc, ◌+◌, update, ltb, if◌then◌else◌}

-- `for ( ; len != 0; len--) *temp++ = val;`, the offset of `temp` in front.
unfoldable pub memset_from : ℕ → (ℕ → ℕ) → ℕ → ℕ → ℕ → ℕ
memset_from at mem val zero = mem
memset_from at mem val (suc len) = memset_from (at + 1) (update mem at val) val len

unfoldable pub memset : (ℕ → ℕ) → ℕ → ℕ → ℕ → ℕ
unfolding memset_from
memset mem val len = memset_from 0 mem val len

-- `for (i = 0; i < nbytes; i++) *(dest + i) = *(source + i);` on memories that do not overlap,
-- from `to` in `dest` and `from` in `source` on.
unfoldable pub memcpy : (ℕ → ℕ) → ℕ → (ℕ → ℕ) → ℕ → ℕ → ℕ → ℕ
memcpy dest to source from zero = dest
memcpy dest to source from (suc nbytes) =
    memcpy (update dest to (source from)) (to + 1) source (from + 1) nbytes

-- What `memcmp` returns: -1, 0 or 1.
pub data Comparison : Type 0 where
  less : Comparison
  same : Comparison
  more : Comparison

unfoldable pub memcmp : (ℕ → ℕ) → ℕ → (ℕ → ℕ) → ℕ → ℕ → Comparison
memcmp src from dst to zero = same
memcmp src from dst to (suc n) =
    let rest = memcmp src (from + 1) dst (to + 1) n in
    if ltb (src from) (dst to) then less else if ltb (dst to) (src from) then more else rest
