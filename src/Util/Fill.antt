-- ===== src/Util/Fill.antt =====
-- `memset` fills the bytes that it is given and no other.
use ten_os.Util.{memset, memset_from}
use ten_os.Prelude.{ℕ, zero, suc, ◌+◌, ◌≡◌, ◌&&◌, ltb, leb, if◌then◌else◌, update, arith}

pub memset_from_lem :
    (n at : ℕ) (mem : ℕ → ℕ) (v j : ℕ)
    → memset_from at mem v n j ≡ (if leb at j && ltb j (at + n) then v else mem j)
unfolding memset_from
memset_from_lem zero at mem v j = ground arith
memset_from_lem (suc n) at mem v j =
    ground (arith, memset_from_lem n (at + 1) (update mem at v) v j)

pub memset_lem : (mem : ℕ → ℕ) (v n j : ℕ) → memset mem v n j ≡ (if ltb j n then v else mem j)
unfolding memset
memset_lem mem v n j = ground (arith, memset_from_lem n 0 mem v j)
