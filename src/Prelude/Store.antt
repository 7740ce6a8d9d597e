-- ===== src/Prelude/Store.antt =====
-- Memory behind a pointer, as a function from the index to the cell. The memory goes on past any
-- object in it, so an index beyond the object reads and writes what lies there.
use Prim.Native.Nat.{ℕ}
use ten_os.Prelude.Tests.{◌==◌, if◌then◌else◌}

module _ {ℓ} {A : Type ℓ} where
  abbrev pub update : (ℕ → A) → ℕ → A → ℕ → A
  update f i v j = if i == j then v else f j
