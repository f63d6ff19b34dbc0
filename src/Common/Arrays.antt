-- ===== src/Common/Arrays.antt =====
-- Fixed-size C arrays, as functions of the index.
use Prim.Native.Nat.{ℕ}
use mungi.Common.Tests.{◌==◌, if◌then◌else◌}

abbrev pub Array : Type 0 → Type 0
Array A = ℕ → A

unfoldable pub update : {A : Type 0} → Array A → ℕ → A → Array A
update f i v j = if j == i then v else f j
