-- ===== src/Prelude/Texts.antt =====
-- Texts: the library's, with the test of equality and the append under names of their own.
use Prim.Native.String.{String}
use mathlib.Core.Path.{◌≡◌}
use mathlib.Core.Logic.{◌⊎◌, ◌≢◌}
use mathlib.Core.Bool.{true, false}
use native.Mathlib.Omega.{arith}
use text.Mathlib.Text.{◌==◌}
use text.Mathlib.TextEquality.{eq_iff}
pub use Prim.Native.String.{◌++◌ as concat}
pub use text.Mathlib.Text.{◌==◌ as str_eq}
pub use text.Mathlib.TextEquality.{eq_iff}
pub use text.Mathlib.TextPositions.{eq_refl}

pub str_eq-of_ne : (s t : String) → s ≢ t → (s == t) ≡ false
str_eq-of_ne s t h = ground (arith, eq_iff s t)

-- Two texts are equal or not, with the value of the test.
pub String-cases : (s t : String) → ((s ≡ t) × ((s == t) ≡ true)) ⊎ ((s ≢ t) × ((s == t) ≡ false))
String-cases s t = ground (arith, eq_iff s t)
