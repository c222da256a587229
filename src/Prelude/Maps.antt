-- ===== src/Prelude/Maps.antt =====
-- A Go map with text keys, as an association list that holds each key once.
use Prim.Native.String.{String}
use mathlib.Core.Path.{◌≡◌, refl}
use mathlib.Core.Option.{Option, none, some}
use mathlib.Core.List.{List, [], ◌∷◌}
use native.Mathlib.Omega.{arith}
use text.Mathlib.Text.{◌==◌}
use text.Mathlib.TextEquality.{eq_iff}
use ormus.Prelude.Tests.{if◌then◌else◌}

abbrev pub Table {ℓ} : Type ℓ → Type ℓ
Table V = List (String × V)

-- `none` is what the second result `ok` of an index expression tells.
unfoldable pub lookup {ℓ} : {V : Type ℓ} → String → Table V → Option V
lookup key [] = none
lookup key (entry ∷ entries) =
    let later = lookup key entries in if entry.0 == key then some entry.1 else later

-- An assignment to a key: it overwrites the entry of the key, or adds one at the end.
unfoldable pub insert {ℓ} : {V : Type ℓ} → String → V → Table V → Table V
insert key value [] = (key, value) ∷ []
insert key value (entry ∷ entries) =
    let later = insert key value entries in
    if entry.0 == key then (key, value) ∷ entries else entry ∷ later

pub lookup-insert {ℓ} :
    {V : Type ℓ} (key read : String) (value : V) (table : Table V)
    → lookup read (insert key value table) ≡ (if key == read then some value else lookup read table)
unfolding lookup insert
lookup-insert key read value [] = refl
lookup-insert key read value (entry ∷ entries) =
    let later = lookup-insert key read value entries in
    ground (arith, later, eq_iff key read, eq_iff entry.0 key, eq_iff entry.0 read)
