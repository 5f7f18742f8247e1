-- ===== src/Platform/Assoc.antt =====
-- Go maps with keys of type `string`, as association lists, and the laws of their operations.
use Prim.Native.String.{String}
use text.Mathlib.Text.{◌==◌ as str_eq}
use text.Mathlib.TextEquality.{eq_iff}
use loadgen.Base.{◌≡◌, if◌then◌else◌, List, [], ◌∷◌, Option, none, some, select, not, arith}

abbrev pub Assoc {ℓ} : Type ℓ → Type ℓ
Assoc V = List (String × V)

module _ {ℓ} {V : Type ℓ} where
  -- `m[k]`, with `ok`.
  abbrev pub lookup : String → Assoc V → Option V
  lookup k [] = none
  lookup k ((j, v) ∷ m) = if str_eq j k then some v else lookup k m

  -- `m[k] = v`.
  abbrev pub insert : String → V → Assoc V → Assoc V
  insert k v [] = (k, v) ∷ []
  insert k v ((j, u) ∷ m) = if str_eq j k then (j, v) ∷ m else (j, u) ∷ insert k v m

  -- `delete(m, k)`.
  abbrev pub remove : String → Assoc V → Assoc V
  remove k m = select (λ e. not (str_eq e.0 k)) m

  -- The values that a `range` meets, for the order in which this iteration meets the keys; a key that
  -- is not there is not met.
  abbrev pub met : List String → Assoc V → List V
  met [] m = []
  met (k ∷ ks) m = let rest = met ks m in elim (lookup k m) [ none ↦ rest | some v ↦ v ∷ rest ]

  pub lookup-insert :
      (j k : String) (v : V) (m : Assoc V)
      → lookup j (insert k v m) ≡ (if str_eq k j then some v else lookup j m)
  lookup-insert j k v [] = ground arith
  lookup-insert j k v ((i, u) ∷ m) =
      ground (arith, lookup-insert j k v m, eq_iff i k, eq_iff i j, eq_iff k j)

  pub lookup-remove :
      (j k : String) (m : Assoc V)
      → lookup j (remove k m) ≡ (if str_eq k j then none else lookup j m)
  lookup-remove j k [] = ground arith
  lookup-remove j k ((i, u) ∷ m) =
      ground (arith, lookup-remove j k m, eq_iff i k, eq_iff i j, eq_iff k j)
