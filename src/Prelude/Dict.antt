-- ===== src/Prelude/Dict.antt =====
-- Go maps with string keys that the program never ranges over: an association list whose first
-- entry for a key is the current one, so that an assignment puts an entry in front.
use Prim.Native.String.{String}
use mathlib.Core.Path.{◌≡◌}
use mathlib.Core.Logic.{◌≢◌}
use mathlib.Core.Option.{Option, none, some}
use mathlib.Core.List.{List, [], ◌∷◌}
use native.Mathlib.Omega.{arith}
use text.Mathlib.Text.{◌==◌}
use text.Mathlib.TextEquality.{eq_iff}
use text.Mathlib.TextPositions.{eq_refl}
use policy_decision_service.Prelude.Tests.{if◌then◌else◌}

abbrev pub Dict {ℓ} : Type ℓ → Type ℓ
Dict V = List (String × V)

module _ {ℓ} {V : Type ℓ} where
  -- `value, ok := m[key]`
  abbrev pub lookup : String → Dict V → Option V
  lookup k [] = none
  lookup k ((j, v) ∷ m) = if j == k then some v else lookup k m

  -- `m[key]` with the zero value for a missing key
  abbrev pub get_or : String → Dict V → V → V
  get_or k [] d = d
  get_or k ((j, v) ∷ m) d = if j == k then v else get_or k m d

  pub lookup-cons_self : (k : String) (v : V) (m : Dict V) → lookup k ((k, v) ∷ m) ≡ some v
  lookup-cons_self k v m = rw (eq_refl k)

  pub lookup-cons_ne :
      (k j : String) (v : V) (m : Dict V) → j ≢ k → lookup k ((j, v) ∷ m) ≡ lookup k m
  lookup-cons_ne k j v m h = ground (arith, eq_iff j k)
