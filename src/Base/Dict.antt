-- ===== src/Base/Dict.antt =====
-- Go's maps with text keys (and sync.Map): load, store, delete. Where the program ranges over a
-- map, the model takes the entries in the order of the iteration.
use Prim.Native.String.{String}
use mathlib.Core.Path.{◌≡◌, refl}
use mathlib.Core.Option.{Option, none, some}
use mathlib.Core.List.{List, [], ◌∷◌}
use native.Mathlib.Omega.{arith}
use text.Mathlib.Text.{◌==◌}
use text.Mathlib.TextEquality.{eq_iff}
use multinic.Base.Tests.{if◌then◌else◌}

abbrev pub Dict {ℓ} : Type ℓ → Type ℓ
Dict V = List (String × V)

module _ {ℓ} {V : Type ℓ} where
  unfoldable pub load : String → Dict V → Option V
  load k [] = none
  load k ((j, v) ∷ m) = if j == k then some v else load k m

  unfoldable pub delete : String → Dict V → Dict V
  delete k [] = []
  delete k ((j, v) ∷ m) = let rest = delete k m in if j == k then rest else (j, v) ∷ rest

  unfoldable pub store : String → V → Dict V → Dict V
  store k v [] = (k, v) ∷ []
  store k v ((j, w) ∷ m) = if j == k then (k, v) ∷ m else (j, w) ∷ store k v m

  pub load-store :
      (k j : String) (v : V) (m : Dict V)
      → load j (store k v m) ≡ (if k == j then some v else load j m)
  unfolding load store
  load-store k j v [] = refl
  load-store k j v ((i, w) ∷ m) =
      ground (arith, eq_iff k j, eq_iff i k, eq_iff i j, load-store k j v m)

  pub load-delete :
      (k j : String) (m : Dict V) → load j (delete k m) ≡ (if k == j then none else load j m)
  unfolding load delete
  load-delete k j [] = ground arith
  load-delete k j ((i, w) ∷ m) =
      ground (arith, eq_iff k j, eq_iff i k, eq_iff i j, load-delete k j m)
