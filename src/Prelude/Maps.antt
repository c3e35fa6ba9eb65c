-- ===== src/Prelude/Maps.antt =====
-- Go maps with string keys, as association lists. `lookup` and the two laws are all that a client
-- needs: the program never depends on the order of a map's entries, save where a module says so.
use mathlib.Core.Path.{◌≡◌, refl}
use mathlib.Core.Option.{Option, none, some}
use mathlib.Core.List.{List, [], ◌∷◌}
use native.Mathlib.Omega.{arith}
use external_crd.Prelude.Tests.{if◌then◌else◌}
use external_crd.Prelude.Text.{Text, str_eq}
use external_crd.Prelude.Text.Laws.{str_eq_iff}

abbrev pub Map {ℓ} : Type ℓ → Type ℓ
Map V = List (Text × V)

module _ {ℓ} {V : Type ℓ} where
  -- v, ok := m[k]
  unfoldable pub lookup : Text → Map V → Option V
  lookup k [] = none
  lookup k ((j, v) ∷ m) = if str_eq j k then some v else lookup k m

  -- m[k] = v
  unfoldable pub put : Text → V → Map V → Map V
  put k v [] = (k, v) ∷ []
  put k v ((j, w) ∷ m) = if str_eq j k then (k, v) ∷ m else (j, w) ∷ put k v m

  -- delete(m, k)
  unfoldable pub delete : Text → Map V → Map V
  delete k [] = []
  delete k ((j, w) ∷ m) = let rest = delete k m in if str_eq j k then rest else (j, w) ∷ rest

  -- for k, v := range src { dst[k] = v }
  unfoldable pub put_all : Map V → Map V → Map V
  put_all [] dst = dst
  put_all ((k, v) ∷ src) dst = put_all src (put k v dst)

  pub lookup-put :
      (k j : Text) (v : V) (m : Map V)
      → lookup j (put k v m) ≡ (if str_eq k j then some v else lookup j m)
  unfolding lookup put
  lookup-put k j v [] = refl
  lookup-put k j v ((i, w) ∷ m) =
      ground (arith, str_eq_iff k j, str_eq_iff i k, str_eq_iff i j, lookup-put k j v m)

  pub lookup-delete :
      (k j : Text) (m : Map V) → lookup j (delete k m) ≡ (if str_eq k j then none else lookup j m)
  unfolding lookup delete
  lookup-delete k j [] = ground arith
  lookup-delete k j ((i, w) ∷ m) =
      ground (arith, str_eq_iff k j, str_eq_iff i k, str_eq_iff i j, lookup-delete k j m)

  -- A key that the source lacks keeps its value.
  pub lookup-put_all_absent :
      (j : Text) (src dst : Map V) → lookup j src ≡ none → lookup j (put_all src dst) ≡ lookup j dst
  unfolding lookup put_all
  lookup-put_all_absent j [] dst h = refl
  lookup-put_all_absent j ((k, v) ∷ src) dst h =
      ground (arith, lookup-put_all_absent j src (put k v dst), lookup-put k j v dst)

pub ruleset map_laws = (lookup-put, lookup-delete)
