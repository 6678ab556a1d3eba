-- ===== src/Prelude/Dict.antt =====
-- Python's `dict` with string keys, in the order of insertion: a write to a key that is there keeps
-- its place.
use ho_h.Prelude.Tests.{◌==◌, if◌then◌else◌, Bool-cases, eq_of_==}
use mathlib.Core.Logic.{◌⊎◌, inl, inr}
use mathlib.Core.Bool.{false}
use ho_h.Prelude.Text.{string_eq}
use Prim.Native.String.{String}
use mathlib.Core.Path.{◌≡◌, refl}
use mathlib.Core.Option.{Option, none, some}
use mathlib.Core.List.{List, [], ◌∷◌}
use native.Mathlib.Omega.{arith}

abbrev pub Dict {ℓ} : Type ℓ → Type ℓ
Dict V = List (String × V)

module _ {ℓ} {V : Type ℓ} where
  -- `d.get(key)`
  unfoldable pub lookup : String → Dict V → Option V
  lookup key [] = none
  lookup key ((k, v) ∷ d) = if k == key then some v else lookup key d

  -- `d[key] = value`
  unfoldable pub put : String → V → Dict V → Dict V
  put key value [] = (key, value) ∷ []
  put key value ((k, v) ∷ d) = if k == key then (k, value) ∷ d else (k, v) ∷ put key value d

  pub lookup-put :
      (key j : String) (v : V) (d : Dict V)
      → lookup j (put key v d) ≡ (if key == j then some v else lookup j d)
  unfolding lookup put
  lookup-put key j v [] = refl
  lookup-put key j v ((k, w) ∷ d) = ground (arith, lookup-put key j v d)

  -- what stands at a key after a write: the value written, or what stood there before
  pub put-cases :
      (key j : String) (v u : V) (d : Dict V)
      → lookup j (put key v d) ≡ some u
      → ((key ≡ j) × (v ≡ u)) ⊎ ((key == j ≡ false) × (lookup j d ≡ some u))
  put-cases key j v u d found = elim (Bool-cases (key == j)) [
    | inl same ↦ inl (eq_of_== key j same, ground (arith, lookup-put key j v d, found, same))
    | inr differ ↦ inr (differ, ground (arith, lookup-put key j v d, found, differ))
  ]
