-- ===== src/Base/Dict.antt =====
-- Dictionaries keyed by texts, as Go's `map[string]V`: a list of entries.
use mathlib.Core.Path.{◌≡◌}
use mathlib.Core.Logic.{◌≢◌, ◌⊎◌, inl, inr}
use mathlib.Core.Option.{Option, none, some}
use mathlib.Core.List.{List, [], ◌∷◌}
use Prim.Native.String.{String}
use native.Mathlib.Omega.{arith}
use appx_forge.Base.Tests.{str_eq, str_eq_iff, if◌then◌else◌, Bool-cases}

module _ {V : Type 0} where
  -- `m[id]`.
  unfoldable pub lookup : String → List (String × V) → Option V
  lookup id [] = none
  lookup id ((key, info) ∷ rest) = if str_eq id key then some info else lookup id rest

  -- `delete(m, id)`.
  unfoldable pub drop : String → List (String × V) → List (String × V)
  drop id [] = []
  drop id ((key, info) ∷ rest) =
      let others = drop id rest in if str_eq id key then others else (key, info) ∷ others

  -- `m[id] = info`.
  unfoldable pub put : String → V → List (String × V) → List (String × V)
  put id info m = (id, info) ∷ drop id m

  pub lookup-drop :
      (q id : String) (m : List (String × V))
      → lookup q (drop id m) ≡ (if str_eq q id then none else lookup q m)
  unfolding lookup drop
  lookup-drop q id [] = ground arith
  lookup-drop q id ((key, info) ∷ rest) =
      ground (arith, lookup-drop q id rest, str_eq_iff q id, str_eq_iff id key, str_eq_iff q key)

  pub lookup-put :
      (q id : String) (info : V) (m : List (String × V))
      → lookup q (put id info m) ≡ (if str_eq q id then some info else lookup q m)
  unfolding lookup put
  lookup-put q id info m = ground (arith, lookup-drop q id m)

  -- Where an entry of the changed map comes from.
  pub lookup-put_cases :
      (q id : String) (new info : V) (m : List (String × V))
      → lookup q (put id new m) ≡ some info
      → ((q ≡ id) × (info ≡ new)) ⊎ ((q ≢ id) × (lookup q m ≡ some info))
  lookup-put_cases q id new info m h = elim (Bool-cases (str_eq q id)) [
    | inl e ↦ inl ((str_eq_iff q id).0 e, ground (arith, lookup-put q id new m))
    | inr e ↦
        inr ((λ k. ground (arith, (str_eq_iff q id).1 k)), ground (arith, lookup-put q id new m))
  ]

  pub lookup-drop-some :
      (q id : String) (info : V) (m : List (String × V))
      → lookup q (drop id m) ≡ some info
      → (q ≢ id) × (lookup q m ≡ some info)
  lookup-drop-some q id info m h = (
    (λ k. ground (arith, lookup-drop q id m, (str_eq_iff q id).1 k)),
    ground (arith, lookup-drop q id m),
  )

  -- No key stands twice.
  abbrev pub IsDistinct : List (String × V) → Type 0
  IsDistinct [] = Unit
  IsDistinct ((key, info) ∷ rest) = (lookup key rest ≡ none) × IsDistinct rest

  pub drop-IsDistinct :
      (id : String) (m : List (String × V)) → IsDistinct m → IsDistinct (drop id m)
  unfolding drop
  drop-IsDistinct id [] h = tt
  drop-IsDistinct id ((key, info) ∷ rest) (fresh, h) = elim (Bool-cases (str_eq id key)) [
    | inl e ↦ rw e (drop-IsDistinct id rest h)
    | inr e ↦ rw e (ground (arith, lookup-drop key id rest, fresh), drop-IsDistinct id rest h)
  ]

  pub put-IsDistinct :
      (id : String) (info : V) (m : List (String × V)) → IsDistinct m → IsDistinct (put id info m)
  unfolding put
  put-IsDistinct id info m h =
      (ground (arith, lookup-drop id id m, (str_eq_iff id id).1), drop-IsDistinct id m h)
