-- ===== src/Routing/Buffer.antt =====
-- The batcher's buffer, entry by entry.
use appx_forge.Base.{
  ◌≡◌, refl, Bool, true, false, Bool-cases, Option, none, some, List, [], ◌∷◌, String, str_eq,
  str_eq_iff, any, find, arith, inl, inr,
}
use appx_forge.Base.Dict.{lookup, drop, put, lookup-drop}
use appx_forge.Routing.{Route, add, remove, RouteChange, Batch, collect, key_of}

-- Every entry stands under its own application, which has no other entry.
abbrev pub IsFiled : List (String × RouteChange) → Type 0
IsFiled [] = Unit
IsFiled ((key, change) ∷ rest) = (key ≡ key_of change) × (lookup key rest ≡ none) × IsFiled rest

pub drop-IsFiled : (id : String) (m : List (String × RouteChange)) → IsFiled m → IsFiled (drop id m)
unfolding drop
drop-IsFiled id [] h = tt
drop-IsFiled id ((key, change) ∷ rest) (k, n, h) = elim (Bool-cases (str_eq id key)) [
  | inl e ↦ rw e (drop-IsFiled id rest h)
  | inr e ↦ rw e (k, ground (arith, lookup-drop key id rest), drop-IsFiled id rest h)
]

pub put-IsFiled :
    (change : RouteChange) (m : List (String × RouteChange))
    → IsFiled m
    → IsFiled (put (key_of change) change m)
unfolding put
put-IsFiled change m h = (
  refl,
  ground (
    arith,
    lookup-drop (key_of change) (key_of change) m,
    str_eq_iff (key_of change) (key_of change),
  ),
  drop-IsFiled (key_of change) m h,
)

-- What a batch does about an application.
abbrev pub added : String → Batch → Option Route
added app batch = find (λ r. str_eq app r.app_name) batch.adds

abbrev pub removed : String → Batch → Bool
removed app batch = any (λ name. str_eq app name) batch.removes

abbrev pub route_of : Option RouteChange → Option Route
route_of none = none
route_of (some change) = elim change.action [ add ↦ some change.route | remove ↦ none ]

abbrev pub is_removal : Option RouteChange → Bool
is_removal none = false
is_removal (some change) = elim change.action [ add ↦ false | remove ↦ true ]

pub added-collect :
    (app : String) (m : List (String × RouteChange))
    → IsFiled m
    → added app (collect m) ≡ route_of (lookup app m)
unfolding collect lookup
added-collect app [] h = refl
added-collect app ((key, change) ∷ rest) (k, n, h) =
    ground (arith, added-collect app rest h, k, n, str_eq_iff app key)

pub removed-collect :
    (app : String) (m : List (String × RouteChange))
    → IsFiled m
    → removed app (collect m) ≡ is_removal (lookup app m)
unfolding collect lookup
removed-collect app [] h = refl
removed-collect app ((key, change) ∷ rest) (k, n, h) =
    ground (arith, removed-collect app rest h, k, n, str_eq_iff app key)
