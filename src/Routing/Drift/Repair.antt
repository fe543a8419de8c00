-- ===== src/Routing/Drift/Repair.antt =====
-- What a detection leaves in the proxy, if each of its calls succeeds.
use appx_forge.Base.{
  ◌≡◌, refl, ap, ◌∙◌, Bool, true, not, ◌&&◌, ◌||◌, Bool-cases, Option-cases, inl, inr, Option, none,
  some, List, [], ◌∷◌, ◌++◌, String, str_eq, str_eq_iff, ok, is_some, on_option, on_result, find,
  any, arith, if◌then◌else◌,
}
use appx_forge.Base.Dict.{lookup, put, lookup-put, IsDistinct, put-IsDistinct}
use appx_forge.Store.{Sandbox}
use appx_forge.Store.Table.{delete, any-find}
use appx_forge.Routing.{Route}
use appx_forge.Routing.Drift.{
  ProxyCall, remove_route, add_route, DriftOutside, caddy_map, pg_map, stale_routes, route_for,
  missing_routes, detect,
}

abbrev pub is_named : String → Route → Bool
is_named app_name r = str_eq app_name r.app_name

-- The proxy's routes after a call that succeeds.
abbrev pub apply_call : ProxyCall → List Route → List Route
apply_call (remove_route app_name) rs = delete (is_named app_name) rs
apply_call (add_route r) rs = rs ++ r ∷ []

abbrev pub apply_calls : List ProxyCall → List Route → List Route
apply_calls [] rs = rs
apply_calls (c ∷ cs) rs = apply_calls cs (apply_call c rs)

abbrev pub or_else {ℓ} : {A : Type ℓ} → Option A → Option A → Option A
or_else (some a) o = some a
or_else none o = o

apply-append :
    (cs ds : List ProxyCall) (rs : List Route)
    → apply_calls (cs ++ ds) rs ≡ apply_calls ds (apply_calls cs rs)
apply-append [] ds rs = refl
apply-append (c ∷ cs) ds rs = apply-append cs ds (apply_call c rs)

find-delete_named :
    (q k : String) (rs : List Route)
    → find (is_named q) (delete (is_named k) rs)
      ≡ (if str_eq q k then none else find (is_named q) rs)
unfolding delete
find-delete_named q k [] = ground arith
find-delete_named q k (r ∷ rs) = ground (
  arith,
  find-delete_named q k rs,
  str_eq_iff q k,
  str_eq_iff q r.app_name,
  str_eq_iff k r.app_name,
)

find-add :
    (q : String) (rs : List Route) (r : Route)
    → find (is_named q) (rs ++ r ∷ [])
      ≡ or_else (find (is_named q) rs) (if is_named q r then some r else none)
find-add q [] r = refl
find-add q (x ∷ rs) r = ground (arith, find-add q rs r)

same_lookup :
    {V : Type 0} (q k : String) (m : List (String × V))
    → str_eq q k ≡ true
    → lookup q m ≡ lookup k m
same_lookup q k m h = ap (λ z. lookup z m) ((str_eq_iff q k).0 h)

stale-find :
    (pg : List (String × Sandbox)) (es : List (String × Route)) (rs : List Route) (q : String)
    → find (is_named q) (apply_calls (stale_routes pg es) rs) ≡ (
        if is_some (lookup q es) && not (is_some (lookup q pg)) then none else find (is_named q) rs)
unfolding stale_routes lookup
stale-find pg [] rs q = refl
stale-find pg ((k, r) ∷ es) rs q = elim (Bool-cases (is_some (lookup k pg))) [
  | inl e ↦ rw e (ground (arith, stale-find pg es rs q, same_lookup q k pg, e))
  | inr e ↦ rw e (
      ground (
        arith,
        stale-find pg es (delete (is_named k) rs) q,
        find-delete_named q k rs,
        same_lookup q k pg,
        e,
      ))
]

-- What the detection would have for a name that the proxy does not know.
abbrev pub wanted : DriftOutside → String → Option Sandbox → Option Route
wanted out q none = none
wanted out q (some sb) = route_for out q sb

route_for-named :
    (out : DriftOutside) (k : String) (sb : Sandbox) (r : Route)
    → route_for out k sb ≡ some r
    → r.app_name ≡ k
unfolding route_for
route_for-named out k sb r h = ground (arith, h)

same_route :
    (out : DriftOutside) (q k : String) (sb : Sandbox)
    → str_eq q k ≡ true
    → route_for out q sb ≡ route_for out k sb
same_route out q k sb h = ap (λ z. route_for out z sb) ((str_eq_iff q k).0 h)

missing-find :
    (out : DriftOutside) (caddy : List (String × Route)) (es : List (String × Sandbox))
    (rs : List Route) (q : String)
    → IsDistinct es
    → find (is_named q) (apply_calls (missing_routes out caddy es) rs)
      ≡ or_else
          (find (is_named q) rs)
          (if is_some (lookup q caddy) then none else wanted out q (lookup q es))
unfolding missing_routes lookup
missing-find out caddy [] rs q d = ground arith
missing-find out caddy ((k, sb) ∷ es) rs q (fresh, d) =
    elim (Bool-cases (is_some (lookup k caddy))) [
      | inl e ↦ rw e (ground (arith, missing-find out caddy es rs q d, same_lookup q k caddy, e))
      | inr e ↦ elim (Option-cases (route_for out k sb)) [
        | inl absent ↦
            rw (e, absent)
              (ground (
                arith,
                missing-find out caddy es rs q d,
                same_lookup q k es,
                same_route out q k sb,
                fresh,
                absent,
              ))
        | inr (r, made) ↦
            rw (e, made)
              (ground (
                arith,
                missing-find out caddy es (rs ++ r ∷ []) q d,
                find-add q rs r,
                same_lookup q k es,
                same_lookup q k caddy,
                same_route out q k sb,
                fresh,
                made,
                e,
                route_for-named out k sb r made,
                ap (str_eq q) (route_for-named out k sb r made),
              ))
      ]
    ]

caddy_map-has :
    (m : List (String × Route)) (rs : List Route) (q : String)
    → is_some (lookup q (caddy_map m rs)) ≡ is_some (lookup q m) || any (is_named q) rs
unfolding caddy_map
caddy_map-has m [] q = ground arith
caddy_map-has m (r ∷ rs) q =
    ground (arith, caddy_map-has (put r.app_name r m) rs q, lookup-put q r.app_name r m)

pg_map-IsDistinct :
    (m : List (String × Sandbox)) (rows : List Sandbox) → IsDistinct m → IsDistinct (pg_map m rows)
unfolding pg_map
pg_map-IsDistinct m [] d = d
pg_map-IsDistinct m (sb ∷ rest) d =
    pg_map-IsDistinct (put sb.app_name sb m) rest (put-IsDistinct sb.app_name sb m d)

-- Both phases together, by whether the proxy and the database know the name.
settle :
    (f : Option Route) (s : Option Sandbox) (c : Bool) (out : DriftOutside) (q : String)
    → c ≡ is_some f
    → or_else (if c && not (is_some s) then none else f) (if c then none else wanted out q s)
      ≡ (if is_some s then or_else f (wanted out q s) else none)
settle (some r) (some sb) c out q h = rw h refl
settle (some r) none c out q h = rw h refl
settle none (some sb) c out q h = rw h refl
settle none none c out q h = rw h refl

answered : DriftOutside → List Route → List Sandbox → List ProxyCall
answered out routes rows =
    stale_routes (pg_map [] rows) (caddy_map [] routes)
    ++ missing_routes out (caddy_map [] routes) (pg_map [] rows)

detect-answered :
    (out : DriftOutside) (routes : List Route) (rows : List Sandbox)
    → out.list_routes ≡ some routes
    → out.list_running ≡ ok rows
    → detect out ≡ answered out routes rows
unfolding detect answered
detect-answered out routes rows listed ran =
    ap (λ o. on_option o (λ rs. on_result out.list_running (answered out rs) (λ e. [])) []) listed
    ∙ ap (λ z. on_result z (answered out routes) (λ e. [])) ran

-- If the proxy and the database answer and every call of the detection succeeds, then afterwards the
-- proxy has, under each name: no route, if no running sandbox has the name; otherwise the route that
-- it had, whatever that route's upstream is; and if it had none, the route to the sandbox's node and
-- port, where the node can be read and both are known. Of several running rows with one name the
-- last counts.
pub detect-find :
    (out : DriftOutside) (routes : List Route) (rows : List Sandbox) (q : String)
    → out.list_routes ≡ some routes
    → out.list_running ≡ ok rows
    → find (is_named q) (apply_calls (detect out) routes) ≡ (
        if is_some (lookup q (pg_map [] rows))
        then or_else (find (is_named q) routes) (wanted out q (lookup q (pg_map [] rows)))
        else none)
unfolding answered lookup
detect-find out routes rows q listed ran =
    ap (λ cs. find (is_named q) (apply_calls cs routes))
      (detect-answered out routes rows listed ran)
    ∙ ap (find (is_named q))
        (apply-append (stale_routes pg caddy) (missing_routes out caddy pg) routes)
    ∙ missing-find out caddy pg (apply_calls (stale_routes pg caddy) routes) q
        (pg_map-IsDistinct [] rows tt)
    ∙ ap (λ f. or_else f (if is_some (lookup q caddy) then none else wanted out q (lookup q pg)))
        (stale-find pg caddy routes q)
    ∙ settle (find (is_named q) routes) (lookup q pg) (is_some (lookup q caddy)) out q
        (caddy_map-has [] routes q ∙ any-find (is_named q) routes)
  where
    caddy : List (String × Route)
    caddy = caddy_map [] routes

    pg : List (String × Sandbox)
    pg = pg_map [] rows
