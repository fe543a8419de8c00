-- ===== src/Routing/Caddy.antt =====
-- control/internal/routing/caddy.go: the client of the proxy's admin interface. What the proxy replies to
-- the n-th request is an argument; the JSON of a route is its fields.
use text.Mathlib.Text.{starts_with}
use text.Mathlib.TextPositions.{starts_with-append}
use mathlib.Core.List.{append-nil, append_assoc}
use appx_forge.Base.{
  ℕ, ◌≡◌, refl, sym, ap, ◌∙◌, ◌||◌, Option, none, some, List, [], ◌∷◌, ◌++◌, map, String,
  str_append, str_eq, Result, ok, err, ◌==◌, length, trim_prefix, trim_prefix-append, if◌then◌else◌,
}
use appx_forge.Routing.{Route}

pub record CaddyHandle : Type 0 where
  pub handler : String
  pub upstreams : List String
  pub protocol : String
  pub set_headers : List (String × List String)

-- `hosts` are the hosts of each match. The decoder fills all but the protocol and the headers.
pub record CaddyRoute : Type 0 where
  pub id : String
  pub hosts : List (List String)
  pub handle : List CaddyHandle

unfoldable pub build_route_json : Route → CaddyRoute
build_route_json r = record {
  id = str_append "route-" r.app_name;
  hosts = (str_append r.app_name ".myappx.live" ∷ []) ∷ [];
  handle =
      record {
        handler = "reverse_proxy";
        upstreams = r.upstream ∷ [];
        protocol = "http";
        set_headers =
            ("X-Forwarded-Host", "{http.request.host}" ∷ [])
            ∷ ("X-Sandbox-ID", r.sandbox_id ∷ [])
            ∷ [];
      }
      ∷ [];
}

-- The first upstream of the first handler.
unfoldable pub first_dial : List CaddyHandle → String
first_dial [] = ""
first_dial (h ∷ hs) = elim h.upstreams [ [] ↦ "" | dial ∷ _ ↦ dial ]

unfoldable pub parse_route : CaddyRoute → Route
parse_route p = record {
  app_name = if starts_with p.id "route-" then trim_prefix p.id "route-" else "";
  sandbox_id = "";
  upstream = first_dial p.handle;
}

pub data CaddyRequest : Type 0 where
  post_route : CaddyRoute → CaddyRequest
  delete_id : String → CaddyRequest
  get_routes : CaddyRequest

-- No response, or a status and what the decoder makes of the body as a list of routes.
pub data CaddyReply : Type 0 where
  unanswered : CaddyReply
  answered : ℕ → Option (List CaddyRoute) → CaddyReply

pub data CaddyErr : Type 0 where
  not_reached : CaddyErr
  bad_status : ℕ → CaddyErr
  bad_body : CaddyErr

unfoldable pub add_result : CaddyReply → Option CaddyErr
add_result unanswered = some not_reached
add_result (answered status body) = if status == 200 then none else some (bad_status status)

-- A route that is not there counts as removed.
unfoldable pub remove_result : CaddyReply → Option CaddyErr
remove_result unanswered = some not_reached
remove_result (answered status body) =
    if status == 200 || status == 404 then none else some (bad_status status)

unfoldable pub keep_named : List CaddyRoute → List Route
keep_named [] = []
keep_named (p ∷ ps) =
    let rest = keep_named ps in
    let route = parse_route p in if str_eq route.app_name "" then rest else route ∷ rest

unfoldable pub list_routes : CaddyReply → Result CaddyErr (List Route)
list_routes unanswered = err not_reached
list_routes (answered status body) =
    if status == 200
    then elim body [ some routes ↦ ok (keep_named routes) | none ↦ err bad_body ]
    else err (bad_status status)

module _ (reply : ℕ → CaddyReply) where
  -- What was requested, and the errors with the name that they are about.
  abbrev Log : Type 0
  Log = List CaddyRequest × List (String × CaddyErr)

  abbrev note : String → Option CaddyErr → List (String × CaddyErr) → List (String × CaddyErr)
  note app_name none errs = errs
  note app_name (some e) errs = errs ++ (app_name, e) ∷ []

  unfoldable pub add_all : List Route → Log → Log
  add_all [] log = log
  add_all (r ∷ rs) (requests, errs) = add_all rs (
    requests ++ post_route (build_route_json r) ∷ [],
    note r.app_name (add_result (reply (length requests))) errs,
  )

  unfoldable pub remove_all : List String → Log → Log
  remove_all [] log = log
  remove_all (app_name ∷ names) (requests, errs) = remove_all names (
    requests ++ delete_id (str_append "route-" app_name) ∷ [],
    note app_name (remove_result (reply (length requests))) errs,
  )

  -- The errors that are joined.
  unfoldable pub apply : List Route → List String → Log
  apply adds removes = remove_all removes (add_all adds ([], []))

-- A route that was added is listed under its name and upstream, but without its sandbox.
parse_route-build_route_json :
    (r : Route) → parse_route (build_route_json r) ≡ record r { sandbox_id = "" }
unfolding parse_route build_route_json first_dial
parse_route-build_route_json r =
    rw (starts_with-append "route-" r.app_name, trim_prefix-append "route-" r.app_name) refl

module _ (reply : ℕ → CaddyReply) where
  add_all-requests :
      (adds : List Route) (requests : List CaddyRequest) (errs : List (String × CaddyErr))
      → (add_all reply adds (requests, errs)).0
        ≡ requests ++ map (λ r. post_route (build_route_json r)) adds
  unfolding add_all
  add_all-requests [] requests errs = sym (append-nil requests)
  add_all-requests (r ∷ rs) requests errs =
      add_all-requests rs _ _ ∙ append_assoc requests (post_route (build_route_json r) ∷ []) _

  remove_all-requests :
      (names : List String) (requests : List CaddyRequest) (errs : List (String × CaddyErr))
      → (remove_all reply names (requests, errs)).0
        ≡ requests ++ map (λ name. delete_id (str_append "route-" name)) names
  unfolding remove_all
  remove_all-requests [] requests errs = sym (append-nil requests)
  remove_all-requests (name ∷ names) requests errs =
      remove_all-requests names _ _
      ∙ append_assoc requests (delete_id (str_append "route-" name) ∷ []) _

  -- A batch is requested whole and in order, whatever the proxy replies on the way.
  pub apply-requests :
      (adds : List Route) (removes : List String)
      → (apply reply adds removes).0
        ≡ map (λ r. post_route (build_route_json r)) adds
          ++ map (λ name. delete_id (str_append "route-" name)) removes
  unfolding apply
  apply-requests adds removes =
      remove_all-requests removes (add_all reply adds ([], [])).0 _
      ∙ ap (λ l. l ++ map (λ name. delete_id (str_append "route-" name)) removes)
          (add_all-requests adds [] [])
