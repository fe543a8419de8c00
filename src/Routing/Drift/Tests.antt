-- ===== src/Routing/Drift/Tests.antt =====
-- A detection at a concrete input: of three routes one is stale, one is right by name only, and one is
-- missing.
use appx_forge.Base.{◌≡◌, refl, none, some, List, [], ◌∷◌, ok, find, is_some, if◌then◌else◌}
use appx_forge.Base.Dict.{lookup}
use appx_forge.Models.{running}
use appx_forge.Store.{Sandbox}
use appx_forge.TestData.{sandbox_at, node_one}
use appx_forge.Routing.{Route}
use appx_forge.Routing.Drift.{DriftOutside, pg_map, detect}
use appx_forge.Routing.Drift.Repair.{is_named, apply_calls, or_else, wanted, detect-find}

abbrev old_routes : List Route
old_routes =
    record { app_name = "gone"; sandbox_id = "3"; upstream = "100.64.0.1:30003" }
    ∷ record { app_name = "shop"; sandbox_id = "7"; upstream = "100.64.0.9:30009" }
    ∷ []

abbrev rows : List Sandbox
rows = sandbox_at running 0 ∷ record (sandbox_at running 0) { id = 8; app_name = "blog" } ∷ []

abbrev outside : DriftOutside
outside = record {
  list_routes = some old_routes;
  list_running = ok rows;
  get_node = λ id. ok node_one;
  show_uuid = λ n. "8";
  show_port = λ p. "30000";
}

detect-find_example : find (is_named "shop") (apply_calls (detect outside) old_routes) ≡ (
    if is_some (lookup "shop" (pg_map [] rows))
    then or_else
        (find (is_named "shop") old_routes)
        (wanted outside "shop" (lookup "shop" (pg_map [] rows)))
    else none)
detect-find_example = detect-find outside old_routes rows "shop" refl refl
