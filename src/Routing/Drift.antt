-- ===== src/Routing/Drift.antt =====
-- control/internal/routing/drift.go: one detection. What it asks of the proxy is a list of calls;
-- what the proxy and the database answered are arguments.
pub mod Repair
mod Tests
use appx_forge.Base.{
  ℕ, Bool, true, false, not, Option, none, some, List, [], ◌∷◌, ◌++◌, String, str_append, str_eq,
  Result, ok, err, is_some, on_result, on_option, if◌then◌else◌,
}
use appx_forge.Base.Dict.{lookup, put}
use appx_forge.Base.Int.{ℤ}
use appx_forge.Store.{Sandbox, Node, DbErr}
use appx_forge.Store.Table.{delete}
use appx_forge.Routing.{Route}

pub data ProxyCall : Type 0 where
  remove_route : String → ProxyCall
  add_route : Route → ProxyCall

-- ListRoutes, ListSandboxesByState("running") and GetNode, and the texts of a UUID and of a port.
pub record DriftOutside : Type 0 where
  pub list_routes : Option (List Route)
  pub list_running : Result DbErr (List Sandbox)
  pub get_node : ℕ → Result DbErr Node
  pub show_uuid : ℕ → String
  pub show_port : ℤ → String

-- `caddyMap` and `pgMap`.
unfoldable pub caddy_map : List (String × Route) → List Route → List (String × Route)
caddy_map m [] = m
caddy_map m (r ∷ rs) = caddy_map (put r.app_name r m) rs

unfoldable pub pg_map : List (String × Sandbox) → List Sandbox → List (String × Sandbox)
pg_map m [] = m
pg_map m (sb ∷ rest) = pg_map (put sb.app_name sb m) rest

unfoldable pub stale_routes : List (String × Sandbox) → List (String × Route) → List ProxyCall
stale_routes pg [] = []
stale_routes pg ((app_name, r) ∷ rest) =
    let others = stale_routes pg rest in
    if is_some (lookup app_name pg) then others else remove_route app_name ∷ others

-- The route of a running sandbox; none without a node, its row or a port.
unfoldable pub route_for : DriftOutside → String → Sandbox → Option Route
route_for out app_name sb =
    on_option sb.node_id
      (λ node_id.
        on_result (out.get_node node_id)
          (λ node.
            on_option sb.host_port
              (λ port. some (record {
                app_name = app_name;
                sandbox_id = out.show_uuid sb.id;
                upstream = str_append node.tailscale_ip (str_append ":" (out.show_port port));
              }))
              none)
          (λ e. none))
      none

unfoldable pub missing_routes :
    DriftOutside → List (String × Route) → List (String × Sandbox) → List ProxyCall
missing_routes out caddy [] = []
missing_routes out caddy ((app_name, sb) ∷ rest) =
    let others = missing_routes out caddy rest in
    if is_some (lookup app_name caddy)
    then others
    else on_option (route_for out app_name sb) (λ r. add_route r ∷ others) others

unfoldable pub detect : DriftOutside → List ProxyCall
detect out =
    on_option out.list_routes
      (λ routes.
        on_result out.list_running
          (λ sandboxes.
            let caddy = caddy_map [] routes in
            let pg = pg_map [] sandboxes in stale_routes pg caddy ++ missing_routes out caddy pg)
          (λ e. []))
      []
