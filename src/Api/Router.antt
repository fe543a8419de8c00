-- ===== src/Api/Router.antt =====
-- control/internal/api/routes.go: which handler a request reaches, and behind which check. A path is its
-- segments after /v1; the middlewares for identifiers, panics and time limits are left out.
use appx_forge.Base.{
  Bool, true, false, ◌&&◌, Option, none, some, List, [], ◌∷◌, String, str_eq, on_option,
  if◌then◌else◌,
}
use appx_forge.Api.{Handler}
use appx_forge.Api.Access.{bearer_auth}

pub data Method : Type 0 where
  get post delete : Method

-- The routes, with what the path's parameters are.
pub data ApiRoute : Type 0 where
  to_healthz to_metrics to_register_node : ApiRoute
  to_list_nodes to_create_sandbox to_list_sandboxes to_list_routes to_list_events : ApiRoute
  to_heartbeat to_drain_node to_remove_node : String → ApiRoute
  to_get_sandbox to_destroy_sandbox to_restart_sandbox to_wake_sandbox : String → ApiRoute
  to_file_push to_get_logs to_poll_commands to_report_event : String → ApiRoute
  to_ack_command : String → String → ApiRoute

-- The group without a check.
unfoldable pub public_route : Method → List String → Option ApiRoute
public_route get (a ∷ []) =
    if str_eq a "healthz"
    then some to_healthz
    else if str_eq a "metrics"
    then some to_metrics
    else none
public_route post (a ∷ b ∷ []) =
    if str_eq a "nodes" && str_eq b "register" then some to_register_node else none
public_route _ _ = none

unfoldable pub sandbox_route : Method → String → String → Option ApiRoute
sandbox_route post id a =
    if str_eq a "restart"
    then some (to_restart_sandbox id)
    else if str_eq a "wake"
    then some (to_wake_sandbox id)
    else if str_eq a "files"
    then some (to_file_push id)
    else none
sandbox_route get id a = if str_eq a "logs" then some (to_get_logs id) else none
sandbox_route delete id a = none

unfoldable pub node_route : Method → String → String → Option ApiRoute
node_route post id a =
    if str_eq a "heartbeat"
    then some (to_heartbeat id)
    else if str_eq a "drain"
    then some (to_drain_node id)
    else none
node_route _ id a = none

unfoldable pub agent_endpoint : Method → String → String → Option ApiRoute
agent_endpoint get id a = if str_eq a "commands" then some (to_poll_commands id) else none
agent_endpoint post id a = if str_eq a "events" then some (to_report_event id) else none
agent_endpoint delete id a = none

-- The group behind the check of the token.
unfoldable pub guarded_route : Method → List String → Option ApiRoute
guarded_route get (a ∷ []) =
    if str_eq a "nodes"
    then some to_list_nodes
    else if str_eq a "sandboxes"
    then some to_list_sandboxes
    else if str_eq a "routes"
    then some to_list_routes
    else if str_eq a "events"
    then some to_list_events
    else none
guarded_route post (a ∷ []) = if str_eq a "sandboxes" then some to_create_sandbox else none
guarded_route get (a ∷ id ∷ []) = if str_eq a "sandboxes" then some (to_get_sandbox id) else none
guarded_route delete (a ∷ id ∷ []) =
    if str_eq a "nodes"
    then some (to_remove_node id)
    else if str_eq a "sandboxes"
    then some (to_destroy_sandbox id)
    else none
guarded_route method (a ∷ id ∷ b ∷ []) =
    if str_eq a "nodes"
    then node_route method id b
    else if str_eq a "sandboxes"
    then sandbox_route method id b
    else if str_eq a "agents"
    then agent_endpoint method id b
    else none
guarded_route post (a ∷ id ∷ b ∷ cmd ∷ c ∷ []) =
    if str_eq a "agents" && str_eq b "commands" && str_eq c "ack"
    then some (to_ack_command id cmd)
    else none
guarded_route _ _ = none

-- The check of the token is the middleware's of the group; `missing` is the router's own answer, where
-- no route matches. Without a token there is no guarded group, so none of its routes.
unfoldable pub dispatch :
    {A : Type 0}
    → (token auth : String) → (ApiRoute → Handler A)
    → Handler A
    → Method
    → List String
    → Handler A
dispatch token auth handlers missing method path = on_option (public_route method path) handlers (
    if str_eq token ""
    then missing
    else on_option (guarded_route method path) (λ r. bearer_auth token auth (handlers r)) missing)

unfoldable pub is_public : ApiRoute → Bool
is_public to_healthz = true
is_public to_metrics = true
is_public to_register_node = true
is_public _ = false
