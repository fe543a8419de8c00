-- ===== src/Api/Logs.antt =====
-- control/internal/api/logs.go: the proxy of a sandbox's logs, and the agent's router in
-- agent/internal/agent/agent.go, which the proxied request meets.
use appx_forge.Base.{
  ℕ, Bool, false, ◌&&◌, Option, none, some, List, [], ◌∷◌, ◌++◌, String, str_append, str_eq,
  on_option, ◌≡◌, refl, ap, find, ok, if◌then◌else◌,
}
use appx_forge.Base.Int.{ℤ}
use appx_forge.Store.Sandboxes.{get_sandbox, has_id, one}
use appx_forge.Store.Nodes.{get_node, node_has_id, one_node}
use appx_forge.Store.Call.{query, ◌>>=◌, ◌>>◌}
use appx_forge.Store.Call.{Env, World}
use appx_forge.Store.{Sandbox, Node}
use appx_forge.Store.Quiet.{IsQuiet, Runs, Runs-bind, Runs-pure, Runs-query, after_call}
use appx_forge.Api.Checks.{Runs-require}
use appx_forge.Api.{
  Handler, ProblemDetail, write_problem, bad_request, not_found, service_unavailable,
  internal_error, reject_if, require,
}

-- A request to an agent: the address, the path's segments and the query's parameters.
pub record AgentRequest : Type 0 where
  pub address : String
  pub port : ℤ
  pub path : List String
  pub params : List String

abbrev bad_gateway : String → ProblemDetail
bad_gateway = write_problem 502 "urn:forge:error:bad-gateway" "Bad Gateway"

-- A parameter that is absent is the empty text.
unfoldable pub log_params : String → String → List String
log_params tail follow =
    (if str_eq tail "" then [] else str_append "tail=" tail ∷ [])
    ++ (if str_eq follow "" then [] else str_append "follow=" follow ∷ [])

-- `is_name` is whether the path's identifier starts with "app:", `id` what the UUID parser makes of it,
-- `show_id` the text of a UUID. The agent's answer is a status and a body, or none.
unfoldable pub handle_get_logs :
    (ℕ → String)
    → (AgentRequest → Option (ℕ × String))
    → Bool
    → Option ℕ
    → String
    → String
    → Handler (ℕ × String)
handle_get_logs show_id ask is_name id tail follow = do
  reject_if is_name (bad_request "log endpoint requires sandbox UUID, not app:{name}")
  pg_id ← require id (bad_request "invalid sandbox ID: must be a valid UUID")
  sandbox ← query (λ e. not_found "sandbox not found") (get_sandbox pg_id)
  node_id ← require sandbox.node_id (service_unavailable "sandbox not assigned to a node")
  node ← query (λ e. internal_error "failed to resolve sandbox node") (get_node node_id)
  require
      (ask (record {
        address = node.tailscale_ip;
        port = node.agent_listen_port;
        path = "sandboxes" ∷ show_id pg_id ∷ "logs" ∷ [];
        params = log_params tail follow;
      }))
      (bad_gateway "failed to reach agent")

-- The routes of the agent's ServeMux, as patterns of a method and a path.
pub data AgentRoute : Type 0 where
  healthz : AgentRoute
  push_files : String → AgentRoute
  container_exists : String → AgentRoute

unfoldable pub agent_route : String → List String → Option AgentRoute
agent_route method (a ∷ []) =
    if str_eq method "GET" && str_eq a "healthz" then some healthz else none
agent_route method (a ∷ b ∷ c ∷ []) =
    if str_eq method "GET" && str_eq a "v1" && str_eq b "containers"
    then some (container_exists c)
    else none
agent_route method (a ∷ b ∷ c ∷ d ∷ []) =
    if str_eq method "POST" && str_eq a "v1" && str_eq b "sandboxes" && str_eq d "files"
    then some (push_files c)
    else none
agent_route method _ = none

-- What the mux answers to a GET: its own 404 where no pattern fits, else what the route's handler does.
abbrev pub mux_get : (AgentRoute → ℕ × String) → AgentRequest → Option (ℕ × String)
mux_get serve req = some (on_option (agent_route "GET" req.path) serve (404, "404 page not found"))

-- In an undisturbed run the logs of a sandbox on a known node are answered with the agent's 404: no
-- route of the agent takes the proxied request.
pub logs-unrouted :
    {env : Env}
    → IsQuiet env
    → (show_id : ℕ → String) (serve : AgentRoute → ℕ × String) (id node_id : ℕ)
      (tail follow : String) (w : World) (r : Sandbox) (n : Node)
    → find (has_id id) w.db.sandboxes ≡ some r
    → r.node_id ≡ some node_id
    → find (node_has_id node_id) w.db.nodes ≡ some n
    → (w' : World) × Runs env
        (handle_get_logs show_id (mux_get serve) false (some id) tail follow)
        w
        (ok (404, "404 page not found"))
        w'
      × (w'.db ≡ w.db)
unfolding handle_get_logs agent_route get_sandbox get_node
logs-unrouted quiet show_id serve id node_id tail follow w r n found placed known =
    let w1 : World = after_call w w.db in
    (
      after_call w1 w.db,
      Runs-bind _ (Runs-pure tt w) (
          Runs-bind _ (Runs-pure id w) (
            Runs-bind _ (Runs-query quiet _ _ w (ap (λ o. one o w.db w.db) found)) (
              Runs-bind _ (Runs-require _ w1 placed) (
                Runs-bind _ (Runs-query quiet _ _ w1 (ap (λ o. one_node o w.db) known))
                  (Runs-pure _ _))))),
      refl,
    )
