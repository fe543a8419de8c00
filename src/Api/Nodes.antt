-- ===== src/Api/Nodes.antt =====
-- control/internal/api/nodes.go: registration, heartbeats, draining and removal of nodes, over the
-- adapter of control/cmd/forge-control/main.go.
pub mod Registration
pub mod Draining
mod Tests
use appx_forge.Base.{
  ℕ, Bool, true, false, ◌&&◌, Option, none, some, List, String, str_eq, Result, ok, err, ltb, map,
  if◌then◌else◌, on_result, on_option,
}
use appx_forge.Base.Int.{ℤ, pos, is_zero}
use appx_forge.Models.{NodeStatus, draining, removed}
use appx_forge.Store.{Node, DbErr}
use appx_forge.Store.Nodes.{
  CreateNodeParams, create_node, update_node_token, get_node, get_node_by_hostname_and_ip,
  update_node_heartbeat, update_node_status, count_active_sandboxes_by_node, list_nodes,
}
use appx_forge.Store.Call.{M, pure, fail, attempt, catch, query, fresh_uuid, ◌>>=◌, ◌>>◌}
use appx_forge.Lifecycle.{is_no_rows}
use appx_forge.Reconciler.{ContainerInfo, reconcile}
use appx_forge.Api.{
  Handler, ProblemDetail, bad_request, not_found, conflict, internal_error, reject_if, require,
}

-- A capacity in cores is the text of the number that the adapter's float64ToNumeric makes of it.
pub record RegisterRequest : Type 0 where
  pub hostname : String
  pub tailscale_ip : String
  pub agent_listen_port : ℤ
  pub capacity_mb : ℤ
  pub capacity_cpu : String
  pub agent_version : String
  pub metadata : Option String

pub record RegisterResponse : Type 0 where
  pub node_id : ℕ
  pub agent_token : String
  pub heartbeat_interval_seconds : ℕ

-- The adapter's CreateNode: the token is written by a second statement.
unfoldable pub create_node_record : CreateNodeParams → String → M DbErr (Unit {0})
create_node_record arg agent_token = do
  query (λ e. e) (create_node arg)
  if str_eq agent_token ""
      then pure tt
      else query (λ e. e) (update_node_token agent_token arg.agent_version arg.id)

-- `netip.ParseAddr`, with the address as the text it prints, and what crypto/rand gave.
pub record RegisterOutside : Type 0 where
  pub parse_addr : String → Option String
  pub token : Option String

unfoldable pub re_register : String → String → ℕ → ℕ → Handler (ℕ × RegisterResponse)
re_register token agent_version interval node_id = do
  query (λ e. internal_error "failed to update node token")
      (update_node_token token agent_version node_id)
  pure (
    201,
    record { node_id = node_id; agent_token = token; heartbeat_interval_seconds = interval },
  )

unfoldable pub register_new : RegisterRequest → String → String → ℕ → Handler (ℕ × RegisterResponse)
register_new req ip token interval = do
  new_id ← fresh_uuid
  created ← catch (
      create_node_record
        (record {
          id = new_id;
          hostname = req.hostname;
          tailscale_ip = ip;
          agent_listen_port =
              if is_zero req.agent_listen_port then pos 8090 else req.agent_listen_port;
          capacity_mb = req.capacity_mb;
          capacity_cpu = req.capacity_cpu;
          agent_version = req.agent_version;
          metadata = on_option req.metadata (λ m. m) "{}";
        })
        token)
  on_result created (λ _. pure tt) (λ _. fail (internal_error "failed to create node"))
  pure
      (201, record { node_id = new_id; agent_token = token; heartbeat_interval_seconds = interval })

unfoldable pub check_register : RegisterRequest → Handler (Unit {0})
check_register req = do
  reject_if (str_eq req.hostname "") (bad_request "hostname is required")
  reject_if (str_eq req.tailscale_ip "") (bad_request "tailscale_ip is required")
  reject_if (is_zero req.capacity_mb) (bad_request "capacity_mb is required")
  reject_if (str_eq req.agent_version "") (bad_request "agent_version is required")

-- A node that is known under the host name and the address keeps its identifier.
unfoldable pub register_found :
    RegisterRequest → String → String → ℕ → Result DbErr Node → Handler (ℕ × RegisterResponse)
register_found req ip token interval (ok n) = re_register token req.agent_version interval n.id
register_found req ip token interval (err e) =
    if is_no_rows e
    then register_new req ip token interval
    else fail (internal_error "failed to check existing node")

unfoldable pub handle_register_node :
    RegisterOutside → ℕ → Option RegisterRequest → Handler (ℕ × RegisterResponse)
handle_register_node out interval body = do
  req ← require body (bad_request "invalid JSON body")
  check_register req
  ip ←
      require (out.parse_addr req.tailscale_ip)
        (bad_request "tailscale_ip must be a valid IP address")
  token ← require out.token (internal_error "failed to generate agent token")
  existing ← attempt (get_node_by_hostname_and_ip req.hostname ip)
  register_found req ip token interval existing

-- A missing row is a 404, any other error a 500.
unfoldable pub require_node : ℕ → Handler (Unit {0})
require_node node_id = do
  found ← attempt (get_node node_id)
  on_result found (λ _. pure tt)
      (λ e.
        fail (
          if is_no_rows e then not_found "node not found" else internal_error "failed to get node"))

-- `containers` is none for an agent that does not send the list.
pub record HeartbeatRequest : Type 0 where
  pub used_mb : ℤ
  pub running_containers : ℤ
  pub containers : Option (List ContainerInfo)

abbrev invalid_node_id : ProblemDetail
invalid_node_id = bad_request "invalid node ID: must be a valid UUID"

-- The reconciler's error is logged only; `add_reason` and `now` are the reconciler's.
unfoldable pub reconcile_report :
    (String → String → String) → ℕ → ℕ → Bool → Option (List ContainerInfo) → Handler (Unit {0})
reconcile_report add_reason now node_id wired none = pure tt
reconcile_report add_reason now node_id false (some cs) = pure tt
reconcile_report add_reason now node_id true (some cs) =
    catch (reconcile add_reason now node_id cs) >>= λ _. pure tt

unfoldable pub handle_heartbeat :
    (String → String → String) → ℕ → Bool → Option ℕ → Option HeartbeatRequest → Handler ℕ
handle_heartbeat add_reason now wired id body = do
  node_id ← require id invalid_node_id
  req ← require body (bad_request "invalid JSON body")
  require_node node_id
  query (λ e. internal_error "failed to update heartbeat")
      (update_node_heartbeat node_id req.used_mb req.running_containers)
  reconcile_report add_reason now node_id wired req.containers
  pure 200

-- The answer for a node, which leaves out the agent's token; `show_time` is Time.Format.
pub record NodeResponse : Type 0 where
  pub id : ℕ
  pub hostname : String
  pub tailscale_ip : String
  pub capacity_mb : ℤ
  pub used_mb : ℤ
  pub status : NodeStatus
  pub running_sandboxes : ℤ
  pub agent_version : String
  pub last_seen_at : String
  pub registered_at : String

unfoldable pub store_node_to_response : (ℕ → String) → Node → NodeResponse
store_node_to_response show_time n = record {
  id = n.id;
  hostname = n.hostname;
  tailscale_ip = n.tailscale_ip;
  capacity_mb = n.capacity_mb;
  used_mb = n.used_mb;
  status = n.status;
  running_sandboxes = n.running_containers;
  agent_version = n.agent_version;
  last_seen_at = show_time n.last_seen_at;
  registered_at = show_time n.registered_at;
}

unfoldable pub handle_list_nodes : (ℕ → String) → Handler (ℕ × List NodeResponse)
handle_list_nodes show_time = do
  nodes ← query (λ e. internal_error "failed to list nodes") list_nodes
  pure (200, map (store_node_to_response show_time) nodes)

unfoldable pub handle_drain_node : Option ℕ → Handler ℕ
handle_drain_node id = do
  node_id ← require id invalid_node_id
  require_node node_id
  query (λ e. internal_error "failed to drain node") (update_node_status node_id draining)
  pure 200

unfoldable pub handle_remove_node : Option ℕ → Handler ℕ
handle_remove_node id = do
  node_id ← require id invalid_node_id
  require_node node_id
  count ←
      query (λ e. internal_error "failed to count sandboxes")
        (count_active_sandboxes_by_node node_id)
  reject_if (ltb 0 count) (conflict "node has active sandboxes; drain first")
  query (λ e. internal_error "failed to remove node") (update_node_status node_id removed)
  pure 200
