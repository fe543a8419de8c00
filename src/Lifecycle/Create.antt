-- ===== src/Lifecycle/Create.antt =====
-- CreateSandbox of control/internal/lifecycle/lifecycle.go.
use Prim.Native.String.{◌++◌ as str_append}
use appx_forge.Base.{
  on_result, on_option, ℕ, Option, none, some, List, String, Result, if◌then◌else◌, ◌||◌, map,
}
use appx_forge.Base.Int.{ℤ, pos, is_zero}
use appx_forge.Models.{
  SandboxState, pending, starting, destroyed, failed, scheduled, start_sandbox, event_name,
  state_eq,
}
use appx_forge.Store.{Sandbox, Node, Resources, start_payload, DbErr}
use appx_forge.Store.Sandboxes.{
  get_sandbox_by_app_name, delete_sandbox, create_sandbox_row, assign_sandbox_to_node,
}
use appx_forge.Store.Commands.{create_command}
use appx_forge.Store.Nodes.{list_healthy_nodes}
use appx_forge.Store.Call.{M, attempt, query, fresh_uuid, ask, ◌>>=◌, ◌>>◌, pure, fail}
use appx_forge.Scheduler.{NodeCandidate, schedule}
use appx_forge.Lifecycle.{Err, conflict, no_capacity, wrapped, is_no_rows, record_quietly, skip}

pub record CreateRequest : Type 0 where
  pub app_name : String
  pub user_id : String
  pub image : String
  pub resources : Resources
  pub env : List (String × String)
  pub idle_timeout_seconds : ℤ
  -- the object as JSON, if there is one
  pub metadata : Option String

pub record SandboxResult : Type 0 where
  pub id : ℕ
  pub app_name : String
  pub user_id : String
  pub state : SandboxState
  pub url : String
  pub node_id : ℕ
  pub image : String

abbrev or_default : ℤ → ℤ → ℤ
or_default d v = if is_zero v then d else v

-- Destroyed and failed rows make way for a new sandbox of the name; any other row is a conflict.
unfoldable pub recycle : Result DbErr Sandbox → M Err (Unit {0})
recycle found =
    on_result found
      (λ existing.
        if state_eq existing.state destroyed || state_eq existing.state failed
        then query (wrapped "recycle destroyed sandbox") (delete_sandbox existing.id)
        else fail conflict)
      (λ e. if is_no_rows e then skip else fail (wrapped "lookup existing sandbox" e))

-- `strings.Contains(err.Error(), "unique") || strings.Contains(err.Error(), "duplicate")`.
unfoldable pub insert_failed : DbErr → M Err (Unit {0})
insert_failed e = do
  message ← ask (λ env. env.message)
  contains ← ask (λ env. env.contains)
  if contains (message e) "unique" || contains (message e) "duplicate"
      then fail conflict
      else fail (wrapped "create sandbox" e)

unfoldable pub to_candidate : Node → NodeCandidate
to_candidate n = record {
  id = n.id;
  capacity_mb = n.capacity_mb;
  used_mb = n.used_mb;
  status = n.status;
}

-- From the choice of the node to the command that starts the container there.
unfoldable pub place : CreateRequest → ℕ → ℕ → M Err SandboxResult
place req id node_id = do
  assigned ← query (wrapped "assign sandbox to node") (assign_sandbox_to_node node_id none none id)
  cmd_id ← fresh_uuid
  query (wrapped "create start command") (
      create_command (record {
        id = cmd_id;
        node_id = some node_id;
        sandbox_id = some id;
        command_type = start_sandbox;
        payload = start_payload req.app_name req.image req.resources req.env;
        timeout_seconds = 60;
      }))
  record_quietly (record {
    sandbox_id = some id;
    node_id = some node_id;
    event_type = event_name scheduled;
    actor = "control-plane";
    prev_state = some pending;
    next_state = some starting;
    payload = start_payload req.app_name req.image req.resources req.env;
  })
  pure (record {
    id = id;
    app_name = assigned.app_name;
    user_id = assigned.user_id;
    state = assigned.state;
    url = str_append "https://" (str_append req.app_name ".myappx.live");
    node_id = node_id;
    image = req.image;
  })

-- The row as inserted: an idle timeout of 0 is 1800 s, and no metadata is the empty object.
unfoldable pub insert_row : CreateRequest → ℕ → M Err (Unit {0})
insert_row req id = do
  encode_resources ← ask (λ env. env.encode_resources)
  encode_env ← ask (λ env. env.encode_env)
  created ← attempt (
      create_sandbox_row (record {
        id = id;
        app_name = req.app_name;
        user_id = req.user_id;
        image = req.image;
        resources = encode_resources req.resources;
        env = encode_env req.env;
        idle_timeout_seconds = or_default (pos 1800) req.idle_timeout_seconds;
        metadata = on_option req.metadata (λ m. m) "{}";
      }))
  on_result created (λ _. skip) insert_failed

unfoldable pub create_sandbox : CreateRequest → M Err SandboxResult
create_sandbox req = do
  id ← fresh_uuid
  found ← attempt (get_sandbox_by_app_name req.app_name)
  recycle found
  insert_row req id
  nodes ← query (wrapped "list healthy nodes") list_healthy_nodes
  on_result (schedule (map to_candidate nodes) (or_default (pos 512) req.resources.memory_mb))
      (place req id) (λ _. fail no_capacity)
