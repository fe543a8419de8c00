-- ===== src/Api/Sandboxes.antt =====
-- control/internal/api/sandboxes.go: the requests of clients for sandboxes, over a lifecycle service that
-- is configured.
pub mod Refusals
pub mod Reading
pub mod Oldest
mod Tests
use appx_forge.Base.{
  ℕ, Bool, true, false, not, ◌&&◌, Option, none, some, List, [], ◌∷◌, String, str_append, str_eq,
  Result, ok, err, ltb, map, on_result, on_option, if◌then◌else◌,
}
use appx_forge.Base.Int.{ℤ, pos, ltb_ℤ}
use appx_forge.Models.{SandboxState}
use appx_forge.Store.{Sandbox, Resources, DbErr}
use appx_forge.Store.Sandboxes.{get_sandbox, get_sandbox_by_app_name}
use appx_forge.Store.Listing.{
  list_sandboxes, list_sandboxes_by_state, list_sandboxes_by_node, list_sandboxes_by_user,
}
use appx_forge.Store.Call.{M, pure, fail, attempt, catch, query, ◌>>=◌, ◌>>◌}
use appx_forge.Lifecycle.{Err}
use appx_forge.Lifecycle.Create.{CreateRequest, SandboxResult, create_sandbox}
use appx_forge.Lifecycle.Requests.{destroy_sandbox, wake_sandbox, restart_running}
use appx_forge.Reconciler.{
  AgentAnswer, FreshnessErr, sandbox_not_found, store_failed, get_fresh_sandbox,
}
use appx_forge.Api.{
  Handler, ProblemDetail, bad_request, not_found, conflict, service_unavailable, internal_error,
  reject_if, require,
}

pub record ResourcesRequest : Type 0 where
  pub cpu_cores : ℕ
  pub memory_mb : ℤ

pub record CreateSandboxRequest : Type 0 where
  pub app_name : String
  pub user_id : String
  pub image : String
  pub resources : Option ResourcesRequest
  pub env : List (String × String)
  pub idle_timeout_seconds : Option ℤ
  pub metadata : Option String

pub record SandboxResponse : Type 0 where
  pub id : ℕ
  pub app_name : String
  pub user_id : String
  pub node_id : Option ℕ
  pub container_id : Option String
  pub image : String
  pub state : SandboxState
  pub url : String
  pub resources : String
  pub host_port : Option ℤ
  pub created_at : String
  pub updated_at : String
  pub last_active_at : String
  pub failure_count : ℕ
  pub metadata : String
  pub verified_at : String

-- Time.Format with the handlers' layout, and with RFC3339; MatchString of the pattern for names; the
-- comparison of a float64, given by its bits, with 0.
pub record SandboxOutside : Type 0 where
  pub show_time : ℕ → String
  pub rfc3339 : ℕ → String
  pub app_name_matches : String → Bool
  pub is_positive : ℕ → Bool

abbrev url_of : String → String
url_of app_name = str_append "https://" (str_append app_name ".myappx.live")

unfoldable pub sandbox_to_response : SandboxOutside → Sandbox → SandboxResponse
sandbox_to_response out s = record {
  id = s.id;
  app_name = s.app_name;
  user_id = s.user_id;
  node_id = s.node_id;
  container_id = s.container_id;
  image = s.image;
  state = s.state;
  url = url_of s.app_name;
  resources = s.resources;
  host_port = s.host_port;
  created_at = out.show_time s.created_at;
  updated_at = out.show_time s.updated_at;
  last_active_at = out.show_time s.last_active_at;
  failure_count = s.failure_count;
  metadata = s.metadata;
  verified_at = out.rfc3339 s.verified_at;
}

unfoldable pub sandbox_result_to_response : SandboxResult → SandboxResponse
sandbox_result_to_response r = record {
  id = r.id;
  app_name = r.app_name;
  user_id = r.user_id;
  node_id = some r.node_id;
  container_id = none;
  image = r.image;
  state = r.state;
  url = r.url;
  resources = "";
  host_port = none;
  created_at = "";
  updated_at = "";
  last_active_at = "";
  failure_count = 0;
  metadata = "";
  verified_at = "";
}

-- 0.5, by its bits, and 512.
abbrev default_resources : Resources
default_resources = record { cpu_cores = 4602678819172646912; memory_mb = pos 512 }

unfoldable pub resources_of : SandboxOutside → Option ResourcesRequest → Resources
resources_of out none = default_resources
resources_of out (some r) = record {
  cpu_cores = if out.is_positive r.cpu_cores then r.cpu_cores else default_resources.cpu_cores;
  memory_mb = if ltb_ℤ (pos 0) r.memory_mb then r.memory_mb else default_resources.memory_mb;
}

unfoldable pub check_create : SandboxOutside → CreateSandboxRequest → Handler (Unit {0})
check_create out req = do
  reject_if (str_eq req.app_name "") (bad_request "app_name is required")
  reject_if (not (out.app_name_matches req.app_name))
      (bad_request "app_name must match pattern ^[a-z0-9][a-z0-9-]{1,62}$")
  reject_if (str_eq req.user_id "") (bad_request "user_id is required")
  reject_if (str_eq req.image "") (bad_request "image is required")

unfoldable pub create_problem : Err → ProblemDetail
create_problem Err.conflict = conflict "app_name already exists"
create_problem Err.no_capacity = service_unavailable "no nodes available with sufficient capacity"
create_problem e = internal_error "failed to create sandbox"

unfoldable pub handle_create_sandbox :
    SandboxOutside → Option CreateSandboxRequest → Handler (ℕ × SandboxResponse)
handle_create_sandbox out body = do
  req ← require body (bad_request "invalid JSON body")
  check_create out req
  made ← catch (
      create_sandbox (record {
        app_name = req.app_name;
        user_id = req.user_id;
        image = req.image;
        resources = resources_of out req.resources;
        env = req.env;
        idle_timeout_seconds = on_option req.idle_timeout_seconds (λ s. s) (pos 1800);
        metadata = req.metadata;
      }))
  on_result made (λ r. pure (201, sandbox_result_to_response r)) (λ e. fail (create_problem e))

abbrev invalid_sandbox_id : ProblemDetail
invalid_sandbox_id = bad_request "invalid sandbox ID: must be a valid UUID"

-- `errors.Is(err, lifecycle.ErrNotFound)` is a 404, any other error a 500.
unfoldable pub problem_of : String → Err → ProblemDetail
problem_of detail Err.not_found = not_found "sandbox not found"
problem_of detail e = internal_error detail

-- A wake also tells a wrong state, with the error's text.
unfoldable pub wake_problem : String → Err → ProblemDetail
wake_problem text Err.invalid_state = conflict text
wake_problem text e = problem_of "failed to wake sandbox" e

abbrev accepted : Result Err (Unit {0}) → (Err → ProblemDetail) → Handler ℕ
accepted r problem = on_result r (λ _. pure 202) (λ e. fail (problem e))

unfoldable pub handle_destroy_sandbox : Option ℕ → Handler ℕ
handle_destroy_sandbox id = do
  sandbox ← require id invalid_sandbox_id
  done ← catch (destroy_sandbox sandbox)
  accepted done (problem_of "failed to destroy sandbox")

unfoldable pub handle_restart_sandbox : Option ℕ → Handler ℕ
handle_restart_sandbox id = do
  sandbox ← require id invalid_sandbox_id
  done ← catch (restart_running sandbox)
  accepted done (problem_of "failed to restart sandbox")

-- `error_text` is `err.Error()`.
unfoldable pub handle_wake_sandbox : String → Option ℕ → Handler ℕ
handle_wake_sandbox error_text id = do
  sandbox ← require id invalid_sandbox_id
  done ← catch (wake_sandbox sandbox)
  accepted done (wake_problem error_text)
