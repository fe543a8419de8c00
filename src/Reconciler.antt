-- ===== src/Reconciler.antt =====
-- control/internal/scheduler: heartbeat_reconciler.go, which brings the rows of a node in line with the
-- containers that its agent reports, and sandbox_freshness.go, which asks the agent before it answers
-- from a row that was not verified lately.
mod Tests
pub mod Revival
pub mod Fate
pub mod Asking
use appx_forge.Base.{
  ℕ, ◌+◌, ◌*◌, Bool, true, false, ◌&&◌, ◌||◌, not, List, [], ◌∷◌, String, Result, ok, err, str_eq,
  ltb, any, on_result, if◌then◌else◌,
}
use appx_forge.Base.Int.{ℤ}
use appx_forge.Store.{Sandbox, DbErr, second}
use appx_forge.Store.Sandboxes.{
  list_sandboxes_for_node, mark_sandbox_verified, mark_sandbox_agent_lost, mark_sandbox_destroyed,
  get_sandbox_by_app_name,
}
use appx_forge.Store.Call.{M, attempt, query, pure, fail, ◌>>=◌, ◌>>◌}

pub record ContainerInfo : Type 0 where
  pub app_name : String
  pub state : String
  pub host_port : ℤ
  pub container_id : String

abbrev pub reconciler_grace_window : ℕ
reconciler_grace_window = 60 * second

-- A failed statement is logged only.
unfoldable pub verify_each : List ContainerInfo → M DbErr (Unit {0})
verify_each [] = pure tt
verify_each (c ∷ cs) = do attempt (mark_sandbox_verified c.app_name c.state); verify_each cs

abbrev pub reported : List ContainerInfo → String → Bool
reported containers name = any (λ c. str_eq c.app_name name) containers

-- `add_reason` is the merge of the reason into the metadata, `now` the process's clock.
unfoldable pub lose_each :
    (String → String → String) → ℕ → ℕ → List ContainerInfo → List Sandbox → M DbErr (Unit {0})
lose_each add_reason now node containers [] = pure tt
lose_each add_reason now node containers (row ∷ rows) =
    let rest = lose_each add_reason now node containers rows in
    if reported containers row.app_name || ltb now (row.created_at + reconciler_grace_window)
    then rest
    else attempt (mark_sandbox_agent_lost add_reason row.app_name node) >>= λ _. rest

unfoldable pub reconcile :
    (String → String → String) → ℕ → ℕ → List ContainerInfo → M DbErr (Unit {0})
reconcile add_reason now node containers = do
  rows ← query (λ e. e) (list_sandboxes_for_node node)
  verify_each containers
  lose_each add_reason now node containers rows

-- The agent's answer: an error, or whether the container exists and in which state.
pub data AgentAnswer : Type 0 where
  unreachable : AgentAnswer
  missing : AgentAnswer
  exists_in : String → AgentAnswer

pub data FreshnessErr : Type 0 where
  sandbox_not_found : FreshnessErr
  store_failed : DbErr → FreshnessErr

-- What the agent's answer does; `later` is the time of the return.
unfoldable pub take_answer :
    (String → String → String) → ℕ → String → Sandbox → AgentAnswer → M FreshnessErr (Sandbox × ℕ)
take_answer add_reason later name row unreachable = pure (row, row.verified_at)
take_answer add_reason later name row missing = do
  attempt (mark_sandbox_destroyed add_reason name "agent_lost_at_freshness_check")
  fail sandbox_not_found
take_answer add_reason later name row (exists_in state) = do
  attempt (mark_sandbox_verified name state)
  pure (row, later)

-- The interface AgentClient: it is asked about a name.
abbrev pub AgentClient : Type 0
AgentClient = String → M FreshnessErr AgentAnswer

-- `time.Since(verifiedAt) > s.freshness`, and then the agent is asked.
unfoldable pub get_fresh_sandbox :
    (String → String → String)
    → ℕ
    → ℕ
    → ℕ
    → AgentClient
    → String
    → Bool
    → M FreshnessErr (Sandbox × ℕ)
get_fresh_sandbox add_reason freshness now later agent name force_refresh = do
  row ← query store_failed (get_sandbox_by_app_name name)
  if not (ltb (row.verified_at + freshness) now) && not force_refresh
      then pure (row, row.verified_at)
      else (agent name >>= λ answer. take_answer add_reason later name row answer)
