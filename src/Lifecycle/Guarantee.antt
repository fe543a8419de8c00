-- ===== src/Lifecycle/Guarantee.antt =====
-- The handlers' statements, whatever the rest of the system does meanwhile: which changes of state a
-- handler asks for, and the interface through which a preorder on databases is carried across all
-- of them.
use appx_forge.Base.{
  ℕ, ◌≡◌, refl, sym, subst, Bool, true, false, Option, none, some, String, Result, arith, inl, inr,
  List, [], ◌∷◌,
}
use appx_forge.Base.Int.{ℤ}
use appx_forge.Models.{
  SandboxState, SandboxEvent, pending, starting, running, restarting, stopped, destroying,
  destroyed, failed, scheduled, restart_attempt, idle_timeout, node_failed, destroy_requested,
  next_state, state_eq, CommandStatus, CommandType,
}
use appx_forge.Models.Machine.{state_eq_iff}
use appx_forge.Store.{Sandbox, Node, Db, DbErr, Query}
pub mod Handlers
pub mod Placement
use appx_forge.Store.Sandboxes.{
  one, get_sandbox, transition_sandbox_state, assign_sandbox_to_node, update_sandbox_runtime,
  increment_sandbox_failure_count, reset_sandbox_failure_count, list_idle_sandboxes,
  list_running_sandboxes_by_node,
}
use appx_forge.Store.Commands.{
  CreateCommandParams, RecordEventParams, create_command, ack_command, record_event,
}
use appx_forge.Store.Nodes.{one_node, get_node, list_healthy_nodes}
use appx_forge.Store.Call.{Env, M, RuntimeInfo}
use appx_forge.Store.Rely.{
  IsRely, Keeps, Respects, Keeps-pure, Keeps-fail, Keeps-bind, Keeps-attempt, Keeps-catch,
  Keeps-on_result, Keeps-on_option, Keeps-if, Keeps-query, Keeps-fresh_uuid, Keeps-ask,
  Keeps-notify,
}
use appx_forge.Lifecycle.{Err, LifecycleService, skip, record_quietly}
use appx_forge.Lifecycle.Restart.{exhaust, retry, backoff, handle_crash, handle_restarted}
use appx_forge.Lifecycle.Routes.{
  notify_route_add, notify_route_remove, persist_info, persist_runtime_info,
}
use appx_forge.Lifecycle.Ack.{
  settle_race, advance, refresh, notify_ack, reset_failures, apply_ack, handle_ack, ack_event,
}
use appx_forge.Lifecycle.Events.{
  drop_route, delegate_crash, apply_event, handle_event, container_event,
}
use appx_forge.Lifecycle.Requests.{
  begin_destroy, destroy_sandbox, wake_payload, begin_wake, wake_sandbox, request_restart,
  restart_running,
}
use appx_forge.Lifecycle.Reschedule.{
  give_up, move_to, detach, reschedule_sandbox, RescheduleResult, tally, reschedule_each,
  reschedule_node,
}
use appx_forge.Lifecycle.Reaper.{reap_one, one_more, reap_each, reap}

-- A change of state that a handler may ask for: an entry of the table, the end of the restarts, or
-- the end of a rescheduling that found no node.
pub data Move : SandboxState → SandboxState → Type 0 where
  by_table : (s t : SandboxState) (e : SandboxEvent) → next_state s e ≡ some t → Move s t
  exhausted : Move running failed
  unplaced : Move pending failed

-- The statements of the handlers respect the preorder.
pub record Permits (R : Db → Db → Type 0) : Type 0 where
  pub move :
      (from to : SandboxState) (id : ℕ)
      → Move from to
      → Respects R (transition_sandbox_state to id from)
  pub assign : (node id : ℕ) → Respects R (assign_sandbox_to_node node none none id)
  pub runtime :
      (c : Option String) (p : Option ℤ) (id : ℕ) → Respects R (update_sandbox_runtime c p id)
  pub bump : (id : ℕ) → Respects R (increment_sandbox_failure_count id)
  pub reset : (id : ℕ) → Respects R (reset_sandbox_failure_count id)
  pub command : (a : CreateCommandParams) → Respects R (create_command a)
  pub ack : (id : ℕ) (s : CommandStatus) (r : Option String) → Respects R (ack_command id s r)
  pub event : (a : RecordEventParams) → Respects R (record_event a)

pub to_restarting :
    (s : SandboxState) (e : SandboxEvent) → next_state s e ≡ some restarting → s ≡ running
unfolding next_state
to_restarting s e h = ground arith

one_reads : (o : Option Sandbox) (db : Db) → (one o db db).1 ≡ db
one_reads none db = refl
one_reads (some r) db = refl

one_node_reads : (o : Option Node) (db : Db) → (one_node o db).1 ≡ db
one_node_reads none db = refl
one_node_reads (some n) db = refl

-- Statements that only read.
module _ {R : Db → Db → Type 0} {env : Env} (rely : IsRely R env) where
  pub reads_sandbox : (id : ℕ) → Respects R (get_sandbox id)
  unfolding get_sandbox
  reads_sandbox id db = subst (R db) (sym (one_reads _ db)) (rely.stays db)

  pub reads_node : (id : ℕ) → Respects R (get_node id)
  unfolding get_node
  reads_node id db = subst (R db) (sym (one_node_reads _ db)) (rely.stays db)

  pub reads_healthy : Respects R list_healthy_nodes
  unfolding list_healthy_nodes
  reads_healthy db = rely.stays db

  pub reads_idle : Respects R list_idle_sandboxes
  unfolding list_idle_sandboxes
  reads_idle db = rely.stays db

  pub reads_running : (node : ℕ) → Respects R (list_running_sandboxes_by_node node)
  unfolding list_running_sandboxes_by_node
  reads_running node db = rely.stays db

-- The rules by which a handler is followed, statement by statement.
pub ruleset keep_rules = (
  Keeps-pure, Keeps-fail, Keeps-bind, Keeps-attempt, Keeps-catch, Keeps-on_result, Keeps-on_option,
  Keeps-if, Keeps-query, Keeps-fresh_uuid, Keeps-ask, Keeps-notify, reads_sandbox, reads_node,
  reads_healthy, reads_idle, reads_running,
)
