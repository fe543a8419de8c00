-- ===== src/Lifecycle/Guarantee/Handlers.antt =====
-- What an agent reports, acknowledgments, events and crashes, respects a preorder that its statements and the rest of the system respect.
use appx_forge.Base.{ℕ, ◌≡◌, refl, sym, subst, ap, ◌∙◌, arith, ◌&&◌, Bool, true, some, String}
use appx_forge.Models.{
  SandboxState, CommandType, SandboxEvent, starting, running, restarting, destroyed, failed,
  started, restart_attempt, next_state, state_eq,
}
use appx_forge.Models.Machine.{state_eq_iff}
use appx_forge.Store.{Sandbox, Db, DbErr}
use appx_forge.Store.Commands.{RecordEventParams}
use appx_forge.Store.Call.{Env, RuntimeInfo}
use appx_forge.Store.Rely.{IsRely, Keeps, Keeps-pure, Keeps-bind, Keeps-catch, Keeps-if}
use appx_forge.Lifecycle.{LifecycleService, record_quietly}
use appx_forge.Lifecycle.Restart.{exhaust, retry, handle_crash, handle_restarted}
use appx_forge.Lifecycle.Routes.{
  notify_route_add, notify_route_remove, persist_info, persist_runtime_info,
}
use appx_forge.Lifecycle.Ack.{
  settle_race, advance, refresh, notify_ack, reset_failures, apply_ack, handle_ack,
}
use appx_forge.Lifecycle.Events.{drop_route, delegate_crash, apply_event, handle_event}
use appx_forge.Lifecycle.Guarantee.{Move, by_table, exhausted, to_restarting, Permits, keep_rules}

-- The entry of the table that a restart takes.
restarts : next_state restarting restart_attempt ≡ some starting
unfolding next_state
restarts = refl

right_of : (a : Bool) {b : Bool} → a && b ≡ true → b ≡ true
right_of a h = ground arith

-- Only a running sandbox begins to restart.
crash-Move :
    (s : SandboxState) (e : SandboxEvent) (t : SandboxState)
    → next_state s e ≡ some t
    → state_eq t restarting ≡ true
    → Move s failed
crash-Move s e t h r =
    subst (λ u. Move u failed)
      (sym (to_restarting s e (h ∙ ap some ((state_eq_iff t restarting).0 r)))) exhausted

module _ {R : Db → Db → Type 0} {env : Env} (rely : IsRely R env) (permits : Permits R) where
  pub Keeps-record_quietly : (a : RecordEventParams) → Keeps R env (record_quietly a)
  unfolding record_quietly
  Keeps-record_quietly a = search (keep_rules, permits.event)

  Keeps-persist_info : (info : RuntimeInfo) (id : ℕ) → Keeps R env (persist_info info id)
  unfolding persist_info
  Keeps-persist_info info id = search (keep_rules, permits.runtime) depth 10

  Keeps-persist_runtime_info : (id : ℕ) (r : String) → Keeps R env (persist_runtime_info id r)
  unfolding persist_runtime_info
  Keeps-persist_runtime_info id r = search (keep_rules, Keeps-persist_info) depth 10

  Keeps-notify_route_add : (sandbox : Sandbox) (id : ℕ) → Keeps R env (notify_route_add sandbox id)
  unfolding notify_route_add
  Keeps-notify_route_add sandbox id = search keep_rules depth 12

  -- The restart manager may ask for `failed` only in place of a state from which that is a move.
  pub Keeps-handle_crash :
      (sandbox : Sandbox) → Move sandbox.state failed → Keeps R env (handle_crash sandbox)
  unfolding handle_crash exhaust retry
  Keeps-handle_crash sandbox h =
      search
        (
          keep_rules,
          permits.bump,
          permits.move,
          permits.command,
          Keeps-record_quietly,
          by_table restarting starting restart_attempt restarts,
        )
        depth 14

  Keeps-settle_race :
      (id : ℕ) (event : SandboxEvent) (next : SandboxState) (e : DbErr)
      → Keeps R env (settle_race id event next e)
  unfolding settle_race
  Keeps-settle_race id event next e = search keep_rules depth 12

  Keeps-advance :
      (id : ℕ) (sandbox : Sandbox) (event : SandboxEvent) → Keeps R env (advance id sandbox event)
  unfolding advance
  Keeps-advance id sandbox event =
      search (keep_rules, permits.move, by_table, Keeps-settle_race) depth 12

  Keeps-refresh :
      (id : ℕ) (sandbox : Sandbox) (event : SandboxEvent) (r : String)
      → Keeps R env (refresh id sandbox event r)
  unfolding refresh
  Keeps-refresh id sandbox started r = search (keep_rules, Keeps-persist_runtime_info) depth 12
  Keeps-refresh id sandbox _ r = Keeps-pure rely sandbox

  Keeps-notify_ack :
      (ls : LifecycleService) (sandbox : Sandbox) (id : ℕ) (s : SandboxState)
      → Keeps R env (notify_ack ls sandbox id s)
  unfolding notify_ack notify_route_remove
  Keeps-notify_ack ls sandbox id running = search (keep_rules, Keeps-notify_route_add) depth 8
  Keeps-notify_ack ls sandbox id destroyed = search keep_rules depth 8
  Keeps-notify_ack ls sandbox id _ = Keeps-pure rely tt

  Keeps-reset_failures :
      (ls : LifecycleService) (sandbox : Sandbox) (id : ℕ) (s : SandboxState)
      → Keeps R env (reset_failures ls sandbox id s)
  unfolding reset_failures handle_restarted
  Keeps-reset_failures ls sandbox id s = search (keep_rules, permits.reset) depth 8

  Keeps-apply_ack :
      (ls : LifecycleService) (id : ℕ) (sandbox : Sandbox) (event : SandboxEvent) (r : String)
      → Keeps R env (apply_ack ls id sandbox event r)
  unfolding apply_ack
  Keeps-apply_ack ls id sandbox event r =
      search
        (
          keep_rules, Keeps-advance, Keeps-refresh, Keeps-record_quietly, Keeps-notify_ack,
          Keeps-reset_failures,
        )
        depth 12

  pub Keeps-handle_ack :
      (ls : LifecycleService) (cmd_id sandbox_id : ℕ) (t : CommandType) (status r : String)
      → Keeps R env (handle_ack ls cmd_id sandbox_id t status r)
  unfolding handle_ack
  Keeps-handle_ack ls cmd_id sandbox_id t status r =
      search (keep_rules, permits.ack, Keeps-apply_ack) depth 12

  Keeps-drop_route :
      (ls : LifecycleService) (sandbox : Sandbox) (s : SandboxState)
      → Keeps R env (drop_route ls sandbox s)
  unfolding drop_route notify_route_remove
  Keeps-drop_route ls sandbox s = search keep_rules depth 8

  Keeps-delegate_crash :
      (ls : LifecycleService) (sandbox : Sandbox) (s : SandboxState)
      → (state_eq s restarting ≡ true → Move sandbox.state failed)
      → Keeps R env (delegate_crash ls sandbox s)
  unfolding delegate_crash
  Keeps-delegate_crash ls sandbox s h =
      Keeps-if rely (ls.restart_mgr && state_eq s restarting)
        (λ e.
          Keeps-bind rely
            (Keeps-catch rely (Keeps-handle_crash sandbox (h (right_of ls.restart_mgr e))))
            (λ _. Keeps-pure rely tt))
        (Keeps-pure rely tt)

  Keeps-apply_event :
      (ls : LifecycleService) (node id : ℕ) (sandbox : Sandbox) (text : String) (e : SandboxEvent)
      (next : SandboxState) (payload : String)
      → next_state sandbox.state e ≡ some next
      → Keeps R env (apply_event ls node id sandbox text next payload)
  unfolding apply_event
  Keeps-apply_event ls node id sandbox text e next payload h =
      Keeps-bind rely (search (keep_rules, permits.move, by_table sandbox.state next e h)) λ _.
        Keeps-bind rely (Keeps-record_quietly _) λ _.
          Keeps-bind rely (Keeps-drop_route ls sandbox next)
            λ _. Keeps-delegate_crash ls sandbox next (crash-Move sandbox.state e next h)

  pub Keeps-handle_event :
      (ls : LifecycleService) (node id : ℕ) (text payload : String)
      → Keeps R env (handle_event ls node id text payload)
  unfolding handle_event
  Keeps-handle_event ls node id text payload =
      search (keep_rules, Keeps-apply_event ls node id) depth 12
