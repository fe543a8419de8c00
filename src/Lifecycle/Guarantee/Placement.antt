-- ===== src/Lifecycle/Guarantee/Placement.antt =====
-- Requests, rescheduling and the idle reaper respect a preorder that their statements and the rest
-- of the system respect.
use appx_forge.Base.{ℕ, ◌≡◌, refl, Bool, some, List, [], ◌∷◌}
use appx_forge.Models.{
  SandboxState, pending, starting, running, stopped, scheduled, idle_timeout, destroy_requested,
  node_failed, next_state, state_eq,
}
use appx_forge.Models.Machine.{state_eq_iff}
use appx_forge.Store.{Sandbox, Resources, Db}
use appx_forge.Store.Call.{Env}
use appx_forge.Store.Rely.{IsRely, Keeps, Keeps-pure, Keeps-fail, Keeps-bind, Keeps-catch, Keeps-if}
use appx_forge.Lifecycle.Requests.{
  begin_destroy, destroy_sandbox, wake_payload, begin_wake, wake_sandbox, request_restart,
  restart_running,
}
use appx_forge.Lifecycle.Reschedule.{
  give_up, move_to, detach, reschedule_sandbox, RescheduleResult, tally, reschedule_each,
  reschedule_node,
}
use appx_forge.Lifecycle.Reaper.{reap_one, one_more, reap_each, reap}
use appx_forge.Lifecycle.Guarantee.{by_table, unplaced, Permits, keep_rules}
use appx_forge.Lifecycle.Guarantee.Handlers.{Keeps-record_quietly}

-- The entries of the table that the handlers name.
leaves_node : next_state running node_failed ≡ some pending
unfolding next_state
leaves_node = refl

idles : next_state running idle_timeout ≡ some stopped
unfolding next_state
idles = refl

wakes : (s : SandboxState) → s ≡ stopped → next_state s scheduled ≡ some starting
unfolding next_state
wakes s h = rw h

module _ {R : Db → Db → Type 0} {env : Env} (rely : IsRely R env) (permits : Permits R) where
  Keeps-begin_destroy :
      (id : ℕ) (sandbox : Sandbox) (next : SandboxState)
      → next_state sandbox.state destroy_requested ≡ some next
      → Keeps R env (begin_destroy id sandbox next)
  unfolding begin_destroy
  Keeps-begin_destroy id sandbox next h =
      search
        (
          keep_rules,
          permits.move,
          by_table sandbox.state next destroy_requested h,
          permits.command,
          Keeps-record_quietly,
        )
        depth 12

  pub Keeps-destroy_sandbox : (id : ℕ) → Keeps R env (destroy_sandbox id)
  unfolding destroy_sandbox
  Keeps-destroy_sandbox id = search (keep_rules, Keeps-begin_destroy id) depth 12

  Keeps-begin_wake :
      (id : ℕ) (sandbox : Sandbox) → sandbox.state ≡ stopped → Keeps R env (begin_wake id sandbox)
  unfolding begin_wake wake_payload
  Keeps-begin_wake id sandbox h =
      search
        (
          keep_rules,
          permits.move,
          by_table sandbox.state starting scheduled (wakes sandbox.state h),
          permits.command,
          Keeps-record_quietly,
        )
        depth 12

  pub Keeps-wake_sandbox : (id : ℕ) → Keeps R env (wake_sandbox id)
  unfolding wake_sandbox
  Keeps-wake_sandbox id = Keeps-bind rely (search (keep_rules)) λ sandbox.
      Keeps-if rely (state_eq sandbox.state stopped)
        (λ e. Keeps-begin_wake id sandbox ((state_eq_iff sandbox.state stopped).0 e))
        (Keeps-fail rely _)

  pub Keeps-restart_running : (id : ℕ) → Keeps R env (restart_running id)
  unfolding restart_running request_restart
  Keeps-restart_running id = search (keep_rules, permits.command, Keeps-record_quietly) depth 12

  Keeps-give_up : (sandbox : Sandbox) → Keeps R env (give_up sandbox)
  unfolding give_up
  Keeps-give_up sandbox = search (keep_rules, permits.move, unplaced, Keeps-record_quietly) depth 12

  Keeps-move_to :
      (sandbox : Sandbox) (res : Resources) (node : ℕ) → Keeps R env (move_to sandbox res node)
  unfolding move_to
  Keeps-move_to sandbox res node =
      search (keep_rules, permits.assign, permits.command, Keeps-record_quietly) depth 12

  Keeps-detach : (notifier : Bool) (sandbox : Sandbox) → Keeps R env (detach notifier sandbox)
  unfolding detach
  Keeps-detach notifier sandbox =
      search
        (
          keep_rules,
          permits.move,
          by_table running pending node_failed leaves_node,
          permits.reset,
          Keeps-record_quietly,
        )
        depth 14

  Keeps-reschedule_sandbox :
      (notifier : Bool) (sandbox : Sandbox) → Keeps R env (reschedule_sandbox notifier sandbox)
  unfolding reschedule_sandbox
  Keeps-reschedule_sandbox notifier sandbox =
      search (keep_rules, Keeps-detach, Keeps-give_up, Keeps-move_to) depth 12

  Keeps-reschedule_each :
      (notifier : Bool) (r : RescheduleResult) (rows : List Sandbox)
      → Keeps R env (reschedule_each notifier r rows)
  unfolding reschedule_each
  Keeps-reschedule_each notifier r [] = Keeps-pure rely r
  Keeps-reschedule_each notifier r (sandbox ∷ rest) =
      Keeps-bind rely (Keeps-catch rely (Keeps-reschedule_sandbox notifier sandbox))
        λ done. Keeps-reschedule_each notifier (tally r done) rest

  pub Keeps-reschedule_node :
      (notifier : Bool) (node : ℕ) → Keeps R env (reschedule_node notifier node)
  unfolding reschedule_node
  Keeps-reschedule_node notifier node = search (keep_rules, Keeps-reschedule_each)

  Keeps-reap_one : (notifier : Bool) (sandbox : Sandbox) → Keeps R env (reap_one notifier sandbox)
  unfolding reap_one
  Keeps-reap_one notifier sandbox =
      search
        (
          keep_rules,
          permits.move,
          by_table running stopped idle_timeout idles,
          permits.command,
          Keeps-record_quietly,
        )
        depth 14

  Keeps-reap_each :
      (notifier : Bool) (n : ℕ) (rows : List Sandbox) → Keeps R env (reap_each notifier n rows)
  unfolding reap_each
  Keeps-reap_each notifier n [] = Keeps-pure rely n
  Keeps-reap_each notifier n (sandbox ∷ rest) =
      Keeps-bind rely (Keeps-catch rely (Keeps-reap_one notifier sandbox))
        λ done. Keeps-reap_each notifier (one_more n done) rest

  pub Keeps-reap : (notifier : Bool) → Keeps R env (reap notifier)
  unfolding reap
  Keeps-reap notifier = search (keep_rules, Keeps-reap_each)
