-- ===== src/Lifecycle/Crash.antt =====
-- What becomes of a sandbox whose container exits, in a run that nothing disturbs.
use appx_forge.Base.{
  ℕ, ◌+◌, ◌≤◌, ◌≡◌, refl, ap, ◌∙◌, true, false, some, String, Result, ok, err, [], ◌∷◌, ◌++◌, arith,
  ltb, if◌then◌else◌, Bool-cases, inl, inr,
}
use appx_forge.Models.{
  SandboxState, running, restarting, failed, container_exited, next_state, state_eq,
}
use appx_forge.Store.{Sandbox, Db, no_rows}
use appx_forge.Store.Sandboxes.{moved, bumped, transition_sandbox_state}
use appx_forge.Store.Commands.{RecordEventParams, record_event, new_event}
use appx_forge.Store.Keys.{
  IsKeyed, row, Sets, transition_hit, transition_miss, increment_hit, get_hit,
}
use appx_forge.Store.Call.{Env, World, sandbox_stopped}
use appx_forge.Store.Quiet.{
  IsQuiet, Runs, Runs-bind, Runs-bind_err, Runs-pure, Runs-notify, Runs-catch, Runs-attempt,
  Runs-query, Runs-query_err, after_call,
}
use appx_forge.Lifecycle.{Err, wrapped, LifecycleService, record_quietly, safe_payload}
use appx_forge.Lifecycle.Restart.{CrashResult, handle_crash, exhaust}
use appx_forge.Lifecycle.Routes.{notify_route_remove}
use appx_forge.Lifecycle.Events.{
  handle_event, apply_event, drop_route, delegate_crash, container_event,
}

stale_state : (a b : SandboxState) → a ≡ restarting → b ≡ running → state_eq a b ≡ false
unfolding state_eq
stale_state a b h k = rw (h, k) refl

-- The world after a route has been taken down, if there is a router.
abbrev pub route_down : LifecycleService → String → World → World
route_down ls app w = record w {
  route_calls =
      if ls.route_notifier then w.route_calls ++ sandbox_stopped app ∷ [] else w.route_calls;
}

-- The database after an event has been recorded.
abbrev pub logged : RecordEventParams → Db → Db
logged a db = record db { events = db.events ++ new_event a db.now ∷ [] }

-- What an exit of a running sandbox leaves behind once its restarts are used up: `restarting`, one
-- more failure counted, and nothing for the agent to do.
pub record IsStuck (w : World) (r : Sandbox) (w' : World) : Type 0 where
  pub now_row : row r.id w'.db ≡ some (bumped w.db.now (moved restarting w.db.now r))
  pub no_command : w'.db.commands ≡ w.db.commands

exit_leads : (s : SandboxState) → s ≡ running → next_state s container_exited ≡ some restarting
unfolding next_state
exit_leads s h = rw h refl

abbrev pub exit_params : ℕ → Sandbox → String → String → RecordEventParams
exit_params node r text payload = record {
  sandbox_id = some r.id;
  node_id = some node;
  event_type = text;
  actor = "agent";
  prev_state = some r.state;
  next_state = some restarting;
  payload = safe_payload payload;
}

-- The world in which the restart manager is called: the row is `restarting`, the event recorded and
-- the route taken down.
abbrev pub exit_world : LifecycleService → ℕ → Sandbox → String → String → World → Db → World
exit_world ls node r text payload w db' =
    route_down ls r.app_name (
      after_call (after_call (after_call w w.db) db')
        (logged (exit_params node r text payload) db'))

module _ {env : Env} (quiet : IsQuiet env) where
  pub Runs-record_quietly :
      (a : RecordEventParams) (w : World)
      → Runs env (record_quietly a) w (ok tt) (after_call w (logged a w.db))
  unfolding record_quietly record_event
  Runs-record_quietly a w =
      Runs-bind _ (Runs-attempt quiet (record_event a) w {db' = logged a w.db} refl) (Runs-pure _ _)

  -- The row is `restarting`, and the manager was given it as it was when it ran.
  exhaust_fails :
      (w : World) (stale r : Sandbox)
      → IsKeyed w.db.sandboxes
      → row stale.id w.db ≡ some r
      → r.state ≡ restarting
      → stale.state ≡ running
      → Runs env
          (exhaust stale)
          w
          (err (wrapped "transition to failed" no_rows))
          (after_call w w.db)
  unfolding exhaust
  exhaust_fails w stale r keyed found now before = Runs-bind_err _ (
      Runs-query_err quiet _ _ w (
        transition_miss stale.id w.db r keyed found failed stale.state
          (stale_state r.state stale.state now before)))

  Runs-drop_route :
      (ls : LifecycleService) (r : Sandbox) (w : World)
      → r.state ≡ running
      → Runs env (drop_route ls r restarting) w (ok tt) (route_down ls r.app_name w)
  unfolding drop_route notify_route_remove state_eq
  Runs-drop_route ls r w h = elim (Bool-cases ls.route_notifier) [
    | inl e ↦ rw (e, h) (Runs-notify _ _)
    | inr e ↦ rw e (Runs-pure _ _)
  ]

  -- After the fourth crash the count is raised, and nothing else happens.
  crash_exhausted :
      (w : World) (stale r : Sandbox)
      → IsKeyed w.db.sandboxes
      → row stale.id w.db ≡ some r
      → r.state ≡ restarting
      → stale.state ≡ running
      → 3 ≤ r.failure_count
      → (w' : World) × Runs env
          (handle_crash stale)
          w
          (err (wrapped "transition to failed" no_rows))
          w'
        × Sets stale.id (bumped w.db.now r) w.db w'.db
  unfolding handle_crash
  crash_exhausted w stale r keyed found now before many =
      let (db', e, sets) = increment_hit stale.id w.db r keyed found in
      (
        after_call (after_call w db') db',
        Runs-bind _ (Runs-query quiet _ _ w e) (
            rw enough (
              exhaust_fails (after_call w db') stale (bumped w.db.now r) sets.keyed sets.found now
                before)),
        sets,
      )
    where
      enough : ltb 3 (r.failure_count + 1) ≡ true
      enough = ground arith

  pub delegated :
      (ls : LifecycleService) (r : Sandbox) (w w' : World) {x : Result Err CrashResult}
      → ls.restart_mgr ≡ true
      → Runs env (handle_crash r) w x w'
      → Runs env (delegate_crash ls r restarting) w (ok tt) w'
  unfolding delegate_crash state_eq
  delegated ls r w w' mgr h = rw mgr (Runs-bind _ (Runs-catch h) (Runs-pure _ _))

  -- The reported exit of a running sandbox, from what the restart manager does with it.
  pub exit-Runs :
      (ls : LifecycleService) (w w' : World) (node : ℕ) (r : Sandbox) (text payload : String)
      (db' : Db)
      → IsKeyed w.db.sandboxes
      → row r.id w.db ≡ some r
      → r.state ≡ running
      → container_event text ≡ some container_exited
      → transition_sandbox_state restarting r.id r.state w.db
        ≡ (ok (moved restarting w.db.now r), db')
      → Runs env
          (delegate_crash ls r restarting)
          (exit_world ls node r text payload w db')
          (ok tt)
          w'
      → Runs env (handle_event ls node r.id text payload) w (ok tt) w'
  unfolding handle_event
  exit-Runs ls w w' node r text payload db' keyed found runs ev e crash =
      Runs-bind _ (Runs-query quiet _ _ w (get_hit r.id w.db r keyed found)) (
        rw (ev, exit_leads r.state runs)
          (unfold apply_event in
            Runs-bind _ (Runs-query quiet _ _ _ e) (
              Runs-bind _ (Runs-record_quietly (exit_params node r text payload) _)
                (Runs-bind _ (Runs-drop_route ls r _ runs) crash))))

  -- In an undisturbed run with a restart manager, the exit (or OOM kill) of a running sandbox that
  -- has already failed three times or more is answered without an error, but leaves the row in
  -- `restarting` and dispatches no command: the row does not reach `failed`, since the manager
  -- expects it in the state that it had before the handler's own transition.
  pub exit_exhausted-IsStuck :
      (ls : LifecycleService) (w : World) (node : ℕ) (r : Sandbox) (text payload : String)
      → ls.restart_mgr ≡ true
      → IsKeyed w.db.sandboxes
      → row r.id w.db ≡ some r
      → r.state ≡ running
      → 3 ≤ r.failure_count
      → container_event text ≡ some container_exited
      → (w' : World) × Runs env (handle_event ls node r.id text payload) w (ok tt) w'
        × IsStuck w r w'
  exit_exhausted-IsStuck ls w node r text payload mgr keyed found runs many ev =
      let (db', e, sets) = transition_hit r.id w.db r keyed found restarting r.state refl in
      let (w', crash, bump) =
        crash_exhausted (exit_world ls node r text payload w db') r (moved restarting w.db.now r)
          sets.keyed sets.found refl runs many in
      (
        w',
        exit-Runs ls w w' node r text payload db' keyed found runs ev e
            (delegated ls r _ w' mgr crash),
        record {
          now_row =
              bump.found ∙ ap (λ n. some (bumped n (moved restarting w.db.now r))) sets.same_now;
          no_command = bump.same_commands ∙ sets.same_commands;
        },
      )
