-- ===== src/Lifecycle/Recovery.antt =====
-- The restart of a crashed sandbox, in a run that nothing disturbs.
use appx_forge.Base.{
  ℕ, ◌+◌, ◌*◌, ◌^◌, ◌<◌, ◌≡◌, refl, ap, ap₂, ◌∙◌, true, false, some, String, ok, [], ◌∷◌, ◌++◌,
  ◌==◌, arith, any, ltb,
}
use appx_forge.Models.{running, restarting, starting, container_exited, start_sandbox}
use appx_forge.Store.{Sandbox, Node, Command}
use appx_forge.Store.Sandboxes.{moved, bumped}
use appx_forge.Store.Commands.{CreateCommandParams, new_command, due}
use appx_forge.Store.Keys.{IsKeyed, row, transition_hit, increment_hit, create_command_hit}
use appx_forge.Store.Call.{Env, World}
use appx_forge.Store.Quiet.{
  IsQuiet, Runs, Runs-bind, Runs-pure, Runs-fresh_uuid, Runs-query, after_call,
}
use appx_forge.Lifecycle.{LifecycleService}
use appx_forge.Lifecycle.Restart.{handle_crash, retry, backoff, retry_payload}
use appx_forge.Lifecycle.Events.{handle_event, container_event}
use appx_forge.Lifecycle.Crash.{Runs-record_quietly, exit-Runs, delegated, exit_world}

-- The start command of a restart, to the sandbox's node, with the delay in its payload and timeout.
abbrev pub restart_params : ℕ → Sandbox → ℕ → CreateCommandParams
restart_params uuid r delay = record {
  id = uuid;
  node_id = r.node_id;
  sandbox_id = some r.id;
  command_type = start_sandbox;
  payload = retry_payload r delay;
  timeout_seconds = 60 + delay;
}

-- What a restart needs of the database: the node is there, and the drawn identifier is new.
pub record CanCommand (env : Env) (w : World) (node : ℕ) : Type 0 where
  pub known : any (λ (n : Node). n.id == node) w.db.nodes ≡ true
  pub fresh : any (λ (c : Command). c.id == env.new_uuid w.uuids) w.db.commands ≡ false

backoff-suc : (c : ℕ) → backoff (c + 1) ≡ 5 * 2 ^ c
unfolding backoff
backoff-suc c = ap (λ (n : ℕ). 5 * 2 ^ n) (omega arith)

-- The row after a restart: one failure more, two moves on, back in `starting`.
abbrev pub restarted : ℕ → Sandbox → Sandbox
restarted now r = moved starting now (bumped now (moved restarting now r))

-- What the exit of a running sandbox leaves behind while it has restarts left.
pub record IsRecovering (env : Env) (w : World) (r : Sandbox) (node : ℕ) (w' : World) : Type 0 where
  pub now_row : row r.id w'.db ≡ some (restarted w.db.now r)
  pub one_command :
      w'.db.commands
      ≡ w.db.commands
        ++ new_command
            (restart_params (env.new_uuid w.uuids) r (5 * 2 ^ r.failure_count))
            node
            w.db.now
          ∷ []
  pub due_at_once :
      due node (
        new_command
          (restart_params (env.new_uuid w.uuids) r (5 * 2 ^ r.failure_count))
          node
          w.db.now)
      ≡ true

-- The requirement is on the nodes, the commands and the identifiers drawn.
carry :
    {env : Env} {w : World} {node : ℕ} (v : World)
    → CanCommand env w node
    → v.uuids ≡ w.uuids
    → v.db.nodes ≡ w.db.nodes
    → v.db.commands ≡ w.db.commands
    → CanCommand env v node
carry {env} {w} {node} v can u n c = record {
  known = ap (any (λ (n : Node). n.id == node)) n ∙ can.known;
  fresh = ap₂ (λ cs k. any (λ (c : Command). c.id == env.new_uuid k) cs) c u ∙ can.fresh;
}

module _ {env : Env} (quiet : IsQuiet env) where
  -- The row is brought to `starting`, and the command stands behind the others.
  retry-Runs :
      (w : World) (stale r : Sandbox) (delay node : ℕ)
      → IsKeyed w.db.sandboxes
      → row stale.id w.db ≡ some r
      → r.state ≡ restarting
      → stale.node_id ≡ some node
      → CanCommand env w node
      → (w' : World) × Runs env
          (retry stale delay)
          w
          (ok (record { should_restart = true; delay = delay }))
          w'
        × (row stale.id w'.db ≡ some (moved starting w.db.now r))
        × (w'.db.commands
            ≡ w.db.commands
              ++ new_command (restart_params (env.new_uuid w.uuids) stale delay) node w.db.now ∷ [])
  unfolding retry
  retry-Runs w stale r delay node keyed found now on can =
      let (db', e, sets) = transition_hit stale.id w.db r keyed found starting restarting now in
      let a : CreateCommandParams = restart_params (env.new_uuid w.uuids) stale delay in
      let made =
        create_command_hit a db' (moved starting w.db.now r) stale.id node on refl sets.found
          (ap (any (λ (n : Node). n.id == node)) sets.same_nodes ∙ can.known)
          (ap (any (λ (c : Command). c.id == a.id)) sets.same_commands ∙ can.fresh) in
      (
        _,
        Runs-bind _ (Runs-query quiet _ _ w e) (
            Runs-bind _ (Runs-fresh_uuid _) (
              Runs-bind _ (Runs-query quiet _ _ _ made)
                (Runs-bind _ (Runs-record_quietly quiet _ _) (Runs-pure _ _)))),
        sets.found,
        ap₂ (λ cs n. cs ++ new_command a node n ∷ []) sets.same_commands sets.same_now,
      )

  crash_retried :
      (w : World) (stale r : Sandbox) (node : ℕ)
      → IsKeyed w.db.sandboxes
      → row stale.id w.db ≡ some r
      → r.state ≡ restarting
      → r.failure_count < 3
      → stale.node_id ≡ some node
      → CanCommand env w node
      → (w' : World) × Runs env
          (handle_crash stale)
          w
          (ok (record { should_restart = true; delay = backoff (r.failure_count + 1) }))
          w'
        × (row stale.id w'.db ≡ some (moved starting w.db.now (bumped w.db.now r)))
        × (w'.db.commands
            ≡ w.db.commands
              ++ new_command
                  (restart_params (env.new_uuid w.uuids) stale (backoff (r.failure_count + 1)))
                  node
                  w.db.now
                ∷ [])
  unfolding handle_crash
  crash_retried w stale r node keyed found now few on can =
      let (db', e, sets) = increment_hit stale.id w.db r keyed found in
      let (w', runs, set, made) =
        retry-Runs (after_call w db') stale (bumped w.db.now r) (backoff (r.failure_count + 1)) node
          sets.keyed sets.found now on
          (carry (after_call w db') can refl sets.same_nodes sets.same_commands) in
      (
        w',
        Runs-bind _ (Runs-query quiet _ _ w e) (rw enough runs),
        set ∙ ap (λ n. some (moved starting n (bumped w.db.now r))) sets.same_now,
        made
            ∙ ap₂
                (λ cs n.
                  cs
                  ++ new_command
                      (restart_params (env.new_uuid w.uuids) stale (backoff (r.failure_count + 1)))
                      node n
                    ∷ [])
                sets.same_commands sets.same_now,
      )
    where
      enough : ltb 3 (r.failure_count + 1) ≡ false
      enough = ground arith

  -- In an undisturbed run with a restart manager, the exit (or OOM kill) of a running sandbox that
  -- has failed c < 3 times before is answered without an error and brings the row, through
  -- `restarting`, to `starting` with c + 1 failures. Exactly one command is added: a pending
  -- start_sandbox for the sandbox's node, which the node's next poll may take at once; its payload
  -- carries the number 5 · 2^c as `restart_delay`, and its timeout is that many seconds and 60. The node must be in the table, and the drawn identifier new.
  pub exit-IsRecovering :
      (ls : LifecycleService) (w : World) (node at : ℕ) (r : Sandbox) (text payload : String)
      → ls.restart_mgr ≡ true
      → IsKeyed w.db.sandboxes
      → row r.id w.db ≡ some r
      → r.state ≡ running
      → r.failure_count < 3
      → r.node_id ≡ some node
      → CanCommand env w node
      → container_event text ≡ some container_exited
      → (w' : World) × Runs env (handle_event ls at r.id text payload) w (ok tt) w'
        × IsRecovering env w r node w'
  exit-IsRecovering ls w node at r text payload mgr keyed found runs few on can ev =
      let (db', e, sets) = transition_hit r.id w.db r keyed found restarting r.state refl in
      let v : World = exit_world ls at r text payload w db' in
      let (w', crash, set, made) =
        crash_retried v r (moved restarting w.db.now r) node sets.keyed sets.found refl few on
          (carry v can refl sets.same_nodes sets.same_commands) in
      (
        w',
        exit-Runs quiet ls w w' at r text payload db' keyed found runs ev e
            (delegated quiet ls r v w' mgr crash),
        record {
          now_row =
              set
              ∙ ap (λ n. some (moved starting n (bumped n (moved restarting w.db.now r))))
                  sets.same_now;
          one_command =
              made
              ∙ ap₂
                  (λ cs n.
                    cs
                    ++ new_command
                        (restart_params (env.new_uuid w.uuids) r (backoff (r.failure_count + 1)))
                        node n
                      ∷ [])
                  sets.same_commands sets.same_now
              ∙ ap
                  (λ d.
                    w.db.commands
                    ++ new_command (restart_params (env.new_uuid w.uuids) r d) node w.db.now ∷ [])
                  (backoff-suc r.failure_count);
          due_at_once = ground arith;
        },
      )
