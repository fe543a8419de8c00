-- ===== src/Agent/Blindness.antt =====
-- From Docker's list of containers to the rows of the control plane: the heartbeat of an agent, and the
-- answer to the freshness service.
use appx_forge.Base.{
  ℕ, ◌+◌, ◌≡◌, refl, ap, ◌∙◌, subst, if◌then◌else◌, Bool, true, false, ◌||◌, none, some, List, [],
  String, ok, err, str_eq, ltb, find, All, arith,
}
use appx_forge.Base.Dict.{lookup}
use appx_forge.Store.{Sandbox, Node}
use appx_forge.Store.Sandboxes.{is_lost, lost, is_live, gone}
use appx_forge.Store.Nodes.{node_has_id, one_node, get_node, update_node_heartbeat}
use appx_forge.Store.Call.{Env, World}
use appx_forge.Store.Quiet.{
  IsQuiet, Runs, Runs-bind, Runs-pure, Runs-attempt, Runs-query, Runs-catch, after_call,
}
use appx_forge.Reconciler.{reconciler_grace_window, sandbox_not_found, get_fresh_sandbox}
use appx_forge.Reconciler.Revival.{app_row}
use appx_forge.Reconciler.Fate.{reconcile-unreported}
use appx_forge.Reconciler.Asking.{ask_agent}
use appx_forge.Api.Nodes.{HeartbeatRequest, require_node, reconcile_report, handle_heartbeat}
use appx_forge.ControlClient.{Client, ClientOutside}
use appx_forge.Docker.{DockerOutside, ContainerItem, snapshot}
use appx_forge.Agent.Answers.{served, check-Outcome, Outcome}
use appx_forge.Docker.Labels.{IsMade, snapshot-made}
use appx_forge.Agent.{beat, heartbeat_request}

-- A heartbeat on these items lists nothing and destroys the row, and so does a check.
pub record IsDestroying (env : Env) (client : ClientOutside) (c : Client)
    (items : List ContainerItem) (add_reason : String → String → String)
    (now freshness later node : ℕ) (force : Bool) (w : World) (r : Sandbox) : Type 0 where
  pub body : HeartbeatRequest
  pub sent : (beat client (snapshot (ok items)) c).0 ≡ some body
  pub lists : body.containers ≡ some []
  pub beaten : World
  pub beats :
      Runs env (handle_heartbeat add_reason now true (some node) (some body)) w (ok 200) beaten
  pub lost_row : app_row r.app_name beaten.db ≡ some (lost add_reason w.db.now r)
  pub checked : World
  pub checks :
      Runs env
        (get_fresh_sandbox add_reason freshness now later
          (ask_agent (served (snapshot (ok items))))
          r.app_name
          force)
        w
        (err sandbox_not_found)
        checked
  pub gone_row :
      app_row r.app_name checked.db
      ≡ some (gone add_reason "agent_lost_at_freshness_check" w.db.now r)

module _ {env : Env} (quiet : IsQuiet env) where
  -- A heartbeat that lists no container.
  empty-Runs :
      (add_reason : String → String → String) (now node : ℕ) (w : World) (n : Node) (r : Sandbox)
      → find (node_has_id node) w.db.nodes ≡ some n
      → app_row r.app_name w.db ≡ some r
      → is_lost r.app_name node w.db.now r ≡ true
      → ltb now (r.created_at + reconciler_grace_window) ≡ false
      → (w' : World) × Runs env
          (handle_heartbeat add_reason now true (some node) (some (heartbeat_request [])))
          w
          (ok 200)
          w'
        × (app_row r.app_name w'.db ≡ some (lost add_reason w.db.now r))
  unfolding handle_heartbeat require_node reconcile_report heartbeat_request get_node
      update_node_heartbeat
  empty-Runs add_reason now node w n r known found live old =
      let w1 : World = after_call w w.db in
      let w2 : World = after_call w1 (update_node_heartbeat node _ _ w.db).1 in
      let (w', run, fate) =
        reconcile-unreported add_reason now node [] r.app_name quiet w2 r found refl (λ l. old) in
      (
        w',
        Runs-bind _ (Runs-pure _ w) (
            Runs-bind _ (Runs-pure _ w) (
              Runs-bind _
                (Runs-bind _
                  (Runs-attempt quiet (get_node node) w (ap (λ o. one_node o w.db) known))
                  (Runs-pure _ w1))
                (Runs-bind _ (Runs-query quiet _ _ w1 refl)
                  (Runs-bind _ (Runs-bind _ (Runs-catch run) (Runs-pure _ _)) (Runs-pure _ _))))),
        fate ∙ rw live refl,
      )

  -- Docker adds to the labels of a call those of the image, and no image has the label of an
  -- application. Then whatever containers the agent created are running, its heartbeat is sent and
  -- reports none; and in an undisturbed run such a heartbeat of a node destroys every row on the node
  -- that is live and older than the window by both clocks; and a freshness check of such a row, if it
  -- is stale or forced, answers that there is no such sandbox and destroys the row too. The node
  -- must be known, and the name not empty.
  pub made-destroyed :
      (docker : DockerOutside) (image_labels : String → List (String × String))
      (client : ClientOutside) (c : Client) (items : List ContainerItem)
      (add_reason : String → String → String) (now freshness later node : ℕ) (force : Bool)
      (w : World) (n : Node) (r : Sandbox)
      → ((image : String) → lookup "forge.app_name" (image_labels image) ≡ none)
      → All (IsMade docker image_labels) items
      → find (node_has_id node) w.db.nodes ≡ some n
      → app_row r.app_name w.db ≡ some r
      → r.node_id ≡ some node
      → str_eq r.app_name "" ≡ false
      → is_lost r.app_name node w.db.now r ≡ true
      → ltb now (r.created_at + reconciler_grace_window) ≡ false
      → ltb (r.verified_at + freshness) now || force ≡ true
      → IsDestroying env client c items add_reason now freshness later node force w r
  unfolding beat Outcome heartbeat_request
  made-destroyed docker image_labels client c items add_reason now freshness later node force w n r
        plain made known found placed named live old stale =
      let none_listed : snapshot (ok items) ≡ ok [] =
        snapshot-made docker image_labels plain items made in
      let (beaten, beats, lost_row) = empty-Runs add_reason now node w n r known found live old in
      let (checked, res, checks, (not_found, gone_row)) =
        check-Outcome quiet add_reason freshness now later r.app_name force w r node n found placed
          known named stale (ok []) in
      record {
        body = heartbeat_request [];
        sent = rw none_listed refl;
        lists = refl;
        beaten = beaten;
        beats = beats;
        lost_row = lost_row;
        checked = checked;
        checks = rw none_listed (
            subst
              (λ x.
                Runs env
                  (get_fresh_sandbox add_reason freshness now later (ask_agent (served (ok [])))
                    r.app_name force)
                  w x checked)
              not_found checks);
        gone_row = gone_row ∙ ap some (still_live live);
      }
    where
      still_live :
          is_lost r.app_name node w.db.now r ≡ true
          → (if is_live r.state
              then gone add_reason "agent_lost_at_freshness_check" w.db.now r
              else r)
            ≡ gone add_reason "agent_lost_at_freshness_check" w.db.now r
      still_live h = ground (arith, h)
