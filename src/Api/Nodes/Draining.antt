-- ===== src/Api/Nodes/Draining.antt =====
-- Draining and removal of a node, in a run that nothing disturbs, and what a heartbeat does after.
use mathlib.Core.Option
use appx_forge.Base.{
  ℕ, ◌<◌, ◌≡◌, refl, ap, ◌∙◌, true, false, Bool, Option, none, some, List, String, ok, err, arith,
  ltb, ◌==◌, find, length, select, ◌&&◌,
}
use appx_forge.Models.{draining, removed, healthy}
use appx_forge.Store.{Node, Sandbox, Db}
use appx_forge.Store.Table.{update, find-update, find_holds}
use appx_forge.Store.Sandboxes.{on_node}
use appx_forge.Store.Nodes.{
  node_has_id, get_node, update_node_status, update_node_heartbeat, count_active_sandboxes_by_node,
  counts_as_active,
}
use appx_forge.Store.Call.{Env, World}
use appx_forge.Store.Quiet.{
  IsQuiet, Runs, Runs-bind, Runs-bind_err, Runs-pure, Runs-query, Runs-attempt, after_call,
}
use appx_forge.Reconciler.{ContainerInfo}
use appx_forge.Api.{conflict}
use appx_forge.Api.Checks.{Runs-pass, Runs-reject}
use appx_forge.Api.Nodes.{
  HeartbeatRequest, require_node, handle_heartbeat, handle_drain_node, handle_remove_node,
  reconcile_report,
}

-- The node's row.
abbrev pub node_row : ℕ → World → Option Node
node_row id w = find (node_has_id id) w.db.nodes

-- The sandboxes of a node that hold it back from removal.
abbrev pub active_on : ℕ → World → ℕ
active_on id w =
    length (select (λ (r : Sandbox). on_node id r && counts_as_active r.state) w.db.sandboxes)

abbrev beaten : HeartbeatRequest → ℕ → Node → Node
beaten req now n = record n {
  used_mb = req.used_mb;
  running_containers = req.running_containers;
  status = healthy;
  last_seen_at = now;
}

update-row :
    (id : ℕ) (f : Node → Node) (ns : List Node) (n : Node)
    → ((r : Node) → (f r).id ≡ r.id)
    → find (node_has_id id) ns ≡ some n
    → find (node_has_id id) (update (node_has_id id) f ns) ≡ some (f n)
update-row id f ns n same found =
    find-update (node_has_id id) (node_has_id id) f ns (λ r. ap (λ k. k == id) (same r))
    ∙ rw found (rw (find_holds (node_has_id id) ns n found) refl)

get_node-found :
    (id : ℕ) (db : Db) (n : Node)
    → find (node_has_id id) db.nodes ≡ some n
    → get_node id db ≡ (ok n, db)
unfolding get_node
get_node-found id db n found = rw found refl

module _ {env : Env} (quiet : IsQuiet env) (id : ℕ) where
  require_node-Runs :
      (w : World) (n : Node)
      → node_row id w ≡ some n
      → Runs env (require_node id) w (ok tt) (after_call w w.db)
  unfolding require_node
  require_node-Runs w n found =
      Runs-bind _ (Runs-attempt quiet _ w (get_node-found id w.db n found)) (Runs-pure _ _)

  drain-Runs :
      (w : World) (n : Node)
      → node_row id w ≡ some n
      → (w' : World) × Runs env (handle_drain_node (some id)) w (ok 200) w'
        × (node_row id w' ≡ some (record n { status = draining }))
  unfolding handle_drain_node update_node_status
  drain-Runs w n found = (
    _,
    Runs-bind _ (Runs-pure id w) (
        Runs-bind _ (require_node-Runs w n found)
          (Runs-bind _ (Runs-query quiet _ _ (after_call w w.db) refl) (Runs-pure _ _))),
    update-row id (λ r. record r { status = draining }) w.db.nodes n (λ r. refl) found,
  )

  bare-Runs :
      (add_reason : String → String → String) (now : ℕ) (wired : Bool)
      (report : Option (List ContainerInfo)) (w : World)
      → report ≡ none
      → Runs env (reconcile_report add_reason now id wired report) w (ok tt) w
  unfolding reconcile_report
  bare-Runs add_reason now wired report w bare = rw bare (Runs-pure _ _)

  heartbeat-Runs :
      (add_reason : String → String → String) (now : ℕ) (wired : Bool) (req : HeartbeatRequest)
      (w : World) (n : Node)
      → req.containers ≡ none
      → node_row id w ≡ some n
      → (w' : World) × Runs env
          (handle_heartbeat add_reason now wired (some id) (some req))
          w
          (ok 200)
          w'
        × (node_row id w' ≡ some (beaten req w.db.now n))
  unfolding handle_heartbeat update_node_heartbeat
  heartbeat-Runs add_reason now wired req w n bare found = (
    _,
    Runs-bind _ (Runs-pure id w) (
        Runs-bind _ (Runs-pure req w) (
          Runs-bind _ (require_node-Runs w n found) (
            Runs-bind _ (Runs-query quiet _ _ (after_call w w.db) refl) (
              Runs-bind _ (bare-Runs add_reason now wired req.containers _ bare)
                (Runs-pure _ _))))),
    update-row id (beaten req w.db.now) w.db.nodes n (λ r. refl) found,
  )

  -- In an undisturbed run the drain of a node that is in the table is answered with 200 and marks
  -- its row as draining, and the node's next heartbeat, if it carries no container list, is answered
  -- with 200 too and makes the row healthy again: the drain does not outlast it.
  pub drain-heartbeat :
      (add_reason : String → String → String) (now : ℕ) (wired : Bool) (req : HeartbeatRequest)
      (w : World) (n : Node)
      → req.containers ≡ none
      → node_row id w ≡ some n
      → (v w' : World) × Runs env (handle_drain_node (some id)) w (ok 200) v
        × Runs env (handle_heartbeat add_reason now wired (some id) (some req)) v (ok 200) w'
        × (Option.map (λ (r : Node). r.status) (node_row id v) ≡ some draining)
        × (Option.map (λ (r : Node). r.status) (node_row id w') ≡ some healthy)
  drain-heartbeat add_reason now wired req w n bare found =
      let (v, drained, marked) = drain-Runs w n found in
      let (w', beat, revived) = heartbeat-Runs add_reason now wired req v _ bare marked in
      (v, w', drained, beat, rw marked refl, rw revived refl)

  -- In an undisturbed run the removal of a node that is in the table is answered with 409, and
  -- leaves the tables as they are, if some sandbox of the node is neither stopped nor destroyed;
  -- otherwise it is answered with 200, and the row is marked as removed.
  pub remove_verdict :
      (w : World) (n : Node)
      → node_row id w ≡ some n
      → ((0 < active_on id w)
          → (w' : World) × Runs env
              (handle_remove_node (some id))
              w
              (err (conflict "node has active sandboxes; drain first"))
              w'
            × (w'.db ≡ w.db))
        × ((active_on id w ≡ 0)
            → (w' : World) × Runs env (handle_remove_node (some id)) w (ok 200) w'
              × (node_row id w' ≡ some (record n { status = removed })))
  unfolding handle_remove_node count_active_sandboxes_by_node update_node_status
  remove_verdict w n found = (
    λ busy. (
      _,
      Runs-bind _ (Runs-pure id w) (
          Runs-bind _ (require_node-Runs w n found) (
            Runs-bind _ (Runs-query quiet _ _ (after_call w w.db) refl)
              (Runs-bind_err _ (Runs-reject _ _ (some_left busy))))),
      refl,
    ),
    λ idle. (
      _,
      Runs-bind _ (Runs-pure id w) (
          Runs-bind _ (require_node-Runs w n found) (
            Runs-bind _ (Runs-query quiet _ _ (after_call w w.db) refl) (
              Runs-bind _ (Runs-pass _ _ (none_left idle)) (
                Runs-bind _ (Runs-query quiet _ _ (after_call (after_call w w.db) w.db) refl)
                  (Runs-pure _ _))))),
      update-row id (λ r. record r { status = removed }) w.db.nodes n (λ r. refl) found,
    ),
  )
    where
      some_left : 0 < active_on id w → ltb 0 (active_on id w) ≡ true
      some_left busy = ground arith

      none_left : active_on id w ≡ 0 → ltb 0 (active_on id w) ≡ false
      none_left idle = ground arith
