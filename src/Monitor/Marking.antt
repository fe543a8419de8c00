-- ===== src/Monitor/Marking.antt =====
-- A tick of the monitor marks the nodes that have fallen silent, in a run that nothing disturbs.
use mathlib.Core.Option
use appx_forge.Base.{
  ℕ, ◌≡◌, refl, sym, ap, subst, ◌∙◌, Bool, true, false, not, ◌&&◌, Bool-cases, Option-cases, inl,
  inr, Option, some, none, List, [], ◌∷◌, Result, ok, arith, any, find, is_some, ◌==◌,
  if◌then◌else◌,
}
use appx_forge.Models.{NodeStatus, unhealthy}
use appx_forge.Store.{Node, Sandbox, Command, Db, DbErr}
use appx_forge.Store.Table.{update, any-find}
use appx_forge.Store.Sandboxes.{
  one, transition_sandbox_state, assign_sandbox_to_node, update_sandbox_runtime,
  increment_sandbox_failure_count, reset_sandbox_failure_count,
}
use appx_forge.Store.Commands.{
  CreateCommandParams, create_command, insert_command, sandbox_exists, ack_command, record_event,
}
use appx_forge.Store.Nodes.{node_has_id, is_healthy, list_nodes, newest_first, update_node_status}
use appx_forge.Store.Call.{Env, World, M}
use appx_forge.Store.Rely.{IsRely}
use appx_forge.Store.Quiet.{
  IsQuiet, Runs, Runs-bind, Runs-pure, Runs-attempt, Runs-catch, after_call,
}
use appx_forge.Lifecycle.{Err}
use appx_forge.Lifecycle.Reschedule.{reschedule_node}
use appx_forge.Lifecycle.Guarantee.{Permits}
use appx_forge.Lifecycle.Guarantee.Placement.{Keeps-reschedule_node}
use appx_forge.Monitor.{HeartbeatConfig, is_silent, check_node, check_nodes, monitor_tick}
use appx_forge.Monitor.Silence.{is_lost, any-newest_first}

abbrev status_in : ℕ → List Node → Option NodeStatus
status_in id ns = Option.map (λ (n : Node). n.status) (find (node_has_id id) ns)

abbrev pub IsMarked : ℕ → Db → Type 0
IsMarked id db = status_in id db.nodes ≡ some unhealthy

abbrev IsPresent : ℕ → Db → Type 0
IsPresent id db = any (node_has_id id) db.nodes ≡ true

-- The node's row stays, and so does its mark.
pub record IsMarkKept (id : ℕ) (before after : Db) : Type 0 where
  pub present : IsPresent id before → IsPresent id after
  pub marked : IsMarked id before → IsMarked id after

same_nodes : (id : ℕ) (a b : Db) → b.nodes ≡ a.nodes → IsMarkKept id a b
same_nodes id a b e = record {
  present = λ h. ap (any (node_has_id id)) e ∙ h;
  marked = λ h. ap (status_in id) e ∙ h;
}

one-nodes : (o : Option Sandbox) (a b : Db) → b.nodes ≡ a.nodes → (one o a b).1.nodes ≡ a.nodes
one-nodes none a b e = refl
one-nodes (some r) a b e = e

if-nodes :
    (b : Bool) (x y : Result DbErr Command × Db) (db : Db)
    → x.1.nodes ≡ db.nodes
    → y.1.nodes ≡ db.nodes
    → (if b then x else y).1.nodes ≡ db.nodes
if-nodes true x y db h k = h
if-nodes false x y db h k = k

command-nodes : (a : CreateCommandParams) (db : Db) → (create_command a db).1.nodes ≡ db.nodes
unfolding create_command insert_command
command-nodes a db = elim (Option-cases a.node_id) [
  | inl e ↦ rw e refl
  | inr (n, e) ↦ rw e (
      if-nodes (any (λ (x : Command). x.id == a.id) db.commands) _ _ db refl (
        if-nodes (not (any (λ (m : Node). m.id == n) db.nodes)) _ _ db refl
          (if-nodes (not (sandbox_exists a.sandbox_id db)) _ _ db refl refl)))
]

permits : (id : ℕ) → Permits (IsMarkKept id)
unfolding transition_sandbox_state assign_sandbox_to_node update_sandbox_runtime
    increment_sandbox_failure_count reset_sandbox_failure_count ack_command record_event
permits id = record {
  move = λ from to k m db. same_nodes id _ _ (one-nodes _ db _ refl);
  assign = λ n k db. same_nodes id _ _ (one-nodes _ db _ refl);
  runtime = λ c p k db. same_nodes id _ _ refl;
  bump = λ k db. same_nodes id _ _ (one-nodes _ db _ refl);
  reset = λ k db. same_nodes id _ _ refl;
  command = λ a db. same_nodes id _ _ (command-nodes a db);
  ack = λ k s r db. same_nodes id _ _ refl;
  event = λ a db. same_nodes id _ _ refl;
}

abbrev mark : Node → Node
mark n = record n { status = unhealthy }

any-mark :
    (id k : ℕ) (ns : List Node)
    → any (node_has_id id) (update (node_has_id k) mark ns) ≡ any (node_has_id id) ns
unfolding update
any-mark id k [] = refl
any-mark id k (n ∷ ns) = ground (arith, any-mark id k ns)

kept :
    (id k : ℕ) (ns : List Node)
    → status_in id ns ≡ some unhealthy
    → status_in id (update (node_has_id k) mark ns) ≡ some unhealthy
unfolding update
kept id k [] h = h
kept id k (n ∷ ns) h = ground (arith, h, kept id k ns)

hit :
    (id : ℕ) (ns : List Node)
    → any (node_has_id id) ns ≡ true
    → status_in id (update (node_has_id id) mark ns) ≡ some unhealthy
unfolding update
hit id [] h = ground (arith, h)
hit id (n ∷ ns) h = ground (arith, h, hit id ns)

found-any :
    (p q : Node → Bool) (ns : List Node) (n : Node)
    → find p ns ≡ some n
    → q n ≡ true
    → any (λ x. p x && q x) ns ≡ true
found-any p q [] n found h = elim (Option.none-ne-some n found) [ ]
found-any p q (x ∷ ns) n found h = elim (Bool-cases (p x)) [
  | inl e ↦
      let here : q x ≡ true = ap q (Option.some-injective x n (sym (rw e refl) ∙ found)) ∙ h in
      ground (arith, e, here)
  | inr e ↦ ground (arith, e, found-any p q ns n (sym (rw e refl) ∙ found) h)
]

module _ {env : Env} (quiet : IsQuiet env) (cfg : HeartbeatConfig) (notifier : Bool)
    (now id : ℕ) where
  rely : IsRely (IsMarkKept id) env
  rely = record {
    stays = λ db. same_nodes id db db refl;
    chain = λ a b c p q. record {
      present = λ h. q.present (p.present h);
      marked = λ h. q.marked (p.marked h);
    };
    outside = λ n db. same_nodes id _ _ (ap (λ (d : Db). d.nodes) (quiet.alone n db));
  }

  -- The nodes that a tick acts on, of this identifier.
  abbrev is_target : Node → Bool
  is_target n = node_has_id id n && is_lost cfg now n

  -- What one step, or all of them, end in: no error, and the node marked if it was their target.
  record Ends (m : M Err (Unit {0})) (aims : Bool) (w : World) : Type 0 where
    pub after : World
    pub runs : Runs env m w (ok tt) after
    pub keeps : IsMarkKept id w.db after.db
    pub hits : aims ≡ true → IsPresent id w.db → IsMarked id after.db

  check-Ends : (n : Node) (w : World) → Ends (check_node cfg notifier now n) (is_target n) w
  unfolding check_node update_node_status
  check-Ends n w = elim (Bool-cases (is_healthy n.status)) [
    | inr sick ↦ record {
      after = w;
      runs = rw sick (Runs-pure _ _);
      keeps = rely.stays w.db;
      hits = λ h. ground (arith, h, sick);
    }
    | inl well ↦ elim (Bool-cases (is_silent cfg now n)) [
      | inr talks ↦ record {
        after = w;
        runs = rw (well, talks) (Runs-pure _ _);
        keeps = rely.stays w.db;
        hits = λ h. ground (arith, h, talks);
      }
      | inl silent ↦ lost well silent
    ]
  ]
    where
      marked : World
      marked = after_call w (update_node_status n.id unhealthy w.db).1

      moved : World
      moved = (reschedule_node notifier n.id env marked).1

      rest : IsMarkKept id marked.db moved.db
      rest = (Keeps-reschedule_node rely (permits id) notifier n.id).run marked

      same_id : is_target n ≡ true → n.id ≡ id
      same_id aims = ground (arith, aims)

      lost :
          is_healthy n.status ≡ true
          → is_silent cfg now n ≡ true
          → Ends (check_node cfg notifier now n) (is_target n) w
      lost well silent = record {
        after = moved;
        runs =
            rw (well, silent)
              (Runs-bind _ (Runs-attempt quiet _ w refl)
                (Runs-bind _ (Runs-catch (record { eq = refl })) (Runs-pure _ _)));
        keeps =
            rely.chain w.db marked.db moved.db
              (record {
                present = λ h. any-mark id n.id w.db.nodes ∙ h;
                marked = kept id n.id w.db.nodes;
              })
              rest;
        hits = λ aims here. rest.marked (
            subst
              (λ k. IsMarked id (record w.db { nodes = update (node_has_id k) mark w.db.nodes }))
              (sym (same_id aims)) (hit id w.db.nodes here));
      }

  all-Ends :
      (ns : List Node) (w : World) → Ends (check_nodes cfg notifier now ns) (any is_target ns) w
  unfolding check_nodes
  all-Ends [] w = record {
    after = w;
    runs = Runs-pure _ _;
    keeps = rely.stays w.db;
    hits = λ h. ground (arith, h);
  }
  all-Ends (n ∷ ns) w =
      let first = check-Ends n w in
      let rest = all-Ends ns first.after in
      record {
        after = rest.after;
        runs = Runs-bind _ first.runs rest.runs;
        keeps = rely.chain w.db first.after.db rest.after.db first.keeps rest.keeps;
        hits = λ aims here. elim (Bool-cases (is_target n)) [
          | inl e ↦ rest.keeps.marked (first.hits e here)
          | inr e ↦ rest.hits (ground (arith, aims, e)) (first.keeps.present here)
        ];
      }

  -- In an undisturbed run, a node that is in the table as healthy at a tick of the monitor, and was
  -- last seen longer ago than the threshold, is marked unhealthy when the tick ends, which it does
  -- without an error, whatever became of the rescheduling of this node's and other nodes' sandboxes.
  pub tick-IsMarked :
      (w : World) (n : Node)
      → find (node_has_id id) w.db.nodes ≡ some n
      → is_lost cfg now n ≡ true
      → (w' : World) × Runs env (monitor_tick cfg notifier now) w (ok tt) w' × IsMarked id w'.db
  unfolding monitor_tick list_nodes
  tick-IsMarked w n found lost =
      let ends = all-Ends (newest_first w.db.nodes) (after_call w w.db) in
      (
        ends.after,
        Runs-bind _ (Runs-attempt quiet _ w refl) ends.runs,
        ends.hits
            (any-newest_first is_target w.db.nodes
              ∙ found-any (node_has_id id) (is_lost cfg now) w.db.nodes n found lost)
            (any-find (node_has_id id) w.db.nodes ∙ ap is_some found),
      )
