-- ===== src/Lifecycle/History.antt =====
-- The history of one sandbox's row: its `state_version` counts the moves of its state.
use mathlib.Core.Option
use appx_forge.Base.{
  ℕ, zero, suc, ◌+◌, ◌≡◌, refl, sym, subst, inl, inr, Bool, true, Bool-cases, Option, none, some,
  List, arith, find, if◌then◌else◌, Option-cases,
}
use appx_forge.Models.{SandboxState, pending, starting, scheduled, next_state}
use appx_forge.Models.Machine.{state_eq_iff}
use appx_forge.Store.{Sandbox, Db}
use appx_forge.Store.Table.{update, find-update}
use appx_forge.Store.Sandboxes.{
  has_id, at_state, moved, assigned_row, one, transition_sandbox_state, assign_sandbox_to_node,
  update_sandbox_runtime, increment_sandbox_failure_count, reset_sandbox_failure_count,
}
use appx_forge.Store.Commands.{
  CreateCommandParams, create_command, insert_command, ack_command, record_event,
}
use appx_forge.Store.Call.{Env}
use appx_forge.Store.Rely.{IsRely}
use appx_forge.Lifecycle.Guarantee.{Move, by_table, Permits}

-- `Chain n s t`: n moves lead from s to t.
pub data Chain (s : SandboxState) : ℕ → SandboxState → Type 0 where
  done : Chain s zero s
  then_move : {n : ℕ} {t u : SandboxState} → Chain s n t → Move t u → Chain s (suc n) u

-- The row is still there, and as many moves as its version grew by lead to its state.
abbrev pub Lineage : Option Sandbox → Option Sandbox → Type 0
Lineage none o = Unit
Lineage (some r) none = ⊥
Lineage (some r) (some q) =
    (n : ℕ) × (q.state_version ≡ n + r.state_version) × Chain r.state n q.state

abbrev pub Historic : ℕ → Db → Db → Type 0
Historic id a b = Lineage (find (has_id id) a.sandboxes) (find (has_id id) b.sandboxes)

Chain-append :
    {s t u : SandboxState} {m n : ℕ}
    → Chain s m t
    → Chain t n u
    → (k : ℕ) × (k ≡ n + m) × Chain s k u
Chain-append {m} c done = (m, omega arith, c)
Chain-append c (then_move d h) =
    let (k, e, f) = Chain-append c d in (suc k, omega arith, then_move f h)

Lineage-refl : (o : Option Sandbox) → Lineage o o
Lineage-refl none = tt
Lineage-refl (some r) = (0, omega arith, done)

Lineage-trans : (a b c : Option Sandbox) → Lineage a b → Lineage b c → Lineage a c
Lineage-trans none b c h k = tt
Lineage-trans (some r) none c h k = absurd h
Lineage-trans (some r) (some q) none h k = k
Lineage-trans (some r) (some q) (some p) (m, e, c) (n, f, d) =
    let (k, g, x) = Chain-append c d in (k, omega arith, x)

pub Historic-IsRely :
    (id : ℕ) (env : Env)
    → ((n : ℕ) (db : Db) → Historic id db (env.interfere n db))
    → IsRely (Historic id) env
Historic-IsRely id env h = record {
  stays = λ db. Lineage-refl _;
  chain = λ a b c. Lineage-trans _ _ _;
  outside = h;
}

-- An update of the table whose effect on one row is a lineage is a step of every row's history.
module _ (id : ℕ) (p : Sandbox → Bool) (f : Sandbox → Sandbox) where
  Lineage-map :
      ((r : Sandbox) → p r ≡ true → Lineage (some r) (some (f r)))
      → (o : Option Sandbox) → Lineage o (Option.map (λ r. if p r then f r else r) o)
  Lineage-map h none = tt
  Lineage-map h (some r) = elim (Bool-cases (p r)) [
    | inl e ↦ rw e (h r e)
    | inr e ↦ rw e (Lineage-refl (some r))
  ]

  Lineage-update :
      ((r : Sandbox) → has_id id (f r) ≡ has_id id r)
      → ((r : Sandbox) → p r ≡ true → Lineage (some r) (some (f r)))
      → (rows : List Sandbox) → Lineage (find (has_id id) rows) (find (has_id id) (update p f rows))
  Lineage-update k h rows =
      subst (Lineage (find (has_id id) rows)) (sym (find-update (has_id id) p f rows k))
        (Lineage-map h (find (has_id id) rows))

Historic-one :
    (id : ℕ) (o : Option Sandbox) (a b : Db) → Historic id a b → Historic id a (one o a b).1
Historic-one id none a b h = Lineage-refl _
Historic-one id (some r) a b h = h

moved_by :
    (to : SandboxState) (now : ℕ) (r : Sandbox)
    → Move r.state to
    → Lineage (some r) (some (moved to now r))
moved_by to now r h = (1, omega arith, then_move done h)

at_state-eq :
    (id : ℕ) (from : SandboxState) (r : Sandbox) → at_state id from r ≡ true → r.state ≡ from
at_state-eq id from r h = (state_eq_iff r.state from).0 (ground arith)

Historic-transition :
    (id : ℕ) (from to : SandboxState) (target : ℕ)
    → Move from to
    → (db : Db) → Historic id db (transition_sandbox_state to target from db).1
unfolding transition_sandbox_state
Historic-transition id from to target m db = Historic-one id _ db _ (
    Lineage-update id (at_state target from) (moved to db.now) (λ r. refl)
      (λ r h. moved_by to db.now r (subst (λ s. Move s to) (sym (at_state-eq target from r h)) m))
      db.sandboxes)

placed : next_state pending scheduled ≡ some starting
unfolding next_state
placed = refl

Historic-assign :
    (id node target : ℕ) (db : Db)
    → Historic id db (assign_sandbox_to_node node none none target db).1
unfolding assign_sandbox_to_node
Historic-assign id node target db = Historic-one id _ db _ (
    Lineage-update id (at_state target pending) (assigned_row node none none db.now) (λ r. refl)
      (λ r h. (
        1,
        omega arith,
        then_move done (
            subst (λ s. Move s starting) (sym (at_state-eq target pending r h))
              (by_table pending starting scheduled placed)),
      ))
      db.sandboxes)

-- An update that leaves state and version alone.
Historic-quiet :
    (id : ℕ) (p : Sandbox → Bool) (f : Sandbox → Sandbox) (rows : List Sandbox)
    → ((r : Sandbox) → has_id id (f r) ≡ has_id id r)
    → ((r : Sandbox) → (f r).state ≡ r.state)
    → ((r : Sandbox) → (f r).state_version ≡ r.state_version)
    → Lineage (find (has_id id) rows) (find (has_id id) (update p f rows))
Historic-quiet id p f rows k s v =
    Lineage-update id p f k
      (λ r h. (0, omega (arith, v r), subst (Chain r.state 0) (sym (s r)) done)) rows

sandboxes-insert_command :
    (a : CreateCommandParams) (node : ℕ) (db : Db)
    → (insert_command a node db).1.sandboxes ≡ db.sandboxes
unfolding insert_command
sandboxes-insert_command a node db = ground arith

Historic-command :
    (id : ℕ) (a : CreateCommandParams) (db : Db) → Historic id db (create_command a db).1
unfolding create_command
Historic-command id a db = elim (Option-cases a.node_id) [
  | inl e ↦ rw (e, create_command) (Lineage-refl _)
  | inr (node, e) ↦
      rw (e, create_command)
        (subst (λ rows. Lineage (find (has_id id) db.sandboxes) (find (has_id id) rows))
          (sym (sandboxes-insert_command a node db)) (Lineage-refl _))
]

-- The statements of the handlers keep the history of every row.
pub Historic-permits : (id : ℕ) → Permits (Historic id)
unfolding update_sandbox_runtime increment_sandbox_failure_count reset_sandbox_failure_count
    ack_command record_event
Historic-permits id = record {
  move = λ from to target m db. Historic-transition id from to target m db;
  assign = λ node target db. Historic-assign id node target db;
  runtime = λ c p target db. Historic-quiet id _ _ db.sandboxes (λ r. refl) (λ r. refl) (λ r. refl);
  bump = λ target db.
      Historic-one id _ db _
        (Historic-quiet id _ _ db.sandboxes (λ r. refl) (λ r. refl) (λ r. refl));
  reset = λ target db. Historic-quiet id _ _ db.sandboxes (λ r. refl) (λ r. refl) (λ r. refl);
  command = Historic-command id;
  ack = λ target s r db. Lineage-refl _;
  event = λ a db. Lineage-refl _;
}
