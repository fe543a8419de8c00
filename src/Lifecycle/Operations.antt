-- ===== src/Lifecycle/Operations.antt =====
-- The operations of the control plane on existing sandboxes, in any order: acknowledgments and
-- events of agents, requests of clients, failed nodes and ticks of the reaper.
use appx_forge.Base.{
  ℕ, suc, ◌+◌, ◌≡◌, refl, ap, subst, ◌⊎◌, inl, inr, Option, none, some, List, [], ◌∷◌, String,
  arith, find,
}
use appx_forge.Models.{SandboxState, SandboxEvent, CommandType, destroying, destroyed, next_state}
use appx_forge.Store.{Sandbox, Db}
use appx_forge.Store.Sandboxes.{has_id}
use appx_forge.Store.Call.{Env, World, M, catch, ◌>>◌, pure}
use appx_forge.Store.Rely.{IsRely, Keeps, Keeps-bind, Keeps-pure, Keeps-catch}
use appx_forge.Lifecycle.{Err, LifecycleService}
use appx_forge.Lifecycle.Ack.{handle_ack}
use appx_forge.Lifecycle.Events.{handle_event}
use appx_forge.Lifecycle.Requests.{destroy_sandbox, wake_sandbox, restart_running}
use appx_forge.Lifecycle.Reschedule.{reschedule_node}
use appx_forge.Lifecycle.Reaper.{reap}
use appx_forge.Lifecycle.Guarantee.{Move, by_table, exhausted, unplaced}
use appx_forge.Lifecycle.Guarantee.Handlers.{Keeps-handle_ack, Keeps-handle_event}
use appx_forge.Lifecycle.Guarantee.Placement.{
  Keeps-destroy_sandbox, Keeps-wake_sandbox, Keeps-restart_running, Keeps-reschedule_node,
  Keeps-reap,
}
use appx_forge.Lifecycle.History.{
  Chain, done, then_move, Lineage, Historic, Historic-IsRely, Historic-permits,
}

pub data Operation : Type 0 where
  acks : ℕ → ℕ → CommandType → String → String → Operation
  reports : ℕ → ℕ → String → String → Operation
  destroys wakes restarts : ℕ → Operation
  loses_node : ℕ → Operation
  reaps : Operation

-- One operation; what it returns to its caller does not matter here.
unfoldable pub perform : LifecycleService → Operation → M Err (Unit {0})
perform ls (acks cmd id t status result) = handle_ack ls cmd id t status result
perform ls (reports node id text payload) = handle_event ls node id text payload
perform ls (destroys id) = destroy_sandbox id
perform ls (wakes id) = wake_sandbox id
perform ls (restarts id) = restart_running id
perform ls (loses_node node) = reschedule_node ls.route_notifier node >> pure tt
perform ls reaps = reap ls.route_notifier >> pure tt

-- A run of operations, each of which may fail.
unfoldable pub perform_all : LifecycleService → List Operation → M Err (Unit {0})
perform_all ls [] = pure tt
perform_all ls (op ∷ ops) = do catch {X = Err} (perform ls op); perform_all ls ops

module _ (id : ℕ) (env : Env)
    (outside : (n : ℕ) (db : Db) → Historic id db (env.interfere n db)) where
  rely : IsRely (Historic id) env
  rely = Historic-IsRely id env outside

  Keeps-perform : (ls : LifecycleService) (op : Operation) → Keeps (Historic id) env (perform ls op)
  unfolding perform
  Keeps-perform ls (acks cmd s t status result) =
      Keeps-handle_ack rely (Historic-permits id) ls cmd s t status result
  Keeps-perform ls (reports node s text payload) =
      Keeps-handle_event rely (Historic-permits id) ls node s text payload
  Keeps-perform ls (destroys s) = Keeps-destroy_sandbox rely (Historic-permits id) s
  Keeps-perform ls (wakes s) = Keeps-wake_sandbox rely (Historic-permits id) s
  Keeps-perform ls (restarts s) = Keeps-restart_running rely (Historic-permits id) s
  Keeps-perform ls (loses_node node) =
      Keeps-bind rely (Keeps-reschedule_node rely (Historic-permits id) ls.route_notifier node)
        λ _. Keeps-pure rely tt
  Keeps-perform ls reaps =
      Keeps-bind rely (Keeps-reap rely (Historic-permits id) ls.route_notifier)
        λ _. Keeps-pure rely tt

  Keeps-perform_all :
      (ls : LifecycleService) (ops : List Operation) → Keeps (Historic id) env (perform_all ls ops)
  unfolding perform_all
  Keeps-perform_all ls [] = Keeps-pure rely tt
  Keeps-perform_all ls (op ∷ ops) =
      Keeps-bind rely (Keeps-catch rely (Keeps-perform ls op)) λ _. Keeps-perform_all ls ops

  -- Let the rest of the system never remove the row of `id`, and change its state by moves only, each
  -- with one step of `state_version`. Then across any run of operations, with any failures of the
  -- database, the row stays and its `state_version` grows by exactly the number of the moves that lead
  -- from its state before to its state after. A move is an entry of the transition table, or
  -- running → failed (restarts exhausted), or pending → failed (no node for a rescheduled sandbox).
  pub perform_all-Historic :
      (ls : LifecycleService) (ops : List Operation) (w : World)
      → Historic id w.db (perform_all ls ops env w).1.db
  perform_all-Historic ls ops w = (Keeps-perform_all ls ops).run w

no_exit : (s t : SandboxState) (e : SandboxEvent) → next_state s e ≡ some t → s ≡ destroyed → ⊥
unfolding next_state
no_exit s t e h k = ground arith

one_exit :
    (s t : SandboxState) (e : SandboxEvent)
    → next_state s e ≡ some t
    → s ≡ destroying
    → t ≡ destroyed
unfolding next_state
one_exit s t e h k = ground arith

no-Move : {s t : SandboxState} → Move s t → s ≡ destroyed → ⊥
no-Move (by_table s t e h) k = no_exit s t e h k
no-Move exhausted k = cc
no-Move unplaced k = cc

one-Move : {s t : SandboxState} → Move s t → s ≡ destroying → t ≡ destroyed
one-Move (by_table s t e h) k = one_exit s t e h k
one-Move exhausted k = cc
one-Move unplaced k = cc

Chain-destroyed :
    {s t : SandboxState} {n : ℕ} → Chain s n t → s ≡ destroyed → (t ≡ destroyed) × (n ≡ 0)
Chain-destroyed done k = (k, refl)
Chain-destroyed (then_move c m) k = absurd (no-Move m (Chain-destroyed c k).0)

Chain-destroying :
    {s t : SandboxState} {n : ℕ}
    → Chain s n t
    → s ≡ destroying
    → ((t ≡ destroying) × (n ≡ 0)) ⊎ ((t ≡ destroyed) × (n ≡ 1))
Chain-destroying done k = inl (k, refl)
Chain-destroying (then_move c m) k = elim (Chain-destroying c k) [
  | inl (e, z) ↦ inr (one-Move m e, ap suc z)
  | inr (e, z) ↦ absurd (no-Move m e)
]

-- What is left of a row that was on its way out.
abbrev pub Fate : Sandbox → Option Sandbox → Type 0
Fate r none = ⊥
Fate r (some q) =
    (r.state ≡ destroyed → (q.state ≡ destroyed) × (q.state_version ≡ r.state_version))
    × (r.state ≡ destroying
        → ((q.state ≡ destroying) × (q.state_version ≡ r.state_version))
          ⊎ ((q.state ≡ destroyed) × (q.state_version ≡ r.state_version + 1)))

Lineage-Fate : (r : Sandbox) (o : Option Sandbox) → Lineage (some r) o → Fate r o
Lineage-Fate r none h = h
Lineage-Fate r (some q) (n, e, c) =
    (λ k. first (Chain-destroyed c k), λ k. second (Chain-destroying c k))
  where
    first :
        (q.state ≡ destroyed) × (n ≡ 0)
        → (q.state ≡ destroyed) × (q.state_version ≡ r.state_version)
    first (a, z) = (a, omega arith)

    second :
        ((q.state ≡ destroying) × (n ≡ 0)) ⊎ ((q.state ≡ destroyed) × (n ≡ 1))
        → ((q.state ≡ destroying) × (q.state_version ≡ r.state_version))
          ⊎ ((q.state ≡ destroyed) × (q.state_version ≡ r.state_version + 1))
    second (inl (a, z)) = inl (a, omega arith)
    second (inr (a, z)) = inr (a, omega arith)

-- Under the same assumption on the rest of the system, no run of operations revives a sandbox: a
-- destroyed row stays destroyed at its version, and a destroying row either is untouched or has
-- become destroyed by one move. Neither is removed.
pub perform_all-Fate :
    (id : ℕ) (env : Env)
    → ((n : ℕ) (db : Db) → Historic id db (env.interfere n db))
    → (ls : LifecycleService) (ops : List Operation) (w : World) (r : Sandbox)
    → find (has_id id) w.db.sandboxes ≡ some r
    → Fate r (find (has_id id) (perform_all ls ops env w).1.db.sandboxes)
perform_all-Fate id env outside ls ops w r h = Lineage-Fate r _ (
    subst (λ o. Lineage o (find (has_id id) (perform_all ls ops env w).1.db.sandboxes)) h
      (perform_all-Historic id env outside ls ops w))
