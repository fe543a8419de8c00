-- ===== src/Executor/Tracking.antt =====
-- The executor and the allocator agree: every tracked sandbox holds its own port.
use appx_forge.Base.{
  ◌∙◌, ℕ, ◌≡◌, refl, sym, true, Bool-cases, some, List, [], ◌∷◌, String, str_eq_iff, inl, inr, ◌==◌,
  ==_iff, arith,
}
use appx_forge.Ports.{new_allocator}
use appx_forge.Ports.Partition.{IsPartition, new_allocator-IsPartition}
use appx_forge.Ports.Pool.{held}
use appx_forge.Executor.{
  SandboxInfo, Command, Outside, CommandExecutor, Report, new_command_executor,
}
use appx_forge.Base.Dict.{lookup, lookup-put_cases, lookup-drop-some}
use appx_forge.Executor.Handlers.{execute}
use appx_forge.Executor.Effects.{Effect, nothing, port_returned, starts, stops, execute-Effect}

-- `info` is what the map has under `id`.
abbrev pub Tracks : CommandExecutor → String → SandboxInfo → Type 0
Tracks e id info = lookup id e.sandboxes ≡ some info

pub record IsTracking (e : CommandExecutor) : Type 0 where
  pub partition : IsPartition e.ports
  pub holds :
      (id : String) (info : SandboxInfo) → Tracks e id info → held e.ports info.host_port ≡ true
  pub apart :
      (id id' : String) (info info' : SandboxInfo)
      → Tracks e id info
      → Tracks e id' info'
      → info.host_port ≡ info'.host_port
      → id ≡ id'

pub new_command_executor-IsTracking :
    (min max : ℕ) (dir : String) → IsTracking (new_command_executor (new_allocator min max) dir)
unfolding new_command_executor lookup
new_command_executor-IsTracking min max dir = record {
  partition = new_allocator-IsPartition min max;
  holds = λ id info t. ground arith;
  apart = λ id id' info info' t t' s. ground arith;
}

Effect-IsTracking :
    (cmd : Command) (e : CommandExecutor) (r : Report × CommandExecutor)
    → Effect cmd e r
    → IsTracking e
    → IsTracking r.1
Effect-IsTracking cmd e _ (nothing r n) h = h
Effect-IsTracking cmd e _ (port_returned r e' n s k p) h = record {
  partition = p;
  holds = λ id info t. ground (arith, h.holds id info, s, k info.host_port);
  apart = λ id id' info info' t t' o.
      h.apart id id' info info' (ground (arith, s)) (ground (arith, s)) o;
}
Effect-IsTracking cmd e _ (starts r e' new _ _ s f k p) h = record {
  partition = p;
  holds = λ id info t.
      elim (lookup-put_cases id cmd.sandbox_id new info e.sandboxes (ground (arith, s))) [
        | inl (_, i) ↦ ground (arith, i, k info.host_port, ==_iff new.host_port info.host_port)
        | inr (_, l) ↦ ground (arith, h.holds id info l, k info.host_port)
      ];
  apart = λ id id' info info' t t' o.
      elim (lookup-put_cases id cmd.sandbox_id new info e.sandboxes (ground (arith, s))) [
        | inl (i, j) ↦
            elim (lookup-put_cases id' cmd.sandbox_id new info' e.sandboxes (ground (arith, s))) [
              | inl (i', j') ↦ ground arith
              | inr (i', l') ↦ ground (arith, h.holds id' info' l')
            ]
        | inr (i, l) ↦
            elim (lookup-put_cases id' cmd.sandbox_id new info' e.sandboxes (ground (arith, s))) [
              | inl (i', j') ↦ ground (arith, h.holds id info l)
              | inr (i', l') ↦ h.apart id id' info info' l l' o
            ]
      ];
}
Effect-IsTracking cmd e _ (stops r e' old _ _ l s k p) h = record {
  partition = p;
  holds = λ id info t.
      let (n, l') = lookup-drop-some id cmd.sandbox_id info e.sandboxes (ground (arith, s)) in
      elim (Bool-cases (old.host_port == info.host_port)) [
        | inl e ↦
            elim (n (
              h.apart id cmd.sandbox_id info old l' l
                (sym ((==_iff old.host_port info.host_port).0 e)))) [ ]
        | inr e ↦ ground (arith, h.holds id info l', k info.host_port)
      ];
  apart = λ id id' info info' t t' o.
      let (_, l1) = lookup-drop-some id cmd.sandbox_id info e.sandboxes (ground (arith, s)) in
      let (_, l2) = lookup-drop-some id' cmd.sandbox_id info' e.sandboxes (ground (arith, s)) in
      h.apart id id' info info' l1 l2 o;
}

pub execute-IsTracking :
    (out : Outside) (cmd : Command) (e : CommandExecutor)
    → IsTracking e
    → IsTracking (execute out cmd e).1
execute-IsTracking out cmd e h =
    Effect-IsTracking cmd e (execute out cmd e) (execute-Effect out cmd e h.partition) h

-- The commands of an agent, one after the other, each with what it meets outside.
unfoldable pub execute_all : List (Outside × Command) → CommandExecutor → CommandExecutor
execute_all [] e = e
execute_all ((out, cmd) ∷ rest) e = execute_all rest (execute out cmd e).1

pub execute_all-IsTracking_from :
    (run : List (Outside × Command)) (e : CommandExecutor)
    → IsTracking e
    → IsTracking (execute_all run e)
unfolding execute_all
execute_all-IsTracking_from [] e h = h
execute_all-IsTracking_from ((out, cmd) ∷ rest) e h =
    execute_all-IsTracking_from rest (execute out cmd e).1 (execute-IsTracking out cmd e h)

-- Whatever commands a new executor carries out and whatever Docker and the decoders answer, every
-- tracked sandbox holds its host port in the allocator, no two of them the same port, and the
-- allocator's maps split the range.
pub execute_all-IsTracking :
    (run : List (Outside × Command)) (min max : ℕ) (dir : String)
    → IsTracking (execute_all run (new_command_executor (new_allocator min max) dir))
execute_all-IsTracking run min max dir =
    execute_all-IsTracking_from run (new_command_executor (new_allocator min max) dir)
      (new_command_executor-IsTracking min max dir)

-- The same sandboxes are tracked and the same ports are held.
pub record Unchanged (e e' : CommandExecutor) : Type 0 where
  pub sandboxes : e'.sandboxes ≡ e.sandboxes
  pub ports : (p : ℕ) → held e'.ports p ≡ held e.ports p

status_apart : ¬ Path String "success" "failure"
status_apart h = ground (arith, (str_eq_iff "success" "failure").1 h)

Effect-Unchanged :
    (cmd : Command) (e : CommandExecutor) (r : Report × CommandExecutor)
    → Effect cmd e r
    → r.0.ack.status ≡ "failure"
    → Unchanged e r.1
Effect-Unchanged cmd e _ (nothing r n) f = record { sandboxes = refl; ports = λ p. refl }
Effect-Unchanged cmd e _ (port_returned r e' n s k p) f = record { sandboxes = s; ports = k }
Effect-Unchanged cmd e _ (starts r e' info st _ s _ k p) f = elim (status_apart (sym st ∙ f)) [ ]
Effect-Unchanged cmd e _ (stops r e' info st _ l s k p) f = elim (status_apart (sym st ∙ f)) [ ]

-- Where the maps of the allocator split its range, a command that the executor acknowledges with a
-- failure, whatever went wrong, leaves the tracked sandboxes and the held ports as they were.
pub failure-Unchanged :
    (out : Outside) (cmd : Command) (e : CommandExecutor)
    → IsPartition e.ports
    → (execute out cmd e).0.ack.status ≡ "failure"
    → Unchanged e (execute out cmd e).1
failure-Unchanged out cmd e h =
    Effect-Unchanged cmd e (execute out cmd e) (execute-Effect out cmd e h)
