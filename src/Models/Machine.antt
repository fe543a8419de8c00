-- ===== src/Models/Machine.antt =====
-- The state machine of shared-go/models/sandbox.go, seen from outside its table.
use appx_forge.Base.{◌≡◌, refl, ◌↔◌, true, none, some, arith}
use appx_forge.Models.{
  SandboxState, SandboxEvent, pending, starting, running, restarting, stopped, destroying,
  destroyed, failed, scheduled, started, container_exited, idle_timeout, destroy_requested,
  destroy_done, start_failed, next_state, is_terminal, state_eq,
}

pub state_eq_iff : (a b : SandboxState) → (state_eq a b ≡ true) ↔ (a ≡ b)
unfolding state_eq
state_eq_iff a b = ground arith

pub state_eq_refl : (a : SandboxState) → state_eq a a ≡ true
state_eq_refl a = (state_eq_iff a a).1 refl

stuck_only_terminal :
    (s : SandboxState) → ((e : SandboxEvent) → next_state s e ≡ none) → is_terminal s ≡ true
unfolding next_state is_terminal
stuck_only_terminal destroyed h = refl
stuck_only_terminal destroying h = cc (h destroy_done)
stuck_only_terminal _ h = cc (h destroy_requested)

terminal_stuck :
    (s : SandboxState) → is_terminal s ≡ true → (e : SandboxEvent) → next_state s e ≡ none
unfolding next_state is_terminal
terminal_stuck s h e = ground arith

-- `IsTerminal` holds of exactly the states that have no outgoing transition.
pub is_terminal_iff :
    (s : SandboxState) → (is_terminal s ≡ true) ↔ ((e : SandboxEvent) → next_state s e ≡ none)
is_terminal_iff s = (terminal_stuck s, stuck_only_terminal s)

-- A path through the table.
pub data Leads (s : SandboxState) : SandboxState → Type 0 where
  here : Leads s s
  by : {t u : SandboxState} (e : SandboxEvent) → Leads s t → next_state t e ≡ some u → Leads s u

from_pending : (s : SandboxState) → Leads pending s
unfolding next_state
from_pending pending = here
from_pending starting = by scheduled here refl
from_pending running = by started (by scheduled here refl) refl
from_pending restarting = by container_exited (by started (by scheduled here refl) refl) refl
from_pending stopped = by idle_timeout (by started (by scheduled here refl) refl) refl
from_pending destroying = by destroy_requested (by scheduled here refl) refl
from_pending destroyed = by destroy_requested here refl
from_pending failed = by start_failed (by scheduled here refl) refl

to_destroyed : (s : SandboxState) → Leads s destroyed
unfolding next_state
to_destroyed pending = by destroy_requested here refl
to_destroyed starting = by destroy_done (by destroy_requested here refl) refl
to_destroyed running = by destroy_done (by destroy_requested here refl) refl
to_destroyed restarting = by destroy_done (by destroy_requested here refl) refl
to_destroyed stopped = by destroy_requested here refl
to_destroyed destroying = by destroy_done here refl
to_destroyed destroyed = here
to_destroyed failed = by destroy_requested here refl

-- Every state can be reached from `pending`, and from every state `destroyed` can be reached.
pub next_state-Leads : (s : SandboxState) → Leads pending s × Leads s destroyed
next_state-Leads s = (from_pending s, to_destroyed s)
