-- ===== src/Agent/Forwarding.antt =====
-- forwardEvents and resolveSandboxID of agent/internal/agent/agent.go: events of containers become
-- reports to the control plane.
pub mod Loss
use appx_forge.Base.{
  ℕ, zero, suc, Bool, true, false, List, [], ◌∷◌, ◌++◌, String, str_eq, length, select,
  if◌then◌else◌,
}
use appx_forge.Base.Int.{ℤ, pos}
use appx_forge.Executor.{SandboxInfo, CommandExecutor}
use appx_forge.ControlClient.{Client, ClientOutside, report_event}
use appx_forge.Watcher.{SandboxEvent}

-- The payload is the object with `oom_killed`, or none.
pub record EventReport : Type 0 where
  pub sandbox_id : String
  pub event_type : String
  pub container_id : String
  pub exit_code : ℤ
  pub oom_payload : Bool

abbrev pub named : String → List (String × SandboxInfo) → List (String × SandboxInfo)
named app_name m = select (λ (id, info). str_eq info.app_name app_name) m

-- The key of the entry that an iteration comes to after `turn` others, or of the last.
unfoldable pub pick : ℕ → String → List (String × SandboxInfo) → String
pick turn fallback [] = fallback
pick zero fallback ((id, info) ∷ rest) = id
pick (suc turn) fallback ((id, info) ∷ rest) = pick turn id rest

-- The map is iterated in any order, so any entry of that name may be met first; `turn` says which.
unfoldable pub resolve_sandbox_id : ℕ → String → CommandExecutor → String
resolve_sandbox_id turn app_name e = pick turn app_name (named app_name e.sandboxes)

-- Sscanf's %d; what the n-th event meets: the executor, the order of its map, the context.
pub record ForwardOutside : Type 0 where
  pub scan : String → ℤ
  pub executor : ℕ → CommandExecutor
  pub turn : ℕ → ℕ
  pub ended : ℕ → Bool

unfoldable pub event_report : (String → ℤ) → ℕ → CommandExecutor → SandboxEvent → EventReport
event_report scan turn e ev = record {
  sandbox_id = resolve_sandbox_id turn ev.app_name e;
  event_type = ev.event_type;
  container_id = ev.container_id;
  exit_code = if str_eq ev.exit_code "" then pos 0 else scan ev.exit_code;
  oom_payload = ev.oom_killed;
}

pub record Forwarding : Type 0 where
  pub client : Client
  pub reports : List EventReport

-- The loop over what the channel gives until it is closed; an error of a report is only logged.
unfoldable pub forward_events :
    ForwardOutside → ClientOutside → ℕ → List SandboxEvent → Forwarding → Forwarding
forward_events out server n [] s = s
forward_events out server n (ev ∷ evs) s =
    if out.ended n
    then s
    else forward_events out server (suc n) evs (record {
      client = (report_event server s.client).1;
      reports = s.reports ++ event_report out.scan (out.turn n) (out.executor n) ev ∷ [];
    })
