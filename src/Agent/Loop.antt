-- ===== src/Agent/Loop.antt =====
-- The poll loop of agent/internal/agent/agent.go. The polls, the executions and the looks at the context
-- are numbered: what each meets is an argument. A pause between polls is a look at the context too.
mod Reporting
pub mod Order
use appx_forge.Base.{
  ℕ, zero, suc, Bool, true, false, List, [], ◌∷◌, ◌++◌, Result, ok, err, length, if◌then◌else◌,
}
use appx_forge.ControlClient.{ClientErr}
use appx_forge.Executor.{Command, CommandExecutor, Outside, Report}
use appx_forge.Executor.Handlers.{execute}

pub record LoopOutside : Type 0 where
  pub commands : ℕ → Result ClientErr (List Command)
  pub during : ℕ → Outside
  pub ended : ℕ → Bool

-- The executor, what it has reported, and the numbers of the polls and of the looks made.
pub record Polling : Type 0 where
  pub executor : CommandExecutor
  pub reports : List Report
  pub polls : ℕ
  pub looks : ℕ

unfoldable pub new_polling : CommandExecutor → Polling
new_polling e = record { executor = e; reports = []; polls = 0; looks = 0 }

abbrev pub looked : Polling → Polling
looked s = record s { looks = suc s.looks }

module _ (out : LoopOutside) where
  -- The error of an execution is only logged.
  unfoldable pub run_command : Command → Polling → Polling
  run_command cmd s =
      let (report, e) = execute (out.during (length s.reports)) cmd s.executor in
      record s { executor = e; reports = s.reports ++ report ∷ [] }

  -- The flag says whether the loop goes on; it returns when the context has ended.
  unfoldable pub run_commands : List Command → Polling → Bool × Polling
  run_commands [] s = (true, s)
  run_commands (cmd ∷ cmds) s =
      if out.ended s.looks
      then (false, looked s)
      else run_commands cmds (run_command cmd (looked s))

  -- After a poll that failed: the look at the context, and the pause.
  unfoldable pub after_error : Polling → Bool × Polling
  after_error s =
      if out.ended s.looks
      then (false, looked s)
      else if out.ended (looked s).looks
      then (false, looked (looked s))
      else (true, looked (looked s))

  unfoldable pub take_commands : Result ClientErr (List Command) → Polling → Bool × Polling
  take_commands (ok cmds) s = run_commands cmds s
  take_commands (err e) s = after_error s

  unfoldable pub poll_once : Polling → Bool × Polling
  poll_once s =
      if out.ended s.looks
      then (false, looked s)
      else take_commands (out.commands s.polls) (record (looked s) { polls = suc s.polls })

  -- The first `fuel` rounds of the loop.
  unfoldable pub poll_loop : ℕ → Polling → Bool × Polling
  poll_loop zero s = (true, s)
  poll_loop (suc fuel) s =
      let (goes_on, s') = poll_once s in
      let rest = poll_loop fuel s' in if goes_on then rest else (false, s')
