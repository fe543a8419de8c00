-- ===== src/Api/Agents/Polling.antt =====
-- The long poll as a queue: what it hands out, and what it leaves waiting.
use mathlib.Core.List.Perm
use appx_forge.Base.{ℕ, zero, suc, Option, some, List, [], ◌++◌, String, on_option}
use appx_forge.Base.Int.{ℤ}
use appx_forge.Store.{Command}
use appx_forge.Store.Commands.{poll_pending_commands, poll_rows}
use appx_forge.Store.Polling.{IsRowOrder}
use appx_forge.Store.Call.{Env, World, pure, ◌>>=◌}
use appx_forge.Store.Quiet.{IsQuiet, after_call}
use appx_forge.Api.{Handler}
use appx_forge.Api.Agents.{PollContext, CommandResponse, handle_poll_commands}

-- What an answer hands out; an answer that never came would hand out nothing.
abbrev pub commands_of : Option (ℕ × List CommandResponse) → List CommandResponse
commands_of answer = on_option answer (λ a. a.1) []

-- Long polls of one node, one after the other: all that they hand out.
unfoldable pub poll_times :
    PollContext → (ℕ → String) → ℕ → Option ℤ → ℕ → Handler (List CommandResponse)
poll_times ctx show node wait zero = pure []
poll_times ctx show node wait (suc k) = do
  answer ← handle_poll_commands ctx show (some node) wait
  rest ← poll_times ctx show node wait k
  pure (commands_of answer ++ rest)

module _ {env : Env} (quiet : IsQuiet env) (ctx : PollContext) (order : IsRowOrder ctx.rows)
    (show : ℕ → String) (node : ℕ) where
  -- The world after the statement, and its rows.
  abbrev polled : World → World
  unfolding poll_pending_commands
  polled w = after_call w (poll_pending_commands ctx.rows node w.db).1

  abbrev rows_of : World → List Command
  rows_of w = (poll_rows ctx.rows 10 node w.db.now w.db.commands).0
