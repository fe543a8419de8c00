-- ===== src/Api/Agents/Tests.antt =====
-- The long poll's theorems at concrete inputs.
use mathlib.Core.List.{reverse}
use mathlib.Core.List.Perm
use appx_forge.Base.{
  List, ◌≢◌, false, ℕ, ◌+◌, ◌≤◌, ◌≡◌, refl, false, none, some, [], ◌∷◌, ok, String, arith,
  trim_prefix,
}
use appx_forge.Models.{running, start_sandbox}
use appx_forge.Store.{Command, empty_object}
use appx_forge.Store.Commands.{new_command, RowOrder}
use appx_forge.Store.Call.{World}
use appx_forge.Store.Quiet.{Runs}
use appx_forge.TestData.{sandbox_at, node_one, world_of, calm, calm-IsQuiet}
use appx_forge.Api.Agents.{PollContext, wait_seconds, handle_poll_commands, handle_file_push}
use appx_forge.Auth.{Url, Values}
use appx_forge.Auth.Plain.{tally, plain_codec, plain_codec-IsCodec}
use appx_forge.Store.Keys.{row}
use appx_forge.Api.Agents.Redirect.{push_outside, push_url, IsPushUrl, push-accepted}
use appx_forge.Api.Agents.Waiting.{handle_poll-calls}

abbrev start_number : ℕ → Command
start_number n =
    new_command
      (record {
        id = n;
        node_id = some 1;
        sandbox_id = some 7;
        command_type = start_sandbox;
        payload = empty_object;
        timeout_seconds = 60;
      })
      1 90

abbrev two_waiting : World
two_waiting =
    let w = world_of (sandbox_at running 0) in
    record w { db = record w.db { commands = start_number 3 ∷ start_number 4 ∷ [] } }

-- Rows come back in the reverse of the order in which they are met.
abbrev backwards : RowOrder
backwards = record { scanned = λ cs. cs; returned = reverse }

abbrev patient : PollContext
patient = record { took = λ n. 1500; left = none; done_first = λ n. false; rows = backwards }

handle_poll-calls_example :
    ((handle_poll_commands patient (λ t. "") (some 1) none calm two_waiting).0 ≢ ok none)
    × ((handle_poll_commands patient (λ t. "") (some 1) none calm two_waiting).1.calls
        ≤ two_waiting.calls + wait_seconds none)
    × (wait_seconds none ≤ 60)
handle_poll-calls_example = handle_poll-calls calm patient (λ t. "") (some 1) none two_waiting

-- The text of a URL of the agent of node 1, taken apart.
abbrev no_values : Values (Unit {0})
no_values = record { expires = []; sig = []; others = tt }

abbrev node_origin : String
node_origin = "http://100.64.0.1:8090"

abbrev taken_apart : String → Url (Values (Unit {0}))
taken_apart s = record {
  origin = node_origin;
  path = trim_prefix s node_origin;
  raw_query = no_values;
}

push-accepted_example :
    (signed : Url (Values (Unit {0}))) × (w' : World) × Runs calm
      (handle_file_push (push_outside plain_codec (λ p. "8090") tally taken_apart "k" 100) (some 7))
      (world_of (sandbox_at running 0))
      (ok (307, signed))
      w'
    × (row 7 w'.db ≡ some (record (sandbox_at running 0) { last_active_at = 100 }))
    × IsPushUrl plain_codec plain_codec-IsCodec "k" 160
        (push_url (λ p. "8090") tally node_one 7 no_values)
        signed
push-accepted_example =
    push-accepted calm-IsQuiet plain_codec plain_codec-IsCodec (λ p. "8090") tally taken_apart "k"
      100 7 1 (world_of (sandbox_at running 0)) (sandbox_at running 0) node_one no_values refl refl
      refl refl refl (λ q. refl) (omega arith)
