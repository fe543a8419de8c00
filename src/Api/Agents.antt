-- ===== src/Api/Agents.antt =====
-- control/internal/api/agents.go: what agents ask of the control plane, and the redirect of a file
-- push to an agent. The long poll's loop runs on the clock of its ticker and its deadline, on fuel.
pub mod Drained
pub mod Polling
pub mod Waiting
pub mod Redirect
mod Tests
use appx_forge.Base.{
  ℕ, zero, suc, ◌+◌, ◌*◌, ◌/◌, ◌||◌, ◌&&◌, not, Bool, true, false, Option, none, some, List, [],
  ◌∷◌, String, str_append, str_eq, Result, ok, err, ltb, map, on_result, on_option, if◌then◌else◌,
}
use appx_forge.Base.Int.{ℤ, pos, negsuc}
use appx_forge.Models.{CommandType}
use appx_forge.Store.{Command, Node, Sandbox, Payload, DbErr}
use appx_forge.Store.Commands.{RowOrder, poll_pending_commands, get_command}
use appx_forge.Store.Sandboxes.{get_sandbox, update_sandbox_last_active}
use appx_forge.Store.Nodes.{get_node}
use appx_forge.Store.Call.{M, pure, fail, attempt, catch, query, ◌>>=◌, ◌>>◌}
use appx_forge.Lifecycle.{LifecycleService}
use appx_forge.Lifecycle.Ack.{handle_ack}
use appx_forge.Lifecycle.Events.{handle_event}
use appx_forge.Api.{
  Handler, bad_request, not_found, service_unavailable, internal_error, reject_if, require,
}

-- A command as the agent sees it.
pub record CommandResponse : Type 0 where
  pub id : ℕ
  pub command_type : CommandType
  pub sandbox_id : Option ℕ
  pub payload : Payload
  pub issued_at : String
  pub timeout_seconds : ℕ

abbrev pub command_response : (ℕ → String) → Command → CommandResponse
command_response show_time c = record {
  id = c.id;
  command_type = c.command_type;
  sandbox_id = c.sandbox_id;
  payload = c.payload;
  issued_at = show_time c.created_at;
  timeout_seconds = c.timeout_seconds;
}

unfoldable pub map_commands : (ℕ → String) → List Command → List CommandResponse
map_commands show_time cmds = map (command_response show_time) cmds

-- The seconds to wait; `none` is a parameter that is missing or no number.
unfoldable pub wait_seconds : Option ℤ → ℕ
wait_seconds none = 30
wait_seconds (some (negsuc n)) = 1
wait_seconds (some (pos n)) = if ltb n 1 then 1 else if ltb 60 n then 60 else n

-- What lies outside of a long poll. Instants are in milliseconds from the start of the ticker, which
-- starts with the deadline: `took` is how long the statement of a number takes, `left` when the
-- client leaves, if it does, and `done_first` which of two channels that are ready together a select
-- takes, by the number of statements before it.
pub record PollContext : Type 0 where
  pub took : ℕ → ℕ
  pub left : Option ℕ
  pub done_first : ℕ → Bool
  pub rows : RowOrder

-- `period` is the number of the period in which the last tick was taken: the ticker holds at most one
-- tick, so those that it dropped meanwhile are not made up for.
pub record PollClock : Type 0 where
  pub now : ℕ
  pub period : ℕ
  pub statements : ℕ

abbrev pub poll_interval : ℕ
poll_interval = 1000

abbrev poll_failed : {A : Type 0} → Handler A
poll_failed = fail (internal_error "failed to poll commands")

abbrev pub PollAnswer : Type 0
PollAnswer = Option (ℕ × List CommandResponse)

-- `wait` is in seconds.
module _ (ctx : PollContext) (show_time : ℕ → String) (node_id wait : ℕ) where
  -- When the context ends: at the deadline, or when the client leaves before.
  unfoldable pub ends_at : ℕ
  ends_at = on_option ctx.left (λ l. if ltb l (wait * 1000) then l else wait * 1000) (wait * 1000)

  -- When the next tick can be received.
  abbrev pub tick_at : PollClock → ℕ
  tick_at s =
      let due_at = (s.period + 1) * poll_interval in if ltb due_at s.now then s.now else due_at

  abbrev pub done_at : PollClock → ℕ
  done_at s = if ltb ends_at s.now then s.now else ends_at

  unfoldable pub takes_done : PollClock → Bool
  takes_done s =
      ltb (done_at s) (tick_at s)
      || (not (ltb (tick_at s) (done_at s)) && ctx.done_first s.statements)

  -- After the statement of the tick that is received.
  abbrev pub ticked : PollClock → PollClock
  ticked s = record {
    now = tick_at s + ctx.took s.statements;
    period = tick_at s / poll_interval;
    statements = s.statements + 1;
  }

  -- A poll's rows or error, before the rest of the loop; `ended` is whether the context has an error.
  unfoldable pub poll_tick :
      Bool → Handler PollAnswer → Result DbErr (List Command) → Handler PollAnswer
  poll_tick ended rest (ok []) = rest
  poll_tick ended rest (ok (c ∷ cs)) = pure (some (200, map_commands show_time (c ∷ cs)))
  poll_tick ended rest (err e) = if ended then pure (some (200, [])) else poll_failed

  -- On fuel; `none` is its end. In a context that has ended a statement fails before it is sent.
  unfoldable pub poll_loop : ℕ → PollClock → Handler PollAnswer
  poll_loop zero s = pure none
  poll_loop (suc fuel) s =
      let rest = poll_loop fuel (ticked s) in
      if takes_done s || not (ltb (tick_at s) ends_at) then pure (some (200, [])) else (do
        cmds ← attempt (poll_pending_commands ctx.rows node_id)
        poll_tick (not (ltb (ticked s).now ends_at)) rest cmds)

-- The first poll's errors are errors even when the context has ended.
unfoldable pub handle_poll_commands :
    PollContext → (ℕ → String) → Option ℕ → Option ℤ → Handler PollAnswer
handle_poll_commands ctx show_time id wait = do
  node_id ← require id (bad_request "invalid node ID: must be a valid UUID")
  let seconds = wait_seconds wait
  cmds ← attempt (poll_pending_commands ctx.rows node_id)
  poll_tick ctx show_time node_id seconds false
      (poll_loop ctx show_time node_id seconds seconds
        (record { now = ctx.took 0; period = 0; statements = 1 }))
      cmds

-- An absent result and an absent error are empty texts.
pub record AckRequest : Type 0 where
  pub status : String
  pub error : String
  pub ack_result : String

-- `error_object` is the JSON object with the error.
unfoldable pub ack_payload : (String → String) → AckRequest → String
ack_payload error_object req =
    if str_eq req.ack_result ""
    then (if str_eq req.error "" then "" else error_object req.error)
    else req.ack_result

-- The lifecycle's error becomes a 500.
abbrev or_internal : {X : Type 0} → String → M X (Unit {0}) → Handler ℕ
or_internal detail m =
    catch m >>= λ r. on_result r (λ _. pure 200) (λ _. fail (internal_error detail))

-- The command's sandbox; a NULL has the zero bytes.
unfoldable pub handle_ack_command :
    LifecycleService → (String → String) → Option ℕ → Option ℕ → Option AckRequest → Handler ℕ
handle_ack_command ls error_object id cmd body = do
  require id (bad_request "invalid node ID: must be a valid UUID")
  cmd_id ← require cmd (bad_request "invalid command ID: must be a valid UUID")
  req ← require body (bad_request "invalid JSON body")
  c ← query (λ e. not_found "command not found") (get_command cmd_id)
  or_internal "failed to process acknowledgment" (
      handle_ack ls cmd_id (on_option c.sandbox_id (λ s. s) 0) c.command_type req.status
        (ack_payload error_object req))

-- `sandbox` is what the parser makes of `sandbox_id`.
pub record EventRequest : Type 0 where
  pub sandbox_id : String
  pub sandbox : Option ℕ
  pub event_type : String
  pub payload : String

unfoldable pub handle_report_event : LifecycleService → Option ℕ → Option EventRequest → Handler ℕ
handle_report_event ls id body = do
  node_id ← require id (bad_request "invalid node ID: must be a valid UUID")
  req ← require body (bad_request "invalid JSON body")
  reject_if (str_eq req.sandbox_id "") (bad_request "sandbox_id is required")
  reject_if (str_eq req.event_type "") (bad_request "event_type is required")
  sandbox ← require req.sandbox (bad_request "sandbox_id must be a valid UUID")
  or_internal "failed to process event" (handle_event ls node_id sandbox req.event_type req.payload)

-- The texts of ports and of identifiers, and the signing of the shared package: a duration in seconds
-- is the last argument, and the secret is the server's.
pub record PushOutside (Text : Type 0) : Type 0 where
  pub show_port : ℤ → String
  pub show_uuid : ℕ → String
  pub as_text : String → Text
  pub sign_url : Text → ℕ → Option Text

abbrev pub push_path : String → String
push_path id = str_append "/v1/sandboxes/" (str_append id "/files")

abbrev pub agent_origin : String → String → String
agent_origin ip port = str_append "http://" (str_append ip (str_append ":" port))

abbrev pub agent_url : {Text : Type 0} → PushOutside Text → String → ℤ → ℕ → String
agent_url out ip port id =
    str_append (agent_origin ip (out.show_port port)) (push_path (out.show_uuid id))

-- The answer's status and its Location.
unfoldable pub handle_file_push : {Text : Type 0} → PushOutside Text → Option ℕ → Handler (ℕ × Text)
handle_file_push out id = do
  pg_id ← require id (bad_request "invalid sandbox ID: must be a valid UUID")
  sandbox ← query (λ e. not_found "sandbox not found") (get_sandbox pg_id)
  node_id ← require sandbox.node_id (service_unavailable "sandbox not yet scheduled to a node")
  node ← query (λ e. internal_error "failed to resolve sandbox node") (get_node node_id)
  signed_url ←
      require
        (out.sign_url (out.as_text (agent_url out node.tailscale_ip node.agent_listen_port pg_id))
          60)
        (internal_error "failed to generate signed URL")
  attempt (update_sandbox_last_active pg_id)
  pure (307, signed_url)
