-- ===== src/ControlClient.antt =====
-- agent/internal/controlclient/client.go: registration with retries, and the requests that register
-- again when the control plane does not know the node, and the reports of events. What the server
-- answers to the n-th request, what the decoder makes of that answer as a list of commands, and
-- whether the context ends in the n-th pause, are arguments.
pub mod Registering
pub mod Retrying
mod Tests
use appx_forge.Executor.{Command}
use appx_forge.Base.{
  ℕ, zero, suc, ◌+◌, ◌*◌, Bool, true, false, not, ◌&&◌, ◌||◌, Option, none, some, List, [], ◌∷◌,
  ◌++◌, String, str_eq, Result, ok, err, leb, ltb, ◌==◌, length, on_option, if◌then◌else◌,
}

pub data Endpoint : Type 0 where
  registration heartbeat poll ack event : Endpoint

-- A request: to which endpoint, under which node and bearer token.
pub record Request : Type 0 where
  pub endpoint : Endpoint
  pub node : String
  pub bearer : String

-- No response, or a status and what the decoder makes of the body as a registration's.
pub data Reply : Type 0 where
  no_reply : Reply
  replied : ℕ → Option (String × String) → Reply

-- The fields of the client that change, and what it has done: its requests and its pauses, in seconds.
pub record Client : Type 0 where
  pub node_id : String
  pub token : String
  pub requests : List Request
  pub pauses : List ℕ

pub record ClientOutside : Type 0 where
  pub api_token : String
  pub reply : ℕ → Reply
  pub ends : ℕ → Bool
  pub commands : ℕ → Option (List Command)

pub data ClientErr : Type 0 where
  unanswered : ClientErr
  refused : ℕ → ClientErr
  undecodable : ClientErr
  context_ended : ClientErr

module _ (out : ClientOutside) where
  unfoldable pub auth_token : Client → String
  auth_token c = if str_eq out.api_token "" then c.token else out.api_token

  unfoldable pub send : Endpoint → String → String → Client → Reply × Client
  send endpoint node bearer c = (
    out.reply (length c.requests),
    record c {
      requests = c.requests ++ record { endpoint = endpoint; node = node; bearer = bearer } ∷ [];
    },
  )

  -- `doAuthRequest`, to the client's node.
  unfoldable pub do_auth_request : Endpoint → Client → Reply × Client
  do_auth_request endpoint c = send endpoint c.node_id (auth_token c) c

  -- What follows the loop: the status is checked, the body decoded, and the answer stored.
  unfoldable pub take_registration :
      ℕ → Option (String × String) → Client → Result ClientErr (Unit {0}) × Client
  take_registration status body c =
      if status == 201 || status == 200
      then on_option body (λ answer. (ok tt, record c { node_id = answer.0; token = answer.1 }))
          (err undecodable, c)
      else (err (refused status), c)

  unfoldable pub next_backoff : ℕ → ℕ
  next_backoff backoff = if ltb 8 (backoff * 2) then 8 else backoff * 2

  -- The end of a failed attempt with `left` to come: the pause, and the rest of the loop.
  unfoldable pub retry :
      ℕ
      → ℕ
      → ClientErr
      → (Client → Result ClientErr (Unit {0}) × Client)
      → Client
      → Result ClientErr (Unit {0}) × Client
  retry zero backoff e rest c = (err e, c)
  retry (suc left) backoff e rest c =
      let c' = record c { pauses = c.pauses ++ backoff ∷ [] } in
      if out.ends (length c.pauses) then (err context_ended, c') else rest c'

  unfoldable pub after_reply :
      ℕ
      → ℕ
      → (Client → Result ClientErr (Unit {0}) × Client)
      → Reply × Client
      → Result ClientErr (Unit {0}) × Client
  after_reply left backoff rest (no_reply, c) = retry left backoff unanswered rest c
  after_reply left backoff rest (replied status body, c) =
      if leb 500 status
      then retry left backoff (refused status) rest c
      else take_registration status body c

  unfoldable pub register_loop : ℕ → ℕ → Client → Result ClientErr (Unit {0}) × Client
  register_loop zero backoff c = (err unanswered, c)
  register_loop (suc left) backoff c =
      after_reply left backoff (register_loop left (next_backoff backoff))
        (send registration "" "" c)

  -- `maxAttempts` is 5, and the first pause a second.
  unfoldable pub register : Client → Result ClientErr (Unit {0}) × Client
  register c = register_loop 5 1 c

  -- A reply that is no answer, or of an error's status, is an error.
  unfoldable pub accept : Reply × Client → Result ClientErr (Unit {0}) × Client
  accept (no_reply, c) = (err unanswered, c)
  accept (replied status body, c) = if leb 400 status then (err (refused status), c) else (ok tt, c)

  -- After a registration the request is made once more, to the new node.
  unfoldable pub once_more :
      Endpoint → Result ClientErr (Unit {0}) × Client → Result ClientErr (Unit {0}) × Client
  once_more endpoint (err e, c) = (err e, c)
  once_more endpoint (ok _, c) = accept (do_auth_request endpoint c)

  -- `lost` is the status at which the endpoint registers again.
  unfoldable pub or_register : ℕ → Endpoint → Reply × Client → Result ClientErr (Unit {0}) × Client
  or_register lost endpoint (no_reply, c) = (err unanswered, c)
  or_register lost endpoint (replied status body, c) =
      if status == lost then once_more endpoint (register c) else accept (replied status body, c)

  unfoldable pub send_heartbeat : Client → Result ClientErr (Unit {0}) × Client
  send_heartbeat c = or_register 404 heartbeat (do_auth_request heartbeat c)

  unfoldable pub send_ack : Client → Result ClientErr (Unit {0}) × Client
  send_ack c = or_register 401 ack (do_auth_request ack c)

  -- `n` is the number of the request that was answered.
  unfoldable pub parse_commands : ℕ → Reply × Client → Result ClientErr (List Command) × Client
  parse_commands n (no_reply, c) = (err unanswered, c)
  parse_commands n (replied status body, c) =
      if leb 400 status
      then (err (refused status), c)
      else (on_option (out.commands n) (λ cmds. ok cmds) (err undecodable), c)

  unfoldable pub poll_again :
      Result ClientErr (Unit {0}) × Client → Result ClientErr (List Command) × Client
  poll_again (err e, c) = (err e, c)
  poll_again (ok _, c) = parse_commands (length c.requests) (do_auth_request poll c)

  unfoldable pub after_poll : ℕ → Reply × Client → Result ClientErr (List Command) × Client
  after_poll n (no_reply, c) = (err unanswered, c)
  after_poll n (replied status body, c) =
      if status == 401 then poll_again (register c) else parse_commands n (replied status body, c)

  unfoldable pub poll_commands : Client → Result ClientErr (List Command) × Client
  poll_commands c = after_poll (length c.requests) (do_auth_request poll c)

  -- After a registration the report is made once more; whatever the status, that is no error.
  unfoldable pub report_again :
      Result ClientErr (Unit {0}) × Client → Result ClientErr (Unit {0}) × Client
  report_again (err e, c) = (err e, c)
  report_again (ok _, c) =
      let (reply, c') = do_auth_request event c in
      (elim reply [ no_reply ↦ err unanswered | replied status body ↦ ok tt ], c')

  unfoldable pub after_report : Reply × Client → Result ClientErr (Unit {0}) × Client
  after_report (no_reply, c) = (err unanswered, c)
  after_report (replied status body, c) =
      if status == 401 then report_again (register c) else (ok tt, c)

  -- One more attempt where there was no response.
  unfoldable pub send_report : Reply × Client → Reply × Client
  send_report (no_reply, c) = do_auth_request event c
  send_report (replied status body, c) = (replied status body, c)

  unfoldable pub report_event : Client → Result ClientErr (Unit {0}) × Client
  report_event c = after_report (send_report (do_auth_request event c))
