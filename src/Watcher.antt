-- ===== src/Watcher.antt =====
-- agent/internal/events/watcher.go: Docker's events become events of sandboxes. Every look at the
-- context is numbered, and `ended` says at which one it is found to be done.
pub mod History
pub mod Delivery
mod Tests
use text.Mathlib.Text.{starts_with}
use appx_forge.Base.{
  ℕ, zero, suc, ◌+◌, ◌*◌, Bool, true, false, not, Option, none, some, List, [], ◌∷◌, ◌++◌, String,
  str_eq, trim_prefix, ltb, length, on_option, if◌then◌else◌,
}

pub record ContainerEvent : Type 0 where
  pub container_id : String
  pub container_name : String
  pub action : String
  pub exit_code : String
  pub time : ℕ

pub record SandboxEvent : Type 0 where
  pub app_name : String
  pub container_id : String
  pub event_type : String
  pub exit_code : String
  pub time : ℕ
  pub oom_killed : Bool

abbrev pub container_prefix : String
container_prefix = "forge-"

abbrev pub event_of : ContainerEvent → String → Bool → SandboxEvent
event_of ev event_type oom_killed = record {
  app_name = trim_prefix ev.container_name container_prefix;
  container_id = ev.container_id;
  event_type = event_type;
  exit_code = ev.exit_code;
  time = ev.time;
  oom_killed = oom_killed;
}

unfoldable pub map_event : ContainerEvent → Option SandboxEvent
map_event ev =
    if not (starts_with ev.container_name container_prefix)
    then none
    else if str_eq ev.action "die"
    then some (event_of ev "container_exited" false)
    else if str_eq ev.action "oom"
    then some (event_of ev "container_oom" true)
    else if str_eq ev.action "start"
    then some (event_of ev "container_started" false)
    else none

-- What the two channels of one connection give before they are closed.
pub record Stream : Type 0 where
  pub events : List ContainerEvent
  pub errors : List String

-- `stream n since` is the n-th connection, from that time on, `none` for the zero time.
pub record WatchOutside : Type 0 where
  pub stream : ℕ → Option ℕ → Stream
  pub ended : ℕ → Bool

-- The loop's variables and what it did: the looks at the context, the connections by their `since`, the
-- events sent, and the pauses, in seconds.
pub record Watching : Type 0 where
  pub last_event_time : Option ℕ
  pub looks : ℕ
  pub connections : List (Option ℕ)
  pub sent : List SandboxEvent
  pub pauses : List ℕ

unfoldable pub new_watching : Watching
new_watching = record {
  last_event_time = none;
  looks = 0;
  connections = [];
  sent = [];
  pauses = [];
}

abbrev pub looked : Watching → Watching
looked s = record s { looks = suc s.looks }

abbrev pub emit : SandboxEvent → Watching → Watching
emit e s = record s { sent = s.sent ++ e ∷ [] }

module _ (out : WatchOutside) where
  -- The events of a connection; false if the context ended.
  unfoldable pub process_events : List ContainerEvent → Watching → Bool × Watching
  process_events [] s = (true, s)
  process_events (ev ∷ evs) s =
      if out.ended s.looks
      then (false, looked s)
      else on_option (map_event ev)
          (λ e.
            let noted = record (looked s) { last_event_time = some ev.time } in
            if out.ended noted.looks
            then (false, looked noted)
            else process_events evs (emit e (looked noted)))
          (process_events evs (looked s))

  -- Whether there was an error; an end of the context counts as none.
  unfoldable pub drain_errors : Bool → List String → Watching → Bool × Watching
  drain_errors had_error [] s = (had_error, s)
  drain_errors had_error (e ∷ es) s =
      if out.ended s.looks then (false, looked s) else drain_errors true es (looked s)

  unfoldable pub process_stream : Stream → Watching → Bool × Watching
  process_stream stream s =
      let (through, s') = process_events stream.events s in
      if through then drain_errors false stream.errors s' else (false, s')

  unfoldable pub double_backoff : ℕ → ℕ
  double_backoff backoff = if ltb 30 (backoff * 2) then 30 else backoff * 2

  abbrev connected : Watching → Watching
  connected s = record s { connections = s.connections ++ s.last_event_time ∷ [] }

  -- After a connection that ended with an error: the pause, and the rest of the loop.
  unfoldable pub pause_and : ℕ → (Watching → Bool × Watching) → Watching → Bool × Watching
  pause_and backoff rest s =
      let paused = record s { pauses = s.pauses ++ backoff ∷ [] } in
      if out.ended s.looks then (true, looked paused) else rest (looked paused)

  -- After a connection.
  unfoldable pub after_stream : ℕ → (Watching → Bool × Watching) → Bool × Watching → Bool × Watching
  after_stream backoff rest (stream_done, s) =
      if out.ended s.looks
      then (true, looked s)
      else if not stream_done
      then (true, looked s)
      else pause_and backoff rest (looked s)

  -- `fuel` bounds the connections; the flag says whether the loop returned.
  unfoldable pub watch_loop : ℕ → ℕ → Watching → Bool × Watching
  watch_loop zero backoff s = (false, s)
  watch_loop (suc fuel) backoff s =
      let rest = watch_loop fuel (double_backoff backoff) in
      if out.ended s.looks
      then (true, looked s)
      else after_stream backoff rest (
          process_stream (out.stream (length s.connections) s.last_event_time)
            (connected (looked s)))

  -- `baseBackoff` is a second.
  unfoldable pub watch : ℕ → Bool × Watching
  watch fuel = watch_loop fuel 1 new_watching
