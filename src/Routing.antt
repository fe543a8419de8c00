-- ===== src/Routing.antt =====
-- control/internal/routing: how the lifecycle's notifications reach the proxy, through the route
-- manager (manager.go) and the batcher (batcher.go). A call that holds the batcher's mutex is one step;
-- the mutex is released only while the Flusher applies a batch that has left the buffer already.
pub mod Drift
pub mod Caddy
pub mod Buffer
pub mod Requests
pub mod Delivery
mod Tests
use appx_forge.Base.{
  ℕ, Bool, true, false, List, [], ◌∷◌, String, str_eq, Result, ok, err, leb, if◌then◌else◌, length,
}
use appx_forge.Base.Dict.{put}

pub record Route : Type 0 where
  pub app_name : String
  pub sandbox_id : String
  pub upstream : String

-- "add" and "remove".
pub data Action : Type 0 where
  add remove : Action

pub record RouteChange : Type 0 where
  pub action : Action
  pub route : Route
  pub app_name : String

-- The arguments of `Flusher.Apply`.
pub record Batch : Type 0 where
  pub adds : List Route
  pub removes : List String

-- `timer` says whether the debounce timer is set.
pub record Batcher : Type 0 where
  pub max_buf : ℕ
  pub pending : List (String × RouteChange)
  pub timer : Bool
  pub stopped : Bool

abbrev pub default_max_buf : ℕ
default_max_buf = 50

unfoldable pub new_batcher : Batcher
new_batcher = record { max_buf = default_max_buf; pending = []; timer = false; stopped = false }

abbrev pub collect_change : RouteChange → Batch → Batch
collect_change change batch = elim change.action [
  | add ↦ record batch { adds = change.route ∷ batch.adds }
  | remove ↦ record batch { removes = change.app_name ∷ batch.removes }
]

-- The two lists; Go's order of iteration is free, here it is that of the entries.
unfoldable pub collect : List (String × RouteChange) → Batch
collect [] = record { adds = []; removes = [] }
collect ((key, change) ∷ rest) = collect_change change (collect rest)

abbrev pub flush_entries : List (String × RouteChange) → Batcher → List Batch × Batcher
flush_entries [] b = ([], b)
flush_entries (entry ∷ rest) b =
    (collect (entry ∷ rest) ∷ [], record b { pending = []; timer = false })

-- A batch for the Flusher, or none where nothing is pending.
unfoldable pub flush_locked : Batcher → List Batch × Batcher
flush_locked b = flush_entries b.pending b

unfoldable pub stop_timer_locked : Batcher → Batcher
stop_timer_locked b = record b { timer = false }

abbrev pub key_of : RouteChange → String
key_of change = elim change.action [ add ↦ change.route.app_name | remove ↦ change.app_name ]

-- The buffer after the write; it is flushed at once where it is full.
unfoldable pub settle_buffer : Batcher → List Batch × Batcher
settle_buffer b =
    if leb b.max_buf (length b.pending)
    then flush_locked (stop_timer_locked b)
    else ([], record b { timer = true })

unfoldable pub enqueue : RouteChange → Batcher → List Batch × Batcher
enqueue change b =
    if b.stopped
    then ([], b)
    else settle_buffer (record b { pending = put (key_of change) change b.pending })

-- The debounce timer's function.
unfoldable pub fire : Batcher → List Batch × Batcher
fire b = if b.stopped then ([], b) else flush_locked b

unfoldable pub stop : Batcher → List Batch × Batcher
stop b =
    if b.stopped then ([], b) else flush_locked (stop_timer_locked (record b { stopped = true }))

abbrev no_route : Route
no_route = record { app_name = ""; sandbox_id = ""; upstream = "" }

-- RouteManager.OnSandboxRunning: an empty upstream is refused.
unfoldable pub on_sandbox_running :
    String → String → String → Batcher → Result String (List Batch × Batcher)
on_sandbox_running app_name sandbox_id upstream b =
    if str_eq upstream ""
    then err "route manager: upstream must not be empty"
    else ok (
        enqueue
          (record {
            action = add;
            route = record { app_name = app_name; sandbox_id = sandbox_id; upstream = upstream };
            app_name = "";
          })
          b)

unfoldable pub on_sandbox_stopped : String → Batcher → Result String (List Batch × Batcher)
on_sandbox_stopped app_name b =
    ok (enqueue (record { action = remove; route = no_route; app_name = app_name }) b)
