-- ===== src/Api/Observing.antt =====
-- control/internal/api: the listing of events (events.go), of routes (routes_handlers.go), the metrics
-- (metrics.go) and the health of the process (health.go). A service that is not configured is `false`.
use appx_forge.Base.{
  ℕ, Bool, true, false, not, Option, none, some, List, ◌++◌, map, String, str_eq, Result, ok, err,
  ltb, if◌then◌else◌,
}
use appx_forge.Base.Int.{ℤ, pos, ltb_ℤ}
use appx_forge.Models.{SandboxState}
use appx_forge.Store.{Event, Payload, raw, Node}
use appx_forge.Store.EventListing.{
  list_events_by_sandbox, list_events_by_type, list_recent_events, count_sandboxes_by_state,
}
use appx_forge.Store.Nodes.{list_nodes}
use appx_forge.Store.Call.{M, pure, fail, query, ◌>>=◌, ◌>>◌}
use appx_forge.Routing.{Route}
use appx_forge.Api.{Handler, bad_request, service_unavailable, internal_error, reject_if, require}
use appx_forge.Api.Sandboxes.Reading.{LimitParam, no_limit, bad_limit, limit_of}

-- A field that the answer leaves out is none; the serial number of the row is left out.
pub record EventResponse : Type 0 where
  pub sandbox_id : Option ℕ
  pub node_id : Option ℕ
  pub event_type : String
  pub actor : String
  pub prev_state : Option SandboxState
  pub next_state : Option SandboxState
  pub payload : Option Payload
  pub created_at : String

abbrev shown_payload : Payload → Option Payload
shown_payload (raw text) = if str_eq text "" then none else some (raw text)
shown_payload p = some p

unfoldable pub store_event_to_response : (ℕ → String) → Event → EventResponse
store_event_to_response show_time e = record {
  sandbox_id = e.sandbox_id;
  node_id = e.node_id;
  event_type = e.event_type;
  actor = e.actor;
  prev_state = e.prev_state;
  next_state = e.next_state;
  payload = shown_payload e.payload;
  created_at = show_time e.created_at;
}

unfoldable pub event_limit : LimitParam → Option ℕ
event_limit no_limit = some 100
event_limit bad_limit = none
event_limit (limit_of l) = if ltb l 1 then none else if ltb 1000 l then some 1000 else some l

-- The first of the filters that is given; `none` is no UUID.
pub data EventFilter : Type 0 where
  sandbox_id_is : Option ℕ → EventFilter
  event_type_is : String → EventFilter
  any_event : EventFilter

unfoldable pub find_events : EventFilter → ℕ → Handler (List Event)
find_events (sandbox_id_is id) limit =
    require id (bad_request "invalid sandbox_id: must be a valid UUID") >>= λ sandbox_id.
    query (λ e. internal_error "failed to list events") (list_events_by_sandbox sandbox_id limit)
find_events (event_type_is event_type) limit =
    query (λ e. internal_error "failed to list events") (list_events_by_type event_type limit)
find_events any_event limit =
    query (λ e. internal_error "failed to list events") (list_recent_events limit)

unfoldable pub handle_list_events :
    (ℕ → String) → Bool → LimitParam → EventFilter → Handler (ℕ × List EventResponse)
handle_list_events show_time configured limit filter = do
  reject_if (not configured) (service_unavailable "event service not configured")
  n ← require (event_limit limit) (bad_request "limit must be a positive integer")
  events ← find_events filter n
  pure (200, map (store_event_to_response show_time) events)

-- `fetched` is what the proxy's client returns, `none` for a fetcher that is not configured.
unfoldable pub handle_list_routes : Option (Result String (List Route)) → Handler (ℕ × List Route)
handle_list_routes none = fail (service_unavailable "route service not configured")
handle_list_routes (some (err e)) = fail (internal_error "failed to list routes")
handle_list_routes (some (ok routes)) = pure (200, routes)

-- Used over capacity, as the two numbers of the quotient; none is 0.
unfoldable pub utilization : Node → Option (ℤ × ℤ)
utilization n = if ltb_ℤ (pos 0) n.capacity_mb then some (n.used_mb, n.capacity_mb) else none

-- The lines of the metrics: fmt's %q, %d and %.4f are parameters.
pub record MetricsText : Type 0 where
  pub count_line : SandboxState → ℕ → String
  pub ratio_line : String → Option (ℤ × ℤ) → String
  pub count_head : List String
  pub ratio_head : List String

-- An error is a status and a plain text.
unfoldable pub handle_metrics : MetricsText → Bool → M (ℕ × String) (ℕ × List String)
handle_metrics text configured = do
  if configured then pure tt else fail (503, "metrics not configured")
  counts ← query (λ e. (500, "internal error")) count_sandboxes_by_state
  nodes ← query (λ e. (500, "internal error")) list_nodes
  pure (
    200,
    text.count_head
        ++ map (λ (s, n). text.count_line s n) counts
        ++ text.ratio_head
        ++ map (λ (n : Node). text.ratio_line n.hostname (utilization n)) nodes,
  )

pub record HealthResponse : Type 0 where
  pub status : String
  pub postgres : String
  pub uptime_seconds : ℕ

-- `reachable` is whether the ping of the database came back, `uptime` whole seconds.
unfoldable pub handle_healthz : Bool → ℕ → ℕ × HealthResponse
handle_healthz true uptime =
    (200, record { status = "ok"; postgres = "ok"; uptime_seconds = uptime })
handle_healthz false uptime =
    (503, record { status = "error"; postgres = "unreachable"; uptime_seconds = uptime })
