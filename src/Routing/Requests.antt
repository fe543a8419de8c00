-- ===== src/Routing/Requests.antt =====
-- Runs of the batcher, and what the notifications of a run ask for.
use appx_forge.Base.{
  Bool, true, false, Option, none, some, List, [], ◌∷◌, ◌++◌, String, on_result, on_option, str_eq,
  if◌then◌else◌,
}
use appx_forge.Routing.{Route, Batch, Batcher, fire, stop, on_sandbox_running, on_sandbox_stopped}
use appx_forge.Routing.Buffer.{added, removed}

-- The calls that reach the batcher.
pub data Request : Type 0 where
  running : String → String → String → Request
  stopped : String → Request
  timer_fires stops : Request

-- A call that is refused changes nothing.
unfoldable pub serve : Request → Batcher → List Batch × Batcher
serve (running app id upstream) b =
    on_result (on_sandbox_running app id upstream b) (λ r. r) (λ e. ([], b))
serve (stopped app) b = on_result (on_sandbox_stopped app b) (λ r. r) (λ e. ([], b))
serve timer_fires b = fire b
serve stops b = stop b

-- The batches in the order in which they leave the buffer, and the batcher at the end.
unfoldable pub serve_all : List Request → Batcher → List Batch × Batcher
serve_all [] b = ([], b)
serve_all (r ∷ rs) b =
    let (first, b1) = serve r b in let (others, b2) = serve_all rs b1 in (first ++ others, b2)

-- The route of an application after a batch, and after several.
abbrev pub route_after : String → Batch → Option Route → Option Route
route_after app batch w = on_option (added app batch) some (if removed app batch then none else w)

abbrev pub routes_after : String → List Batch → Option Route → Option Route
routes_after app [] w = w
routes_after app (b ∷ bs) w = routes_after app bs (route_after app b w)

-- What the notifications ask for, one by one, until the batcher is stopped.
abbrev pub asked : String → Bool → Request → Option Route → Option Route
asked app true r w = w
asked app false (running a id upstream) w =
    if str_eq upstream ""
    then w
    else if str_eq app a
    then some (record { app_name = a; sandbox_id = id; upstream = upstream })
    else w
asked app false (stopped a) w = if str_eq app a then none else w
asked app false _ w = w

abbrev pub closed : Bool → Request → Bool
closed c stops = true
closed c _ = c

abbrev pub all_asked : String → Bool → List Request → Option Route → Option Route
all_asked app c [] w = w
all_asked app c (r ∷ rs) w = all_asked app (closed c r) rs (asked app c r w)

-- Whether the batcher is stopped after the calls.
unfoldable pub all_closed : Bool → List Request → Bool
all_closed c [] = c
all_closed c (r ∷ rs) = all_closed (closed c r) rs
