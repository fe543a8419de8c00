-- ===== src/Store/EventListing.antt =====
-- The listings of events.sql.go, newest first, and the counts of sandboxes.sql.go.
use appx_forge.Base.{
  ℕ, Bool, List, [], ◌∷◌, String, ok, str_eq, ltb, length, select, take, ◌==◌, if◌then◌else◌, none,
  some, false,
}
use appx_forge.Models.{SandboxState, state_eq, all_states}
use appx_forge.Store.{Sandbox, Event, Query}

-- ORDER BY created_at DESC; rows of one time in order of insertion.
insert_event : Event → List Event → List Event
insert_event e [] = e ∷ []
insert_event e (x ∷ xs) =
    if ltb e.created_at x.created_at then x ∷ insert_event e xs else e ∷ x ∷ xs

newest_events : List Event → List Event
unfolding insert_event
newest_events [] = []
newest_events (e ∷ es) = insert_event e (newest_events es)

abbrev of_sandbox : ℕ → Event → Bool
of_sandbox id e = elim e.sandbox_id [ none ↦ false | some s ↦ s == id ]

unfoldable pub list_events_by_sandbox : ℕ → ℕ → Query (List Event)
unfolding newest_events
list_events_by_sandbox id limit db =
    (ok (take limit (newest_events (select (of_sandbox id) db.events))), db)

unfoldable pub list_events_by_type : String → ℕ → Query (List Event)
unfolding newest_events
list_events_by_type event_type limit db =
    (ok (take limit (newest_events (select (λ e. str_eq e.event_type event_type) db.events))), db)

unfoldable pub list_recent_events : ℕ → Query (List Event)
unfolding newest_events
list_recent_events limit db = (ok (take limit (newest_events db.events)), db)

-- The states of which there are rows, with their number; the order of the groups is that of the states.
groups : List Sandbox → List SandboxState → List (SandboxState × ℕ)
groups rows [] = []
groups rows (s ∷ ss) =
    let rest = groups rows ss in
    let count = length (select (λ (r : Sandbox). state_eq r.state s) rows) in
    if count == 0 then rest else (s, count) ∷ rest

unfoldable pub count_sandboxes_by_state : Query (List (SandboxState × ℕ))
unfolding groups
count_sandboxes_by_state db = (ok (groups db.sandboxes all_states), db)
