-- ===== src/Store/Listing.antt =====
-- The listings of sandboxes.sql.go, newest rows first.
use appx_forge.Base.{ℕ, List, [], ◌∷◌, String, ok, str_eq, ltb, if◌then◌else◌, select, take}
use appx_forge.Models.{state_name}
use appx_forge.Store.{Sandbox, Query}
use appx_forge.Store.Sandboxes.{on_node}

-- ORDER BY created_at DESC; rows of one time in order of insertion.
insert_newest : Sandbox → List Sandbox → List Sandbox
insert_newest r [] = r ∷ []
insert_newest r (x ∷ xs) =
    if ltb r.created_at x.created_at then x ∷ insert_newest r xs else r ∷ x ∷ xs

unfoldable pub newest_created : List Sandbox → List Sandbox
unfolding insert_newest
newest_created [] = []
newest_created (r ∷ rs) = insert_newest r (newest_created rs)

unfoldable pub list_sandboxes : ℕ → Query (List Sandbox)
list_sandboxes limit db = (ok (take limit (newest_created db.sandboxes)), db)

unfoldable pub list_sandboxes_by_state : String → Query (List Sandbox)
list_sandboxes_by_state state db =
    (ok (newest_created (select (λ r. str_eq (state_name r.state) state) db.sandboxes)), db)

unfoldable pub list_sandboxes_by_node : ℕ → Query (List Sandbox)
list_sandboxes_by_node node db = (ok (newest_created (select (on_node node) db.sandboxes)), db)

unfoldable pub list_sandboxes_by_user : String → Query (List Sandbox)
list_sandboxes_by_user user db =
    (ok (newest_created (select (λ (r : Sandbox). str_eq r.user_id user) db.sandboxes)), db)
