-- ===== src/Store/Keys.antt =====
-- The primary key of the sandboxes: what a statement on one identifier does to its row.
use appx_forge.Base.{
  ℕ, ◌≡◌, refl, ap, ◌∙◌, Bool, true, false, Bool-cases, inl, inr, Option, none, some, List, [], ◌∷◌,
  ◌++◌, ◌==◌, ok, err, arith, any, find, if◌then◌else◌,
}
use appx_forge.Models.{SandboxState, state_eq}
use appx_forge.Models.Machine.{state_eq_iff}
use appx_forge.Store.{Sandbox, Node, Command, Db, no_rows}
use appx_forge.Store.Commands.{CreateCommandParams, new_command, create_command, insert_command}
use appx_forge.Store.Table.{update, find-update, find_holds, any-find}
use appx_forge.Store.Sandboxes.{
  has_id, at_state, moved, bumped, get_sandbox, transition_sandbox_state,
  increment_sandbox_failure_count,
}

-- No two rows share an identifier.
abbrev pub IsKeyed : List Sandbox → Type 0
IsKeyed [] = Unit
IsKeyed (r ∷ rs) = (any (has_id r.id) rs ≡ false) × IsKeyed rs

abbrev pub row : ℕ → Db → Option Sandbox
row id db = find (has_id id) db.sandboxes

module _ (p : Sandbox → Bool) (f : Sandbox → Sandbox) (same : (r : Sandbox) → (f r).id ≡ r.id) where
  any-update : (id : ℕ) (rs : List Sandbox) → any (has_id id) (update p f rs) ≡ any (has_id id) rs
  unfolding update
  any-update id [] = refl
  any-update id (r ∷ rs) = ground (arith, same r, any-update id rs)

  pub update-IsKeyed : (rs : List Sandbox) → IsKeyed rs → IsKeyed (update p f rs)
  unfolding update
  update-IsKeyed [] k = tt
  update-IsKeyed (r ∷ rs) (fresh, k) = elim (Bool-cases (p r)) [
    | inl e ↦ rw e (rw (same r) (any-update r.id rs ∙ fresh), update-IsKeyed rs k)
    | inr e ↦ rw e (any-update r.id rs ∙ fresh, update-IsKeyed rs k)
  ]

-- The row with an identifier, if it is in a state.
abbrev pub in_state : SandboxState → Option Sandbox → Option Sandbox
in_state s none = none
in_state s (some r) = if state_eq r.state s then some r else none

no_match :
    (id : ℕ) (s : SandboxState) (rs : List Sandbox)
    → any (has_id id) rs ≡ false
    → find (at_state id s) rs ≡ none
no_match id s [] h = refl
no_match id s (r ∷ rs) h = ground (arith, no_match id s rs)

pub find-at_state :
    (id : ℕ) (s : SandboxState) (rs : List Sandbox)
    → IsKeyed rs
    → find (at_state id s) rs ≡ in_state s (find (has_id id) rs)
find-at_state id s [] k = refl
find-at_state id s (r ∷ rs) (fresh, k) =
    ground (arith, find-at_state id s rs k, no_match r.id s rs fresh)

-- `db` with the row of `id` set to `r`; the other tables and the clock are as before, but for the
-- events.
pub record Sets (id : ℕ) (r : Sandbox) (before after : Db) : Type 0 where
  pub found : row id after ≡ some r
  pub keyed : IsKeyed after.sandboxes
  pub same_commands : after.commands ≡ before.commands
  pub same_nodes : after.nodes ≡ before.nodes
  pub same_now : after.now ≡ before.now

module _ (id : ℕ) (db : Db) (r : Sandbox) (keyed : IsKeyed db.sandboxes)
    (found : row id db ≡ some r) where
  -- An update that hits the row.
  hits :
      (p : Sandbox → Bool) (f : Sandbox → Sandbox)
      → ((q : Sandbox) → (f q).id ≡ q.id)
      → p r ≡ true
      → Sets id (f r) db (record db { sandboxes = update p f db.sandboxes })
  hits p f same hit = record {
    found =
        find-update (has_id id) p f db.sandboxes (λ q. ap (λ n. has_id_of n) (same q))
        ∙ rw found (rw hit refl);
    keyed = update-IsKeyed p f same db.sandboxes keyed;
    same_commands = refl;
    same_nodes = refl;
    same_now = refl;
  }
    where
      has_id_of : ℕ → Bool
      has_id_of n = has_id id (record r { id = n })

  is_row : has_id id r ≡ true
  is_row = find_holds (has_id id) db.sandboxes r found

  -- The compare-and-swap of a row in the expected state.
  pub transition_hit :
      (to from : SandboxState)
      → r.state ≡ from
      → (db' : Db) × (transition_sandbox_state to id from db ≡ (ok (moved to db.now r), db'))
        × Sets id (moved to db.now r) db db'
  unfolding transition_sandbox_state
  transition_hit to from e = (
    record db { sandboxes = update (at_state id from) (moved to db.now) db.sandboxes },
    rw (find-at_state id from db.sandboxes keyed, found, matches) refl,
    hits (at_state id from) (moved to db.now) (λ q. refl) (rw (is_row, matches) refl),
  )
    where
      matches : state_eq r.state from ≡ true
      matches = (state_eq_iff r.state from).1 e

  -- The compare-and-swap of a row in another state changes nothing.
  pub transition_miss :
      (to from : SandboxState)
      → state_eq r.state from ≡ false
      → transition_sandbox_state to id from db ≡ (err no_rows, db)
  unfolding transition_sandbox_state
  transition_miss to from e = rw (find-at_state id from db.sandboxes keyed, found, e) refl

  pub increment_hit :
      (db' : Db) × (increment_sandbox_failure_count id db ≡ (ok (bumped db.now r), db'))
      × Sets id (bumped db.now r) db db'
  unfolding increment_sandbox_failure_count
  increment_hit = (
    record db { sandboxes = update (has_id id) (bumped db.now) db.sandboxes },
    rw found refl,
    hits (has_id id) (bumped db.now) (λ q. refl) is_row,
  )

  pub get_hit : get_sandbox id db ≡ (ok r, db)
  unfolding get_sandbox
  get_hit = rw found refl

-- A command for a row that is there, on a node that is there, under a new identifier.
pub create_command_hit :
    (a : CreateCommandParams) (db : Db) (r : Sandbox) (id node : ℕ)
    → a.node_id ≡ some node
    → a.sandbox_id ≡ some id
    → row id db ≡ some r
    → any (λ (n : Node). n.id == node) db.nodes ≡ true
    → any (λ (c : Command). c.id == a.id) db.commands ≡ false
    → create_command a db ≡ (
      ok (new_command a node db.now),
      record db { commands = db.commands ++ new_command a node db.now ∷ [] },
    )
unfolding create_command insert_command
create_command_hit a db r id node hn hs found hnode fresh =
    rw (hn, fresh, hnode, hs, any-find (has_id id) db.sandboxes, found) refl
