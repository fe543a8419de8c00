-- ===== src/Store/Sandboxes.antt =====
-- The statements of control/internal/store/sandboxes.sql.go.
use mathlib.Core.Option
use appx_forge.Base.{
  ℕ, ◌+◌, ◌*◌, Bool, true, false, ◌&&◌, Option, none, some, List, [], ◌∷◌, ◌++◌, String, Result, ok,
  err, ◌==◌, ltb, str_eq, if◌then◌else◌, find, any, select,
}
use appx_forge.Base.Int.{ℤ, pos, negsuc}
use appx_forge.Models.{
  SandboxState, pending, starting, running, restarting, destroyed, state_name, state_eq, all_states,
}
use appx_forge.Store.{
  Sandbox, Command, Db, DbErr, no_rows, unique_violation, fk_violation, check_violation, Query,
  second,
}
use appx_forge.Store.Table.{update, delete}

abbrev pub has_id : ℕ → Sandbox → Bool
has_id id r = r.id == id

abbrev pub has_app : String → Sandbox → Bool
has_app name r = str_eq r.app_name name

-- node_id = $1; a comparison with NULL selects no row.
abbrev pub on_node : ℕ → Sandbox → Bool
on_node n r = elim r.node_id [ none ↦ false | some m ↦ m == n ]

-- RETURNING one row: the first that the statement touches.
abbrev pub one : Option Sandbox → Db → Db → Result DbErr Sandbox × Db
one none before after = (err no_rows, before)
one (some r) before after = (ok r, after)

unfoldable pub get_sandbox : ℕ → Query Sandbox
get_sandbox id db = one (find (has_id id) db.sandboxes) db db

unfoldable pub get_sandbox_by_app_name : String → Query Sandbox
get_sandbox_by_app_name name db = one (find (has_app name) db.sandboxes) db db

pub record CreateSandboxParams : Type 0 where
  pub id : ℕ
  pub app_name : String
  pub user_id : String
  pub image : String
  pub resources : String
  pub env : String
  pub idle_timeout_seconds : ℤ
  pub metadata : String

-- The row that the INSERT makes, with the columns' defaults.
abbrev pub new_sandbox : CreateSandboxParams → ℕ → Sandbox
new_sandbox a now = record {
  id = a.id;
  app_name = a.app_name;
  user_id = a.user_id;
  node_id = none;
  container_id = none;
  host_port = none;
  image = a.image;
  state = pending;
  state_version = 0;
  resources = a.resources;
  env = a.env;
  idle_timeout_seconds = a.idle_timeout_seconds;
  created_at = now;
  updated_at = now;
  last_active_at = now;
  failure_count = 0;
  metadata = a.metadata;
  verified_at = now;
}

-- Both `id` and `app_name` are unique.
unfoldable pub create_sandbox_row : CreateSandboxParams → Query Sandbox
create_sandbox_row a db =
    let r = new_sandbox a db.now in
    if any (has_id a.id) db.sandboxes
    then (err unique_violation, db)
    else if any (has_app a.app_name) db.sandboxes
    then (err unique_violation, db)
    else (ok r, record db { sandboxes = db.sandboxes ++ r ∷ [] })

abbrev pub references : ℕ → Command → Bool
references id c = elim c.sandbox_id [ none ↦ false | some s ↦ s == id ]

-- A command that names the row holds it: the migration's foreign key has no ON DELETE.
unfoldable pub delete_sandbox : ℕ → Query (Unit {0})
delete_sandbox id db =
    if any (has_id id) db.sandboxes && any (references id) db.commands
    then (err fk_violation, db)
    else (ok tt, record db { sandboxes = delete (has_id id) db.sandboxes })

-- `state = to, updated_at = NOW(), state_version = state_version + 1`.
abbrev pub moved : SandboxState → ℕ → Sandbox → Sandbox
moved to now r = record r { state = to; updated_at = now; state_version = r.state_version + 1 }

abbrev pub at_state : ℕ → SandboxState → Sandbox → Bool
at_state id from r = r.id == id && state_eq r.state from

-- The compare-and-swap of the control plane: the row moves only from the state that was seen.
unfoldable pub transition_sandbox_state : SandboxState → ℕ → SandboxState → Query Sandbox
transition_sandbox_state to id from db =
    one (Option.map (moved to db.now) (find (at_state id from) db.sandboxes)) db
      (record db { sandboxes = update (at_state id from) (moved to db.now) db.sandboxes })

-- The row as assigned to a node; `host_port` and `container_id` are the statement's arguments.
abbrev pub assigned_row : ℕ → Option ℤ → Option String → ℕ → Sandbox → Sandbox
assigned_row node port container now r = record r {
  node_id = some node;
  host_port = port;
  container_id = container;
  state = starting;
  updated_at = now;
  state_version = r.state_version + 1;
}

unfoldable pub assign_sandbox_to_node : ℕ → Option ℤ → Option String → ℕ → Query Sandbox
assign_sandbox_to_node node port container id db =
    one
      (Option.map (assigned_row node port container db.now)
        (find (at_state id pending) db.sandboxes))
      db
      (record db {
        sandboxes =
            update (at_state id pending) (assigned_row node port container db.now) db.sandboxes;
      })

unfoldable pub update_sandbox_last_active : ℕ → Query (Unit {0})
update_sandbox_last_active id db = (
  ok tt,
  record db {
    sandboxes = update (has_id id) (λ r. record r { last_active_at = db.now }) db.sandboxes;
  },
)

-- `last_active_at < NOW() - idle_timeout_seconds`, with the subtraction moved to the left.
abbrev pub is_idle : ℕ → Sandbox → Bool
is_idle now r = state_eq r.state running && elim r.idle_timeout_seconds [
  | pos n ↦ ltb (r.last_active_at + n * second) now
  | negsuc n ↦ ltb r.last_active_at (now + (n + 1) * second)
]

-- Rows in order of `key`, and of insertion where keys agree.
insert_by : (Sandbox → ℕ) → Sandbox → List Sandbox → List Sandbox
insert_by key r [] = r ∷ []
insert_by key r (x ∷ xs) = if ltb (key x) (key r) then x ∷ insert_by key r xs else r ∷ x ∷ xs

unfoldable pub order_by : (Sandbox → ℕ) → List Sandbox → List Sandbox
unfolding insert_by
order_by key [] = []
order_by key (r ∷ rs) = insert_by key r (order_by key rs)

unfoldable pub list_idle_sandboxes : Query (List Sandbox)
list_idle_sandboxes db =
    (ok (order_by (λ r. r.last_active_at) (select (is_idle db.now) db.sandboxes)), db)

unfoldable pub list_running_sandboxes_by_node : ℕ → Query (List Sandbox)
list_running_sandboxes_by_node node db = (
  ok (
      order_by (λ r. r.created_at)
        (select (λ r. on_node node r && state_eq r.state running) db.sandboxes)),
  db,
)

abbrev pub bumped : ℕ → Sandbox → Sandbox
bumped now r = record r { failure_count = r.failure_count + 1; updated_at = now }

unfoldable pub increment_sandbox_failure_count : ℕ → Query Sandbox
increment_sandbox_failure_count id db =
    one (Option.map (bumped db.now) (find (has_id id) db.sandboxes)) db
      (record db { sandboxes = update (has_id id) (bumped db.now) db.sandboxes })

unfoldable pub reset_sandbox_failure_count : ℕ → Query (Unit {0})
reset_sandbox_failure_count id db = (
  ok tt,
  record db {
    sandboxes =
        update (has_id id) (λ r. record r { failure_count = 0; updated_at = db.now }) db.sandboxes;
  },
)

unfoldable pub update_sandbox_runtime : Option String → Option ℤ → ℕ → Query (Unit {0})
update_sandbox_runtime container port id db = (
  ok tt,
  record db {
    sandboxes =
        update (has_id id)
          (λ r. record r { container_id = container; host_port = port; updated_at = db.now })
          db.sandboxes;
  },
)

-- The state that a text names, by the column's CHECK.
abbrev pub parse_state : String → Option SandboxState
parse_state s = find (λ t. str_eq (state_name t) s) all_states

abbrev pub is_live : SandboxState → Bool
is_live pending = true
is_live starting = true
is_live running = true
is_live restarting = true
is_live _ = false

abbrev pub verifiable : String → ℕ → Sandbox → Bool
verifiable name now r = has_app name r && ltb r.verified_at now

abbrev pub verified : SandboxState → ℕ → Sandbox → Sandbox
verified s now r = record r { verified_at = now; state = s }

-- The CHECK is made for a row that is written, so a text that names no state fails only then.
abbrev pub write_verified : Option SandboxState → String → Query (Unit {0})
write_verified none name db =
    if any (verifiable name db.now) db.sandboxes then (err check_violation, db) else (ok tt, db)
write_verified (some s) name db = (
  ok tt,
  record db { sandboxes = update (verifiable name db.now) (verified s db.now) db.sandboxes },
)

unfoldable pub mark_sandbox_verified : String → String → Query (Unit {0})
mark_sandbox_verified name text = write_verified (parse_state text) name

abbrev pub is_lost : String → ℕ → ℕ → Sandbox → Bool
is_lost name node now r =
    has_app name r && on_node node r && is_live r.state && ltb (r.created_at + 60 * second) now

-- `add_reason` is the JSONB merge `metadata || {"reason": …}`.
abbrev pub lost : (String → String → String) → ℕ → Sandbox → Sandbox
lost add_reason now r = record r {
  state = destroyed;
  metadata = add_reason r.metadata "agent_lost_at_heartbeat";
  verified_at = now;
}

unfoldable pub mark_sandbox_agent_lost : (String → String → String) → String → ℕ → Query (Unit {0})
mark_sandbox_agent_lost add_reason name node db = (
  ok tt,
  record db { sandboxes = update (is_lost name node db.now) (lost add_reason db.now) db.sandboxes },
)

unfoldable pub list_sandboxes_for_node : ℕ → Query (List Sandbox)
list_sandboxes_for_node node db =
    (ok (select (λ r. on_node node r && is_live r.state) db.sandboxes), db)

abbrev pub gone : (String → String → String) → String → ℕ → Sandbox → Sandbox
gone add_reason reason now r = record r {
  state = destroyed;
  metadata = add_reason r.metadata reason;
  verified_at = now;
  updated_at = now;
  state_version = r.state_version + 1;
}

unfoldable pub mark_sandbox_destroyed :
    (String → String → String) → String → String → Query (Unit {0})
mark_sandbox_destroyed add_reason name reason db = (
  ok tt,
  record db {
    sandboxes =
        update (λ r. has_app name r && is_live r.state) (gone add_reason reason db.now)
          db.sandboxes;
  },
)
