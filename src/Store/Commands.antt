-- ===== src/Store/Commands.antt =====
-- The statements of commands.sql.go and events.sql.go in control/internal/store.
use appx_forge.Base.{
  ℕ, Bool, true, false, not, ◌&&◌, Option, none, some, List, [], ◌∷◌, ◌++◌, String, ok, err, ◌==◌,
  if◌then◌else◌, find, any, select, take, map, leb,
}
use appx_forge.Models.{SandboxState, CommandType, CommandStatus, cmd_pending, cmd_dispatched}
use appx_forge.Store.{
  Node, Command, Event, Payload, Db, no_rows, unique_violation, fk_violation, not_null_violation,
  Query,
}
use appx_forge.Store.Table.{update}
use appx_forge.Store.Sandboxes.{has_id}

pub record CreateCommandParams : Type 0 where
  pub id : ℕ
  pub node_id : Option ℕ
  pub sandbox_id : Option ℕ
  pub command_type : CommandType
  pub payload : Payload
  pub timeout_seconds : ℕ

abbrev pub new_command : CreateCommandParams → ℕ → ℕ → Command
new_command a node now = record {
  id = a.id;
  node_id = node;
  sandbox_id = a.sandbox_id;
  command_type = a.command_type;
  payload = a.payload;
  status = cmd_pending;
  dispatched_at = none;
  acked_at = none;
  result = none;
  timeout_seconds = a.timeout_seconds;
  created_at = now;
}

-- The row that a foreign key names is there, or the key is NULL.
abbrev pub sandbox_exists : Option ℕ → Db → Bool
sandbox_exists none db = true
sandbox_exists (some s) db = any (has_id s) db.sandboxes

unfoldable pub insert_command : CreateCommandParams → ℕ → Query Command
insert_command a node db =
    let c = new_command a node db.now in
    if any (λ (x : Command). x.id == a.id) db.commands
    then (err unique_violation, db)
    else if not (any (λ (n : Node). n.id == node) db.nodes)
    then (err fk_violation, db)
    else if not (sandbox_exists a.sandbox_id db)
    then (err fk_violation, db)
    else (ok c, record db { commands = db.commands ++ c ∷ [] })

-- `node_id` is NOT NULL.
unfoldable pub create_command : CreateCommandParams → Query Command
unfolding insert_command
create_command a db = elim a.node_id [
  | none ↦ (err not_null_violation, db)
  | some node ↦ insert_command a node db
]

unfoldable pub get_command : ℕ → Query Command
get_command id db = elim (find (λ (c : Command). c.id == id) db.commands) [
  | none ↦ (err no_rows, db)
  | some c ↦ (ok c, db)
]

unfoldable pub ack_command : ℕ → CommandStatus → Option String → Query (Unit {0})
ack_command id status result db = (
  ok tt,
  record db {
    commands =
        update (λ (c : Command). c.id == id)
          (λ c. record c { status = status; acked_at = some db.now; result = result }) db.commands;
  },
)

abbrev pub is_cmd_pending : CommandStatus → Bool
is_cmd_pending cmd_pending = true
is_cmd_pending _ = false

abbrev pub due : ℕ → Command → Bool
due node c = c.node_id == node && is_cmd_pending c.status

abbrev pub dispatched : ℕ → Command → Command
dispatched now c = record c { status = cmd_dispatched; dispatched_at = some now }

-- What SQL leaves open: the order in which the rows reach the sort, which decides between commands of
-- one instant, and the order in which RETURNING gives the rows back.
pub record RowOrder : Type 0 where
  pub scanned : List Command → List Command
  pub returned : List Command → List Command

abbrev pub insert_created : Command → List Command → List Command
insert_created c [] = c ∷ []
insert_created c (d ∷ ds) =
    let rest = insert_created c ds in if leb c.created_at d.created_at then c ∷ d ∷ ds else d ∷ rest

-- ORDER BY created_at ASC.
unfoldable pub by_created : List Command → List Command
by_created [] = []
by_created (c ∷ cs) = insert_created c (by_created cs)

-- The sub-select with its LIMIT.
unfoldable pub oldest_due : RowOrder → ℕ → ℕ → List Command → List Command
oldest_due o n node cs = take n (by_created (o.scanned (select (due node) cs)))

-- `id IN (...)`.
abbrev pub is_among : List Command → Command → Bool
is_among chosen c = any (λ (k : Command). k.id == c.id) chosen

-- The rows dispatched, and the table after.
unfoldable pub poll_rows : RowOrder → ℕ → ℕ → ℕ → List Command → List Command × List Command
poll_rows o n node now cs =
    let chosen = is_among (oldest_due o n node cs) in
    (o.returned (map (dispatched now) (select chosen cs)), update chosen (dispatched now) cs)

unfoldable pub poll_pending_commands : RowOrder → ℕ → Query (List Command)
unfolding poll_rows
poll_pending_commands o node db =
    let (out, rest) = poll_rows o 10 node db.now db.commands in
    (ok out, record db { commands = rest })

pub record RecordEventParams : Type 0 where
  pub sandbox_id : Option ℕ
  pub node_id : Option ℕ
  pub event_type : String
  pub actor : String
  pub prev_state : Option SandboxState
  pub next_state : Option SandboxState
  pub payload : Payload

abbrev pub new_event : RecordEventParams → ℕ → Event
new_event a now = record {
  sandbox_id = a.sandbox_id;
  node_id = a.node_id;
  event_type = a.event_type;
  actor = a.actor;
  prev_state = a.prev_state;
  next_state = a.next_state;
  payload = a.payload;
  created_at = now;
}

unfoldable pub record_event : RecordEventParams → Query Event
record_event a db = let e = new_event a db.now in (ok e, record db { events = db.events ++ e ∷ [] })
