-- ===== src/Store/Nodes.antt =====
-- The statements of control/internal/store/nodes.sql.go.
use appx_forge.Base.{
  ℕ, Bool, true, false, ◌&&◌, Option, none, some, List, [], ◌∷◌, ◌++◌, String, ok, err, ◌==◌,
  str_eq, ltb, if◌then◌else◌, find, any, select, length,
}
use appx_forge.Base.Int.{ℤ, pos, ◌-ℤ◌, ltb_ℤ}
use appx_forge.Models.{SandboxState, stopped, destroyed, NodeStatus, healthy}
use appx_forge.Store.{Sandbox, Node, no_rows, unique_violation, Query}
use appx_forge.Store.Table.{update}
use appx_forge.Store.Sandboxes.{on_node}

abbrev pub node_has_id : ℕ → Node → Bool
node_has_id id n = n.id == id

abbrev pub one_node : Option Node → Query Node
one_node none db = (err no_rows, db)
one_node (some n) db = (ok n, db)

unfoldable pub get_node : ℕ → Query Node
get_node id db = one_node (find (node_has_id id) db.nodes) db

abbrev pub at_address : String → String → Node → Bool
at_address host ip n = str_eq n.hostname host && str_eq n.tailscale_ip ip

unfoldable pub get_node_by_hostname_and_ip : String → String → Query Node
get_node_by_hostname_and_ip host ip db = one_node (find (at_address host ip) db.nodes) db

pub record CreateNodeParams : Type 0 where
  pub id : ℕ
  pub hostname : String
  pub tailscale_ip : String
  pub agent_listen_port : ℤ
  pub capacity_mb : ℤ
  pub capacity_cpu : String
  pub agent_version : String
  pub metadata : String

abbrev pub new_node : CreateNodeParams → ℕ → Node
new_node a now = record {
  id = a.id;
  hostname = a.hostname;
  tailscale_ip = a.tailscale_ip;
  agent_listen_port = a.agent_listen_port;
  capacity_mb = a.capacity_mb;
  capacity_cpu = a.capacity_cpu;
  used_mb = pos 0;
  running_containers = pos 0;
  status = healthy;
  agent_version = a.agent_version;
  last_seen_at = now;
  registered_at = now;
  metadata = a.metadata;
  agent_token = "";
}

unfoldable pub create_node : CreateNodeParams → Query Node
create_node a db =
    let n = new_node a db.now in
    if any (node_has_id a.id) db.nodes
    then (err unique_violation, db)
    else (ok n, record db { nodes = db.nodes ++ n ∷ [] })

abbrev pub is_healthy : NodeStatus → Bool
is_healthy healthy = true
is_healthy _ = false

abbrev free_mb : Node → ℤ
free_mb n = n.capacity_mb -ℤ n.used_mb

insert_node : Node → List Node → List Node
unfolding ◌-ℤ◌
insert_node n [] = n ∷ []
insert_node n (x ∷ xs) = if ltb_ℤ (free_mb n) (free_mb x) then x ∷ insert_node n xs else n ∷ x ∷ xs

by_free_mb : List Node → List Node
unfolding insert_node
by_free_mb [] = []
by_free_mb (n ∷ ns) = insert_node n (by_free_mb ns)

-- ORDER BY (capacity_mb - used_mb) DESC; rows of one key in order of insertion.
unfoldable pub list_healthy_nodes : Query (List Node)
unfolding by_free_mb
list_healthy_nodes db = (ok (by_free_mb (select (λ n. is_healthy n.status) db.nodes)), db)

unfoldable pub update_node_heartbeat : ℕ → ℤ → ℤ → Query (Unit {0})
update_node_heartbeat id used running db = (
  ok tt,
  record db {
    nodes =
        update (node_has_id id)
          (λ n. record n {
            used_mb = used;
            running_containers = running;
            status = healthy;
            last_seen_at = db.now;
          })
          db.nodes;
  },
)

unfoldable pub update_node_status : ℕ → NodeStatus → Query (Unit {0})
update_node_status id status db = (
  ok tt,
  record db { nodes = update (node_has_id id) (λ n. record n { status = status }) db.nodes },
)

abbrev pub with_token : String → String → ℕ → Node → Node
with_token token version now n = record n {
  agent_token = token;
  agent_version = version;
  last_seen_at = now;
}

unfoldable pub update_node_token : String → String → ℕ → Query (Unit {0})
update_node_token token version id db = (
  ok tt,
  record db { nodes = update (node_has_id id) (with_token token version db.now) db.nodes },
)

abbrev pub counts_as_active : SandboxState → Bool
counts_as_active destroyed = false
counts_as_active stopped = false
counts_as_active _ = true

unfoldable pub count_active_sandboxes_by_node : ℕ → Query ℕ
count_active_sandboxes_by_node node db = (
  ok (length (select (λ (r : Sandbox). on_node node r && counts_as_active r.state) db.sandboxes)),
  db,
)

-- ORDER BY registered_at DESC; rows of one time in order of insertion.
unfoldable pub insert_newer : Node → List Node → List Node
insert_newer n [] = n ∷ []
insert_newer n (x ∷ xs) =
    if ltb n.registered_at x.registered_at then x ∷ insert_newer n xs else n ∷ x ∷ xs

unfoldable pub newest_first : List Node → List Node
unfolding insert_newer
newest_first [] = []
newest_first (n ∷ ns) = insert_newer n (newest_first ns)

unfoldable pub list_nodes : Query (List Node)
unfolding newest_first
list_nodes db = (ok (newest_first db.nodes), db)
