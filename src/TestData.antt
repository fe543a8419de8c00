-- ===== src/TestData.antt =====
-- Rows, a database and surroundings that the tests of several parts share.
use appx_forge.Base.{ℕ, ◌+◌, refl, true, false, none, some, [], ◌∷◌, String, Result, ok, err}
use appx_forge.Base.Int.{pos}
use appx_forge.Models.{SandboxState, healthy}
use appx_forge.Store.{Sandbox, Node}
use appx_forge.Store.Call.{Env, World, works}
use appx_forge.Store.Quiet.{IsQuiet}
use appx_forge.Ports.{new_allocator}
use appx_forge.Executor.{Outside, Command, CommandExecutor, new_command_executor}

abbrev pub sandbox_at : SandboxState → ℕ → Sandbox
sandbox_at s failures = record {
  id = 7;
  app_name = "shop";
  user_id = "u1";
  node_id = some 1;
  container_id = some "c1";
  host_port = some (pos 30000);
  image = "img";
  state = s;
  state_version = 4;
  resources = "r";
  env = "e";
  idle_timeout_seconds = pos 1800;
  created_at = 10;
  updated_at = 20;
  last_active_at = 20;
  failure_count = failures;
  metadata = "{}";
  verified_at = 20;
}

abbrev pub node_one : Node
node_one = record {
  id = 1;
  hostname = "n1";
  tailscale_ip = "100.64.0.1";
  agent_listen_port = pos 8090;
  capacity_mb = pos 4096;
  capacity_cpu = "4.0";
  used_mb = pos 1024;
  running_containers = pos 1;
  status = healthy;
  agent_version = "1";
  last_seen_at = 0;
  registered_at = 0;
  metadata = "{}";
  agent_token = "";
}

abbrev pub world_of : Sandbox → World
world_of r = record {
  db = record { sandboxes = r ∷ []; nodes = node_one ∷ []; commands = []; events = []; now = 100 };
  calls = 0;
  uuids = 0;
  route_calls = [];
}

-- Nothing fails and nobody interferes.
abbrev pub calm : Env
calm = record {
  interfere = λ n db. db;
  fault = λ n. works;
  new_uuid = λ n. n + 50;
  message = λ e. "";
  contains = λ s t. false;
  encode_resources = λ r. "r";
  decode_resources = λ s. (record { cpu_cores = 0; memory_mb = pos 512 }, true);
  encode_env = λ m. "e";
  decode_env = λ s. ([], true);
  decode_runtime = λ s. none;
  show_int = λ n. "30000";
}

pub calm-IsQuiet : IsQuiet calm
calm-IsQuiet = record { alone = λ n db. refl; sound = λ n. refl }

-- Docker works, and every payload decodes to the same container.
abbrev pub outside : Result String String → Outside
outside created = record {
  now = 1;
  turn = 0;
  show = λ n. "n";
  decode_start = λ s. ok (record {
    app_name = "app";
    image = "img";
    resources = record { cpu_cores = 1; memory_mb = pos 512 };
    env = [];
  });
  decode_stop = λ s. ok (record { container_id = "c" });
  decode_restart = λ s. ok (record { container_id = "c" });
  decode_logs = λ s. err "bad";
  create_container = λ spec. created;
  stop_container = λ c t. none;
  remove_container = λ c. none;
  restart_container = λ c t. none;
  get_logs = λ c t f. err "none";
  read_all = λ r. ok r;
  ack_command = λ c a. none;
}

abbrev pub start_it : Command
start_it = record {
  id = "k";
  command_type = "start_sandbox";
  sandbox_id = "s";
  payload = "{}";
  issued_at = 0;
  timeout_seconds = pos 60;
}

abbrev pub fresh : CommandExecutor
fresh = new_command_executor (new_allocator 40000 40009) "/data"
