-- ===== src/Agent/Tests.antt =====
-- An agent with the container of one sandbox, whose row is older than the window.
use appx_forge.Base.{
  ℕ, zero, suc, ◌≡◌, refl, false, true, none, some, List, [], ◌∷◌, Result, ok, err, str_append,
}
use appx_forge.Base.Int.{pos}
use appx_forge.Base.Dict.{lookup}
use appx_forge.Models.{running}
use appx_forge.Store.{Sandbox}
use appx_forge.Store.Call.{World}
use appx_forge.Store.Quiet.{Runs}
use appx_forge.TestData.{
  sandbox_at, node_one, world_of, calm, calm-IsQuiet, outside, start_it, fresh,
}
use appx_forge.Executor.{SandboxSpec, Command, new_command_executor}
use appx_forge.Reconciler.{FreshnessErr, get_fresh_sandbox}
use appx_forge.Reconciler.Asking.{ask_agent}
use appx_forge.ControlClient.{Client, ClientOutside, ClientErr, replied}
use appx_forge.Docker.{
  DockerOutside, ContainerItem, ContainerSnapshot, container_remove, container_start,
  create_container, prepare_bind_mount, start_created, container_options,
}
use appx_forge.Docker.Labels.{IsMade}
use appx_forge.Agent.Loop.{LoopOutside, new_polling, poll_loop}
use appx_forge.Agent.Loop.Order.{IsServed, poll_loop-IsServed}
use appx_forge.Lifecycle.{LifecycleService}
use appx_forge.Api.{bad_request}
use appx_forge.Api.Agents.{handle_report_event}
use appx_forge.Watcher.{ContainerEvent, SandboxEvent, map_event}
use appx_forge.Agent.Forwarding.{event_report}
use appx_forge.Agent.Forwarding.Loss.{on_wire, report-IsRefused}
use appx_forge.Agent.Answers.{served, Outcome, check-Outcome}
use appx_forge.Agent.Blindness.{IsDestroying, made-destroyed}

abbrev docker : DockerOutside
docker = record {
  join = λ parts. "/data/shop/code";
  show = λ n. "30000";
  nano_cpus = λ n. pos 1000000000;
  mkdir_all = λ dir. none;
  chown = λ dir. none;
  create = λ options. ok "c1";
  start = λ id. none;
}

abbrev shop_spec : SandboxSpec
shop_spec = record {
  sandbox_id = "7";
  app_name = "shop";
  image = "img";
  host_port = 30000;
  cpu_cores = 1;
  memory_mb = pos 512;
  env = [];
  sandbox_dir = "/data";
}

abbrev shop_item : ContainerItem
shop_item = record { id = "c1"; labels = []; state = "running"; ports = 30000 ∷ [] }

shop_item-IsMade : IsMade docker (λ image. []) shop_item
unfolding create_container prepare_bind_mount start_created container_options
shop_item-IsMade = record {
  seccomp_path = "";
  spec = shop_spec;
  options = container_options docker "" "/data/shop/code" shop_spec;
  before = container_remove "forge-shop" true ∷ [];
  after = container_start "c1" ∷ [];
  calls = refl;
  labels = refl;
}

abbrev server : ClientOutside
server = record {
  api_token = "k";
  reply = λ n. replied 200 none;
  ends = λ n. false;
  commands = λ n. none;
}

abbrev client : Client
client = record { node_id = "n1"; token = "t1"; requests = []; pauses = [] }

abbrev old_world : World
old_world =
    let w = world_of (sandbox_at running 0) in record w { db = record w.db { now = 70000000 } }

made-destroyed_example :
    IsDestroying calm server client
      (shop_item ∷ [])
      str_append
      70000000
      10
      70000001
      1
      false
      old_world
      (sandbox_at running 0)
unfolding lookup
made-destroyed_example =
    made-destroyed calm-IsQuiet docker (λ image. []) server client (shop_item ∷ []) str_append
      70000000 10 70000001 1 false old_world node_one (sandbox_at running 0) (λ image. refl)
      (shop_item-IsMade, tt) refl refl refl refl refl refl refl

abbrev shop_snapshot : ContainerSnapshot
shop_snapshot = record {
  app_name = "shop";
  state = "running";
  host_port = pos 30000;
  container_id = "c1";
}

check-Outcome_example :
    (w' : World) × (res : Result FreshnessErr (Sandbox × ℕ)) × Runs calm
      (get_fresh_sandbox str_append 10 70000000 70000001
        (ask_agent (served (ok (shop_snapshot ∷ []))))
        "shop"
        false)
      old_world
      res
      w'
    × Outcome str_append 70000001 "shop" old_world.db
        (sandbox_at running 0)
        (ok (shop_snapshot ∷ []))
        res
        w'.db
check-Outcome_example =
    check-Outcome calm-IsQuiet str_append 10 70000000 70000001 "shop" false old_world
      (sandbox_at running 0) 1 node_one refl refl refl refl refl (ok (shop_snapshot ∷ []))

-- One command is polled, and then nothing.
abbrev commands : ℕ → Result ClientErr (List Command)
commands zero = ok (start_it ∷ [])
commands (suc n) = ok []

abbrev around : LoopOutside
around = record { commands = commands; during = λ n. outside (ok "c"); ended = λ n. false }

poll_loop-IsServed_example : IsServed around fresh (poll_loop around 2 (new_polling fresh))
poll_loop-IsServed_example = poll_loop-IsServed around fresh 2

abbrev death : ContainerEvent
death = record {
  container_id = "c1";
  container_name = "forge-shop";
  action = "die";
  exit_code = "1";
  time = 5;
}

abbrev service : LifecycleService
service = record { route_notifier = true; restart_mgr = true }

report-IsRefused_example :
    (sb : SandboxEvent) × (map_event death ≡ some sb)
    × (handle_report_event service
          (some 1)
          (some (on_wire (λ text. none) (λ oom. "") (event_report (λ text. pos 1) 0 fresh sb)))
          calm
          old_world
        ≡ (err (bad_request "sandbox_id must be a valid UUID"), old_world))
unfolding new_command_executor
report-IsRefused_example =
    report-IsRefused docker shop_spec death fresh (λ text. pos 1) 0 1 (λ text. none) (λ oom. "")
      service calm old_world refl refl refl refl refl
