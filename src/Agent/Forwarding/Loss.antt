-- ===== src/Agent/Forwarding/Loss.antt =====
-- From Docker's event about a created container to the control plane's answer.
use text.Mathlib.Text.{starts_with}
use text.Mathlib.TextPositions.{starts_with-append}
use appx_forge.Base.{
  ℕ, ◌≡◌, refl, ap, ◌∙◌, Bool, true, false, ◌||◌, Bool-cases, inl, inr, Option, none, some, [],
  String, trim_prefix, trim_prefix-append, str_append, str_eq, err, arith,
}
use appx_forge.Base.Int.{ℤ}
use appx_forge.Store.Call.{Env, World, fail, ◌>>=◌, pure}
use appx_forge.Lifecycle.{LifecycleService}
use appx_forge.Api.{bad_request}
use appx_forge.Api.Agents.{EventRequest, handle_report_event}
use appx_forge.Executor.{SandboxSpec, CommandExecutor}
use appx_forge.Docker.{container_name, DockerOutside}
use appx_forge.Watcher.{ContainerEvent, SandboxEvent, container_prefix, map_event, event_of}
use appx_forge.Agent.Forwarding.{EventReport, named, pick, resolve_sandbox_id, event_report}

-- What the control plane decodes of a report: `parse` reads a UUID, `encode` is the payload's text.
abbrev pub on_wire : (String → Option ℕ) → (Bool → String) → EventReport → EventRequest
on_wire parse encode r = record {
  sandbox_id = r.sandbox_id;
  sandbox = parse r.sandbox_id;
  event_type = r.event_type;
  payload = encode r.oom_payload;
}

-- An event of a container that is named for an application.
mapped-named :
    (ev : ContainerEvent) (app : String)
    → ev.container_name ≡ str_append container_prefix app
    → str_eq ev.action "die" || str_eq ev.action "oom" || str_eq ev.action "start" ≡ true
    → (sb : SandboxEvent) × (map_event ev ≡ some sb)
      × (sb.app_name ≡ app)
      × (str_eq sb.event_type "" ≡ false)
unfolding map_event
mapped-named ev app n a =
    let starts : starts_with ev.container_name container_prefix ≡ true =
      ap (λ t. starts_with t container_prefix) n ∙ starts_with-append container_prefix app in
    let trims : trim_prefix ev.container_name container_prefix ≡ app =
      ap (λ t. trim_prefix t container_prefix) n ∙ trim_prefix-append container_prefix app in
    elim (Bool-cases (str_eq ev.action "die")) [
      | inl d ↦ (event_of ev "container_exited" false, rw (starts, d) refl, trims, refl)
      | inr d ↦ elim (Bool-cases (str_eq ev.action "oom")) [
        | inl o ↦ (event_of ev "container_oom" true, rw (starts, d, o) refl, trims, refl)
        | inr o ↦ (
          event_of ev "container_started" false,
          rw (starts, d, o, is_start ev d o a) refl,
          trims,
          refl,
        )
      ]
    ]
  where
    is_start :
        (ev : ContainerEvent)
        → str_eq ev.action "die" ≡ false
        → str_eq ev.action "oom" ≡ false
        → str_eq ev.action "die" || str_eq ev.action "oom" || str_eq ev.action "start" ≡ true
        → str_eq ev.action "start" ≡ true
    is_start ev d o a = ground (arith, d, o, a)

module _ (docker : DockerOutside) where
  -- Where the executor tracks no sandbox of an application, as after the agent has been started again
  -- while the container runs, the death, the OOM kill or the start of the application's container is
  -- an event that the watcher passes on, and the control plane refuses the report of it with 400,
  -- whatever its tables are and whatever the surroundings do, and nothing changes. The name of
  -- the application must not be empty and no UUID, the node's identifier one.
  pub report-IsRefused :
      (spec : SandboxSpec) (ev : ContainerEvent) (e : CommandExecutor) (scan : String → ℤ)
      (turn node : ℕ) (parse : String → Option ℕ) (encode : Bool → String) (ls : LifecycleService)
      (env : Env) (w : World)
      → ev.container_name ≡ container_name docker spec
      → str_eq ev.action "die" || str_eq ev.action "oom" || str_eq ev.action "start" ≡ true
      → named spec.app_name e.sandboxes ≡ []
      → str_eq spec.app_name "" ≡ false
      → parse spec.app_name ≡ none
      → (sb : SandboxEvent) × (map_event ev ≡ some sb)
        × (handle_report_event ls
              (some node)
              (some (on_wire parse encode (event_report scan turn e sb)))
              env
              w
            ≡ (err (bad_request "sandbox_id must be a valid UUID"), w))
  unfolding handle_report_event event_report resolve_sandbox_id pick fail pure ◌>>=◌
  report-IsRefused spec ev e scan turn node parse encode ls env w made action none_named real
        no_uuid =
      let (sb, sent, app, typed) = mapped-named ev spec.app_name made action in
      (sb, sent, rw (app, none_named, real, typed, no_uuid) refl)
