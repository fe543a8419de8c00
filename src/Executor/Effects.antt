-- ===== src/Executor/Effects.antt =====
-- What one execution does to the executor's state, whatever happens outside.
use appx_forge.Base.{
  arith, if◌then◌else◌, ◌*◌, ℕ, ◌≡◌, refl, Bool, true, false, not, ◌&&◌, ◌||◌, some, Option-cases,
  String, Result, Result-cases, inl, inr, ◌==◌,
}
use appx_forge.Store.{second}
use appx_forge.Ports.{Allocator, PortErr}
use appx_forge.Ports.Partition.{IsPartition, release-IsPartition}
use appx_forge.Ports.Client.{Allocation, grants, refuses, allocate-Allocation, held-release}
use appx_forge.Ports.Pool.{held}
use appx_forge.Ports.Sets.{has_other}
use appx_forge.Executor.{
  SandboxInfo, StartSandboxPayload, Command, AckResult, empty_result, started, logs, Outside,
  CommandExecutor, Report,
}
use appx_forge.Base.Dict.{lookup, drop, put}
use appx_forge.Executor.Handlers.{
  ack_success, ack_failure, spec_of, track, give_up_port, start_on_port, start_allocated,
  execute_start_sandbox, untrack, execute_stop_sandbox, execute_restart_sandbox, execute_get_logs,
  execute_prune, execute,
}

abbrev pub is_start : AckResult → Bool
is_start (started cid p) = true
is_start _ = false

pub data Effect (cmd : Command) (e : CommandExecutor) : Report × CommandExecutor → Type 0 where
  nothing : (r : Report) → is_start r.ack.result ≡ false → Effect cmd e (r, e)
  port_returned :
      (r : Report) (e' : CommandExecutor)
      → is_start r.ack.result ≡ false
      → e'.sandboxes ≡ e.sandboxes
      → ((q : ℕ) → held e'.ports q ≡ held e.ports q)
      → IsPartition e'.ports
      → Effect cmd e (r, e')
  starts :
      (r : Report) (e' : CommandExecutor) (info : SandboxInfo)
      → r.ack.status ≡ "success"
      → r.ack.result ≡ started info.container_id info.host_port
      → e'.sandboxes ≡ put cmd.sandbox_id info e.sandboxes
      → held e.ports info.host_port ≡ false
      → ((q : ℕ) → held e'.ports q ≡ (info.host_port == q) || held e.ports q)
      → IsPartition e'.ports
      → Effect cmd e (r, e')
  stops :
      (r : Report) (e' : CommandExecutor) (info : SandboxInfo)
      → r.ack.status ≡ "success"
      → r.ack.result ≡ empty_result
      → lookup cmd.sandbox_id e.sandboxes ≡ some info
      → e'.sandboxes ≡ drop cmd.sandbox_id e.sandboxes
      → ((q : ℕ) → held e'.ports q ≡ not (info.host_port == q) && held e.ports q)
      → IsPartition e'.ports
      → Effect cmd e (r, e')

module _ (out : Outside) (cmd : Command) (e : CommandExecutor) where
  ack_failure-Effect : (message : String) → Effect cmd e (ack_failure out cmd.id message e)
  unfolding ack_failure
  ack_failure-Effect message = nothing _ refl

  ack_success-Effect :
      (result : AckResult)
      → is_start result ≡ false
      → Effect cmd e (ack_success out cmd.id result e)
  unfolding ack_success
  ack_success-Effect res h = nothing _ h

  start_allocated-Effect :
      (payload : StartSandboxPayload) (r : Result PortErr ℕ × Allocator)
      → Allocation e.ports r
      → Effect cmd e (start_allocated out cmd payload e r)
  unfolding start_on_port ack_failure ack_success track give_up_port
  start_allocated-Effect payload _ (grants p b f g h) =
      elim (Result-cases (out.create_container (spec_of cmd payload p (record e { ports = b })))) [
        | inl (cid, c) ↦ rw c (
            starts _ _ (record { container_id = cid; host_port = p; app_name = payload.app_name })
              refl refl refl f g h)
        | inr (x, c) ↦ rw c (
            port_returned _ _ refl refl
              (λ q. ground (arith, held-release p q b, g q, has_other p q e.ports.allocated f))
              (release-IsPartition p b h))
      ]
  start_allocated-Effect payload _ (refuses x) = ack_failure-Effect _

  give_up_port-IsPartition : (p : ℕ) → IsPartition e.ports → IsPartition (give_up_port p e).ports
  unfolding give_up_port
  give_up_port-IsPartition p h = release-IsPartition p e.ports h

  execute_start_sandbox-Effect :
      IsPartition e.ports → Effect cmd e (execute_start_sandbox out cmd e)
  unfolding execute_start_sandbox
  execute_start_sandbox-Effect h = elim (Result-cases (out.decode_start cmd.payload)) [
    | inl (payload, d) ↦
        rw d (start_allocated-Effect payload _ (allocate-Allocation out.turn e.ports h))
    | inr (x, d) ↦ rw d (ack_failure-Effect _)
  ]

  stopped-Effect :
      IsPartition e.ports
      → Effect cmd e (ack_success out cmd.id empty_result (untrack cmd.sandbox_id e))
  unfolding ack_success untrack give_up_port
  stopped-Effect h = elim (Option-cases (lookup cmd.sandbox_id e.sandboxes)) [
    | inl l ↦ rw l (nothing _ refl)
    | inr (info, l) ↦ rw l (
        stops _ _ info refl refl l refl (λ q. held-release info.host_port q e.ports)
          (release-IsPartition info.host_port e.ports h))
  ]

  execute_stop_sandbox-Effect : IsPartition e.ports → Effect cmd e (execute_stop_sandbox out cmd e)
  unfolding execute_stop_sandbox
  execute_stop_sandbox-Effect h = elim (Result-cases (out.decode_stop cmd.payload)) [
    | inr (x, d) ↦ rw d (ack_failure-Effect _)
    | inl (payload, d) ↦
        elim (Option-cases (out.stop_container payload.container_id (10 * second))) [
          | inr (x, s) ↦ rw (d, s) (ack_failure-Effect _)
          | inl s ↦ elim (Option-cases (out.remove_container payload.container_id)) [
            | inr (x, r) ↦ rw (d, s, r) (ack_failure-Effect _)
            | inl r ↦ rw (d, s, r) (stopped-Effect h)
          ]
        ]
  ]

  execute_restart_sandbox-Effect : Effect cmd e (execute_restart_sandbox out cmd e)
  unfolding execute_restart_sandbox
  execute_restart_sandbox-Effect = elim (Result-cases (out.decode_restart cmd.payload)) [
    | inr (x, d) ↦ rw d (ack_failure-Effect _)
    | inl (payload, d) ↦
        elim (Option-cases (out.restart_container payload.container_id (10 * second))) [
          | inr (x, s) ↦ rw (d, s) (ack_failure-Effect _)
          | inl s ↦ rw (d, s) (ack_success-Effect empty_result refl)
        ]
  ]

  execute_get_logs-Effect : Effect cmd e (execute_get_logs out cmd e)
  unfolding execute_get_logs
  execute_get_logs-Effect = elim (Result-cases (out.decode_logs cmd.payload)) [
    | inr (x, d) ↦ rw d (ack_failure-Effect _)
    | inl (payload, d) ↦
        elim (Result-cases (out.get_logs payload.container_id payload.tail payload.follow)) [
          | inr (x, s) ↦ rw (d, s) (ack_failure-Effect _)
          | inl (reader, s) ↦ elim (Result-cases (out.read_all reader)) [
            | inr (x, r) ↦ rw (d, s, r) (ack_failure-Effect _)
            | inl (text, r) ↦ rw (d, s, r) (ack_success-Effect (logs text) refl)
          ]
        ]
  ]

  execute_prune-Effect : Effect cmd e (execute_prune out cmd e)
  unfolding execute_prune
  execute_prune-Effect = ack_success-Effect empty_result refl

  if-Effect :
      (b : Bool) (x y : Report × CommandExecutor)
      → Effect cmd e x
      → Effect cmd e y
      → Effect cmd e (if b then x else y)
  if-Effect true x y h k = h
  if-Effect false x y h k = k

  pub execute-Effect : IsPartition e.ports → Effect cmd e (execute out cmd e)
  unfolding execute
  execute-Effect h = if-Effect _ _ _ (ack_failure-Effect _) (
      if-Effect _ _ _ (execute_start_sandbox-Effect h) (
        if-Effect _ _ _ (execute_stop_sandbox-Effect h) (
          if-Effect _ _ _ execute_restart_sandbox-Effect (
            if-Effect _ _ _ execute_get_logs-Effect
              (if-Effect _ _ _ execute_prune-Effect (ack_failure-Effect _))))))
