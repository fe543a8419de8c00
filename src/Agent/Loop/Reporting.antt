-- ===== src/Agent/Loop/Reporting.antt =====
-- An execution reports on its own command.
use appx_forge.Base.{
  ℕ, ◌≡◌, refl, Bool, true, false, Result, Option-cases, Result-cases, ok, err, inl, inr, String,
  ◌*◌, if◌then◌else◌,
}
use appx_forge.Store.{second}
use appx_forge.Ports.{Allocator, PortErr, allocate}
use appx_forge.Executor.{AckResult, StartSandboxPayload, Command, CommandExecutor, Outside, Report}
use appx_forge.Executor.Handlers.{
  ack_success, ack_failure, spec_of, start_on_port, start_allocated, execute, execute_start_sandbox,
  execute_stop_sandbox, execute_restart_sandbox, execute_get_logs, execute_prune,
}

record IsOnCommand (cmd : Command) (r : Report × CommandExecutor) : Type 0 where
  pub same : r.0.cmd_id ≡ cmd.id

module _ (out : Outside) (cmd : Command) where
  if-IsOnCommand :
      (b : Bool) (x y : Report × CommandExecutor)
      → IsOnCommand cmd x
      → IsOnCommand cmd y
      → IsOnCommand cmd (if b then x else y)
  if-IsOnCommand true x y h k = h
  if-IsOnCommand false x y h k = k

  success-IsOnCommand :
      (a : AckResult) (e : CommandExecutor) → IsOnCommand cmd (ack_success out cmd.id a e)
  unfolding ack_success
  success-IsOnCommand a e = record { same = refl }

  failure-IsOnCommand :
      (message : String) (e : CommandExecutor) → IsOnCommand cmd (ack_failure out cmd.id message e)
  unfolding ack_failure
  failure-IsOnCommand message e = record { same = refl }

  allocated-IsOnCommand :
      (payload : StartSandboxPayload) (e : CommandExecutor) (r : Result PortErr ℕ × Allocator)
      → IsOnCommand cmd (start_allocated out cmd payload e r)
  unfolding start_on_port
  allocated-IsOnCommand payload e (err x, a) = failure-IsOnCommand _ _
  allocated-IsOnCommand payload e (ok p, a) =
      elim (Result-cases (out.create_container (spec_of cmd payload p (record e { ports = a })))) [
        | inl (id, h) ↦ rw h (success-IsOnCommand _ _)
        | inr (x, h) ↦ rw h (failure-IsOnCommand _ _)
      ]

  module _ (e : CommandExecutor) where
    start-IsOnCommand : IsOnCommand cmd (execute_start_sandbox out cmd e)
    unfolding execute_start_sandbox
    start-IsOnCommand = elim (Result-cases (out.decode_start cmd.payload)) [
      | inl (payload, h) ↦ rw h (allocated-IsOnCommand payload e (allocate out.turn e.ports))
      | inr (x, h) ↦ rw h (failure-IsOnCommand _ _)
    ]

    stop-IsOnCommand : IsOnCommand cmd (execute_stop_sandbox out cmd e)
    unfolding execute_stop_sandbox
    stop-IsOnCommand = elim (Result-cases (out.decode_stop cmd.payload)) [
      | inr (x, h) ↦ rw h (failure-IsOnCommand _ _)
      | inl (p, h) ↦ elim (Option-cases (out.stop_container p.container_id (10 * second))) [
        | inr (x, k) ↦ rw (h, k) (failure-IsOnCommand _ _)
        | inl k ↦ elim (Option-cases (out.remove_container p.container_id)) [
          | inr (x, l) ↦ rw (h, k, l) (failure-IsOnCommand _ _)
          | inl l ↦ rw (h, k, l) (success-IsOnCommand _ _)
        ]
      ]
    ]

    restart-IsOnCommand : IsOnCommand cmd (execute_restart_sandbox out cmd e)
    unfolding execute_restart_sandbox
    restart-IsOnCommand = elim (Result-cases (out.decode_restart cmd.payload)) [
      | inr (x, h) ↦ rw h (failure-IsOnCommand _ _)
      | inl (p, h) ↦ elim (Option-cases (out.restart_container p.container_id (10 * second))) [
        | inr (x, k) ↦ rw (h, k) (failure-IsOnCommand _ _)
        | inl k ↦ rw (h, k) (success-IsOnCommand _ _)
      ]
    ]

    logs-IsOnCommand : IsOnCommand cmd (execute_get_logs out cmd e)
    unfolding execute_get_logs
    logs-IsOnCommand = elim (Result-cases (out.decode_logs cmd.payload)) [
      | inr (x, h) ↦ rw h (failure-IsOnCommand _ _)
      | inl (p, h) ↦ elim (Result-cases (out.get_logs p.container_id p.tail p.follow)) [
        | inr (x, k) ↦ rw (h, k) (failure-IsOnCommand _ _)
        | inl (reader, k) ↦ elim (Result-cases (out.read_all reader)) [
          | inr (x, l) ↦ rw (h, k, l) (failure-IsOnCommand _ _)
          | inl (text, l) ↦ rw (h, k, l) (success-IsOnCommand _ _)
        ]
      ]
    ]

    prune-IsOnCommand : IsOnCommand cmd (execute_prune out cmd e)
    unfolding execute_prune
    prune-IsOnCommand = success-IsOnCommand _ _

    execute-IsOnCommand : IsOnCommand cmd (execute out cmd e)
    unfolding execute
    execute-IsOnCommand = if-IsOnCommand _ _ _ (failure-IsOnCommand _ _) (
        if-IsOnCommand _ _ _ start-IsOnCommand (
          if-IsOnCommand _ _ _ stop-IsOnCommand (
            if-IsOnCommand _ _ _ restart-IsOnCommand (
              if-IsOnCommand _ _ _ logs-IsOnCommand
                (if-IsOnCommand _ _ _ prune-IsOnCommand (failure-IsOnCommand _ _))))))

    pub execute-cmd_id : (execute out cmd e).0.cmd_id ≡ cmd.id
    execute-cmd_id = execute-IsOnCommand.same
