-- ===== src/Executor/Leak.antt =====
-- A sandbox that is started again loses its former port.
use appx_forge.Base.{ℕ, ◌≡◌, ◌≢◌, true, List, [], ◌∷◌, String, inl, inr, ==_iff, arith}
use appx_forge.Ports.Pool.{held}
use appx_forge.Executor.{SandboxInfo, Command, Outside, CommandExecutor, Report}
use appx_forge.Base.Dict.{lookup-put_cases, lookup-drop-some}
use appx_forge.Executor.Handlers.{execute}
use appx_forge.Executor.Effects.{
  Effect, nothing, port_returned, starts, stops, is_start, execute-Effect,
}
use appx_forge.Executor.Tracking.{Tracks, IsTracking, execute-IsTracking, execute_all}

-- A port that is held although no tracked sandbox has it.
pub record IsLeaked (p : ℕ) (e : CommandExecutor) : Type 0 where
  pub taken : held e.ports p ≡ true
  pub ownerless : (id : String) (info : SandboxInfo) → Tracks e id info → info.host_port ≢ p

Effect-IsLeaked :
    (p : ℕ) (cmd : Command) (e : CommandExecutor) (r : Report × CommandExecutor)
    → Effect cmd e r
    → IsLeaked p e
    → IsLeaked p r.1
Effect-IsLeaked p cmd e _ (nothing r n) h = h
Effect-IsLeaked p cmd e _ (port_returned r e' n s k q) h = record {
  taken = ground (arith, h.taken, k p);
  ownerless = λ id info t. h.ownerless id info (ground (arith, s));
}
Effect-IsLeaked p cmd e _ (starts r e' new _ _ s f k q) h = record {
  taken = ground (arith, h.taken, k p);
  ownerless = λ id info t o.
      elim (lookup-put_cases id cmd.sandbox_id new info e.sandboxes (ground (arith, s))) [
        | inl (_, i) ↦ ground (arith, i, h.taken)
        | inr (_, l) ↦ h.ownerless id info l o
      ];
}
Effect-IsLeaked p cmd e _ (stops r e' old _ _ l s k q) h = record {
  taken = ground (arith, h.taken, k p, h.ownerless cmd.sandbox_id old l, ==_iff old.host_port p);
  ownerless = λ id info t.
      h.ownerless id info
        (lookup-drop-some id cmd.sandbox_id info e.sandboxes (ground (arith, s))).1;
}

execute_all-IsLeaked :
    (p : ℕ) (run : List (Outside × Command)) (e : CommandExecutor)
    → IsTracking e
    → IsLeaked p e
    → IsLeaked p (execute_all run e)
unfolding execute_all
execute_all-IsLeaked p [] e t h = h
execute_all-IsLeaked p ((out, cmd) ∷ rest) e t h =
    execute_all-IsLeaked p rest (execute out cmd e).1 (execute-IsTracking out cmd e t)
      (Effect-IsLeaked p cmd e (execute out cmd e) (execute-Effect out cmd e t.partition) h)

restart-IsLeaked :
    (cmd : Command) (e : CommandExecutor) (r : Report × CommandExecutor) (info : SandboxInfo)
    → Effect cmd e r
    → IsTracking e
    → Tracks e cmd.sandbox_id info
    → is_start r.0.ack.result ≡ true
    → IsLeaked info.host_port r.1
restart-IsLeaked cmd e _ info (nothing r n) h t s = ground arith
restart-IsLeaked cmd e _ info (port_returned r e' n _ k q) h t s = ground arith
restart-IsLeaked cmd e _ info (starts r e' new _ _ m f k q) h t s = record {
  taken = ground (arith, h.holds cmd.sandbox_id info t, k info.host_port);
  ownerless = λ id other u o.
      elim (lookup-put_cases id cmd.sandbox_id new other e.sandboxes (ground (arith, m))) [
        | inl (_, i) ↦ ground (arith, i, h.holds cmd.sandbox_id info t)
        | inr (n, l) ↦ n (h.apart id cmd.sandbox_id other info l t o)
      ];
}
restart-IsLeaked cmd e _ info (stops r e' old _ z l m k q) h t s = ground (arith, z)

-- Where every tracked sandbox holds its own port and the maps of the allocator split its range, a
-- start command for a sandbox that the executor tracks already, once it is acknowledged with a
-- new container, takes the former port away from the sandbox without releasing it: whatever
-- commands follow, the allocator counts that port as held and no tracked sandbox has it.
pub start_again-IsLeaked :
    (out : Outside) (cmd : Command) (e : CommandExecutor) (info : SandboxInfo)
    (rest : List (Outside × Command))
    → IsTracking e
    → Tracks e cmd.sandbox_id info
    → is_start (execute out cmd e).0.ack.result ≡ true
    → IsLeaked info.host_port (execute_all rest (execute out cmd e).1)
start_again-IsLeaked out cmd e info rest h t s =
    execute_all-IsLeaked info.host_port rest (execute out cmd e).1 (execute-IsTracking out cmd e h)
      (restart-IsLeaked cmd e (execute out cmd e) info (execute-Effect out cmd e h.partition) h t s)
