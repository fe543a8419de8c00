-- ===== src/Ports/Tests.antt =====
-- The allocator's theorems at runs over three ports.
use appx_forge.Base.{leb, ◌&&◌, false, List, [], ◌∷◌}
use appx_forge.Ports.{new_allocator}
use appx_forge.Ports.Partition.{IsPartition}
use appx_forge.Ports.Pool.{
  Call, take, take_port, give_back, Trace, serve_all, after_calls, serve_all-Trace,
  after_calls-IsPartition,
}

abbrev calls : List Call
calls =
    take 1
    ∷ take_port 40000
    ∷ take_port 40001
    ∷ take 0
    ∷ take 0
    ∷ give_back 40001
    ∷ take 7
    ∷ give_back 9
    ∷ take_port 9
    ∷ []

serve_all-Trace_example :
    Trace
      (λ p. leb 40000 p && leb p 40002)
      (λ p. false)
      (serve_all calls (new_allocator 40000 40002))
serve_all-Trace_example = serve_all-Trace 40000 40002 calls

after_calls-IsPartition_example : IsPartition (after_calls calls (new_allocator 40000 40002))
after_calls-IsPartition_example = after_calls-IsPartition 40000 40002 calls
