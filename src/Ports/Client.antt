-- ===== src/Ports/Client.antt =====
-- What the users of the allocator need of each method.
use appx_forge.Base.{
  ℕ, ◌<◌, ◌≡◌, refl, false, not, ◌&&◌, ◌||◌, List, [], ◌∷◌, Result, ok, err, ◌==◌, Bool-cases, inl,
  inr,
}
use appx_forge.Ports.{Allocator, PortErr, none_available, grant, take_first, allocate, release}
use appx_forge.Ports.Sets.{has, key_at, has_other, count, count-key_at}
use appx_forge.Ports.Partition.{IsPartition, grant-IsPartition}
use appx_forge.Ports.Pool.{held, held-grant, has-remove}

-- What `Allocate` gives a client.
pub data Allocation (a : Allocator) : Result PortErr ℕ × Allocator → Type 0 where
  grants :
      (p : ℕ) (b : Allocator)
      → held a p ≡ false
      → ((q : ℕ) → held b q ≡ (p == q) || held a q)
      → IsPartition b
      → Allocation a (ok p, b)
  refuses : (x : PortErr) → Allocation a (err x, a)

take_first-Allocation :
    (turn : ℕ) (ps : List ℕ) (a : Allocator)
    → a.available ≡ ps
    → IsPartition a
    → Allocation a (take_first turn ps a)
take_first-Allocation turn [] a e h = refuses none_available
take_first-Allocation turn (p ∷ ps) a e h =
    let port = key_at turn p ps in
    let free : 0 < count port a.available = rw e (count-key_at turn p ps) in
    let (_, f, g) = held-grant port a h free in
    grants port (grant port a) f g (grant-IsPartition port a h free)

pub allocate-Allocation :
    (turn : ℕ) (a : Allocator) → IsPartition a → Allocation a (allocate turn a)
unfolding allocate
allocate-Allocation turn a h = take_first-Allocation turn a.available a refl h

pub held-release : (p q : ℕ) (a : Allocator) → held (release p a).1 q ≡ not (p == q) && held a q
unfolding release
held-release p q a = elim (Bool-cases (has p a.allocated)) [
  | inl e ↦ rw e (has-remove q p a.allocated)
  | inr e ↦ rw e (has_other p q a.allocated e)
]
