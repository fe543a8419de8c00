-- ===== src/Ports.antt =====
-- agent/internal/ports/allocator.go: the pool of host ports of an agent. The mutex makes every method
-- one step. Ports are natural numbers, and a `map[int]bool` whose values are all true is the list of
-- its keys.
pub mod Sets
pub mod Partition
pub mod Pool
pub mod Client
mod Tests
use appx_forge.Base.{
  ℕ, zero, suc, ◌+◌, ◌-◌, Bool, true, false, not, ◌||◌, List, [], ◌∷◌, Result, ok, err, ltb,
  if◌then◌else◌, length,
}
use appx_forge.Ports.Sets.{has, insert, remove, key_at}

pub record Allocator : Type 0 where
  pub available : List ℕ
  pub allocated : List ℕ
  pub min : ℕ
  pub max : ℕ

pub data PortErr : Type 0 where
  none_available : PortErr
  out_of_range already_allocated not_available not_allocated : ℕ → PortErr

-- The keys that `n` turns of the loop from `p` on put into the map.
unfoldable pub ports_from : ℕ → ℕ → List ℕ
ports_from zero p = []
ports_from (suc n) p = p ∷ ports_from n (suc p)

unfoldable pub new_allocator : ℕ → ℕ → Allocator
new_allocator min max = record {
  available = ports_from (max + 1 - min) min;
  allocated = [];
  min = min;
  max = max;
}

-- `delete(a.available, port)` and `a.allocated[port] = true`.
unfoldable pub grant : ℕ → Allocator → Allocator
grant port a = record a { available = remove port a.available; allocated = insert port a.allocated }

-- The first key of Go's iteration over a map is any of its keys: `turn` says which.
abbrev pub take_first : ℕ → List ℕ → Allocator → Result PortErr ℕ × Allocator
take_first turn [] a = (err none_available, a)
take_first turn (p ∷ ps) a = let port = key_at turn p ps in (ok port, grant port a)

unfoldable pub allocate : ℕ → Allocator → Result PortErr ℕ × Allocator
allocate turn a = take_first turn a.available a

unfoldable pub allocate_specific : ℕ → Allocator → Result PortErr (Unit {0}) × Allocator
allocate_specific port a =
    if ltb port a.min || ltb a.max port
    then (err (out_of_range port), a)
    else if has port a.allocated
    then (err (already_allocated port), a)
    else if not (has port a.available)
    then (err (not_available port), a)
    else (ok tt, grant port a)

unfoldable pub release : ℕ → Allocator → Result PortErr (Unit {0}) × Allocator
release port a = if not (has port a.allocated) then (err (not_allocated port), a) else (
  ok tt,
  record a { available = insert port a.available; allocated = remove port a.allocated },
)

unfoldable pub in_use : Allocator → ℕ
in_use a = length a.allocated

unfoldable pub available_count : Allocator → ℕ
available_count a = length a.available
