-- ===== src/Ports/Pool.antt =====
-- What the allocator promises: a set of ports that are held, and what each call may do to it.
use appx_forge.Base.{
  ℕ, ◌<◌, ◌≡◌, ◌∙◌, subst, refl, Bool, true, false, not, ◌&&◌, ◌||◌, List, [], ◌∷◌, Result, ok, err,
  ltb, leb, ◌==◌, arith, Bool-cases, inl, inr,
}
use appx_forge.Ports.{
  Allocator, PortErr, none_available, out_of_range, already_allocated, not_allocated, new_allocator,
  grant, take_first, allocate, allocate_specific, release,
}
use appx_forge.Ports.Sets.{
  has, insert, remove, key_at, count, has-count, count-remove, count-insert, count-key_at,
}
use appx_forge.Ports.Partition.{
  within, IsPartition, allocate-IsPartition, allocate_specific-IsPartition, release-IsPartition,
  new_allocator-IsPartition,
}

-- `take` holds the key that Go's iteration starts with.
pub data Call : Type 0 where
  take take_port give_back : ℕ → Call

pub data Reply : Type 0 where
  granted : ℕ → Reply
  freed : Reply
  denied : PortErr → Reply

abbrev granted_reply : Result PortErr ℕ → Reply
granted_reply (ok p) = granted p
granted_reply (err e) = denied e

abbrev unit_reply : Reply → Result PortErr (Unit {0}) → Reply
unit_reply r (ok _) = r
unit_reply r (err e) = denied e

unfoldable pub serve : Call → Allocator → Reply × Allocator
serve (take turn) a = let (r, b) = allocate turn a in (granted_reply r, b)
serve (take_port p) a = let (r, b) = allocate_specific p a in (unit_reply (granted p) r, b)
serve (give_back p) a = let (r, b) = release p a in (unit_reply freed r, b)

unfoldable pub serve_all : List Call → Allocator → List (Call × Reply)
serve_all [] a = []
serve_all (c ∷ cs) a = let (r, b) = serve c a in (c, r) ∷ serve_all cs b

-- A pool over a range: `held` before a call and `held'` after it.
pub data Step (inside held held' : ℕ → Bool) : Call → Reply → Type 0 where
  took :
      (turn p : ℕ)
      → inside p ≡ true
      → held p ≡ false
      → ((q : ℕ) → held' q ≡ (p == q) || held q)
      → Step inside held held' (take turn) (granted p)
  exhausted :
      (turn : ℕ)
      → ((p : ℕ) → held p ≡ inside p)
      → ((q : ℕ) → held' q ≡ held q)
      → Step inside held held' (take turn) (denied none_available)
  took_port :
      (p : ℕ)
      → inside p ≡ true
      → held p ≡ false
      → ((q : ℕ) → held' q ≡ (p == q) || held q)
      → Step inside held held' (take_port p) (granted p)
  outside :
      (p : ℕ)
      → inside p ≡ false
      → ((q : ℕ) → held' q ≡ held q)
      → Step inside held held' (take_port p) (denied (out_of_range p))
  busy :
      (p : ℕ)
      → inside p ≡ true
      → held p ≡ true
      → ((q : ℕ) → held' q ≡ held q)
      → Step inside held held' (take_port p) (denied (already_allocated p))
  gave :
      (p : ℕ)
      → held p ≡ true
      → ((q : ℕ) → held' q ≡ not (p == q) && held q)
      → Step inside held held' (give_back p) freed
  not_held :
      (p : ℕ)
      → held p ≡ false
      → ((q : ℕ) → held' q ≡ held q)
      → Step inside held held' (give_back p) (denied (not_allocated p))

abbrev pub held : Allocator → ℕ → Bool
held a p = has p a.allocated

-- The replies of a run of the pool from a set of held ports.
pub data Trace (inside : ℕ → Bool) : (ℕ → Bool) → List (Call × Reply) → Type 0 where
  done : {held : ℕ → Bool} → Trace inside held []
  next :
      {held held' : ℕ → Bool} {c : Call} {r : Reply} {rest : List (Call × Reply)}
      → Step inside held held' c r
      → Trace inside held' rest
      → Trace inside held ((c, r) ∷ rest)

pub held-grant :
    (p : ℕ) (a : Allocator)
    → IsPartition a
    → 0 < count p a.available
    → (within a p ≡ true)
      × (held a p ≡ false)
      × ((q : ℕ) → held (grant p a) q ≡ (p == q) || held a q)
unfolding grant
held-grant p a h free = (
  ground (arith, h.split p),
  ground (arith, h.split p, has-count p a.allocated),
  λ q. ground (
    arith,
    h.split p,
    has-count p a.allocated,
    has-count q a.allocated,
    has-count q (insert p a.allocated),
    count-insert q p a.allocated,
  ),
)

take_first-Step :
    (turn : ℕ) (ps : List ℕ) (a : Allocator)
    → a.available ≡ ps
    → IsPartition a
    → Step
        (within a)
        (held a)
        (held (take_first turn ps a).1)
        (take turn)
        (granted_reply (take_first turn ps a).0)
take_first-Step turn [] a e h =
    exhausted turn (λ p. ground (arith, e, h.split p, has-count p a.allocated)) (λ q. refl)
take_first-Step turn (p ∷ ps) a e h =
    let (i, f, g) = held-grant (key_at turn p ps) a h (rw e (count-key_at turn p ps)) in
    took turn (key_at turn p ps) i f g

has-available :
    (p : ℕ) (a : Allocator)
    → IsPartition a
    → within a p ≡ true
    → held a p ≡ false
    → has p a.available ≡ true
has-available p a h i f =
    ground (arith, h.split p, has-count p a.allocated, has-count p a.available)

pub has-remove : (q p : ℕ) (ps : List ℕ) → has q (remove p ps) ≡ not (p == q) && has q ps
has-remove q p ps = ground (arith, has-count q (remove p ps), has-count q ps, count-remove q p ps)

serve-Step :
    (c : Call) (a : Allocator)
    → IsPartition a
    → Step (within a) (held a) (held (serve c a).1) c (serve c a).0
unfolding serve allocate allocate_specific release
serve-Step (take turn) a h = take_first-Step turn a.available a refl h
serve-Step (take_port p) a h = elim (Bool-cases (ltb p a.min || ltb a.max p)) [
  | inl e ↦ rw e (outside p (ground arith) (λ q. refl))
  | inr e ↦ elim (Bool-cases (has p a.allocated)) [
    | inl f ↦ rw (e, f) (busy p (ground arith) f (λ q. refl))
    | inr f ↦
        let g = has-available p a h (ground arith) f in
        let (i, _, k) = held-grant p a h (ground (arith, has-count p a.available)) in
        rw (e, f, g) (took_port p i f k)
  ]
]
serve-Step (give_back p) a h = elim (Bool-cases (has p a.allocated)) [
  | inl e ↦ rw e (gave p e (λ q. has-remove q p a.allocated))
  | inr e ↦ rw e (not_held p e (λ q. refl))
]

serve-IsPartition : (c : Call) (a : Allocator) → IsPartition a → IsPartition (serve c a).1
unfolding serve
serve-IsPartition (take turn) a h = allocate-IsPartition turn a h
serve-IsPartition (take_port p) a h = allocate_specific-IsPartition p a h
serve-IsPartition (give_back p) a h = release-IsPartition p a h

take_first-range :
    (turn : ℕ) (ps : List ℕ) (a : Allocator) → within (take_first turn ps a).1 ≡ within a
unfolding grant
take_first-range turn [] a = refl
take_first-range turn (p ∷ ps) a = refl

serve-range : (c : Call) (a : Allocator) → within (serve c a).1 ≡ within a
unfolding serve allocate allocate_specific release grant
serve-range (take turn) a = take_first-range turn a.available a
serve-range (take_port p) a = elim (Bool-cases (ltb p a.min || ltb a.max p)) [
  | inl e ↦ rw e refl
  | inr e ↦ elim (Bool-cases (has p a.allocated)) [
    | inl f ↦ rw (e, f) refl
    | inr f ↦ elim (Bool-cases (has p a.available)) [
      | inl g ↦ rw (e, f, g) refl
      | inr g ↦ rw (e, f, g) refl
    ]
  ]
]
serve-range (give_back p) a = elim (Bool-cases (has p a.allocated)) [
  | inl e ↦ rw e refl
  | inr e ↦ rw e refl
]

serve_all-Trace_from :
    (inside : ℕ → Bool) (cs : List Call) (a : Allocator)
    → within a ≡ inside
    → IsPartition a
    → Trace inside (held a) (serve_all cs a)
unfolding serve_all
serve_all-Trace_from inside [] a e h = done
serve_all-Trace_from inside (c ∷ cs) a e h =
    next (subst (λ i. Step i (held a) (held (serve c a).1) c (serve c a).0) e (serve-Step c a h))
      (serve_all-Trace_from inside cs (serve c a).1 (serve-range c a ∙ e) (serve-IsPartition c a h))

-- Any sequence of calls on a new allocator over [min, max] gets the replies of a pool that starts
-- with no port held: a port that is granted lies in the range and was free, only `Allocate` on a
-- pool that is full, a port outside the range and a port that is taken are refused, and only the
-- port that is named changes hands.
pub serve_all-Trace :
    (min max : ℕ) (cs : List Call)
    → Trace (λ p. leb min p && leb p max) (λ p. false) (serve_all cs (new_allocator min max))
unfolding new_allocator
serve_all-Trace min max cs =
    serve_all-Trace_from (λ p. leb min p && leb p max) cs (new_allocator min max) refl
      (new_allocator-IsPartition min max)

-- The allocator after a run.
unfoldable pub after_calls : List Call → Allocator → Allocator
after_calls [] a = a
after_calls (c ∷ cs) a = after_calls cs (serve c a).1

after_calls-IsPartition_from :
    (cs : List Call) (a : Allocator) → IsPartition a → IsPartition (after_calls cs a)
unfolding after_calls
after_calls-IsPartition_from [] a h = h
after_calls-IsPartition_from (c ∷ cs) a h =
    after_calls-IsPartition_from cs (serve c a).1 (serve-IsPartition c a h)

-- After any sequence of calls on a new allocator each port of the range is a key of exactly one of
-- the two maps, no other port is, and `InUse` and `Available` add up to the size of the range.
pub after_calls-IsPartition :
    (min max : ℕ) (cs : List Call) → IsPartition (after_calls cs (new_allocator min max))
after_calls-IsPartition min max cs =
    after_calls-IsPartition_from cs (new_allocator min max) (new_allocator-IsPartition min max)
