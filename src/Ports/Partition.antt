-- ===== src/Ports/Partition.antt =====
-- The two maps of the allocator split the range between them, whatever is called.
use appx_forge.Base.{
  ℕ, zero, suc, ◌+◌, ◌-◌, ◌<◌, ◌≡◌, refl, Bool, ◌&&◌, ◌||◌, List, [], ◌∷◌, ltb, leb, if◌then◌else◌,
  length, arith, Bool-cases, inl, inr,
}
use appx_forge.Ports.{
  Allocator, ports_from, new_allocator, grant, take_first, allocate, allocate_specific, release,
  in_use, available_count,
}
use appx_forge.Ports.Sets.{
  has, key_at, count, has-count, count-remove, count-insert, length-remove, length-insert,
  count-key_at,
}

abbrev pub within : Allocator → ℕ → Bool
within a p = leb a.min p && leb p a.max

abbrev pub one_if : Bool → ℕ
one_if b = if b then 1 else 0

-- Every port of the range is a key of exactly one of the maps, once, and no other port is.
pub record IsPartition (a : Allocator) : Type 0 where
  pub split : (p : ℕ) → count p a.available + count p a.allocated ≡ one_if (within a p)
  pub total : available_count a + in_use a ≡ a.max + 1 - a.min

count-ports_from : (n p q : ℕ) → count q (ports_from n p) ≡ one_if (leb p q && ltb q (p + n))
unfolding ports_from
count-ports_from zero p q = ground arith
count-ports_from (suc n) p q = ground (arith, count-ports_from n (suc p) q)

length-ports_from : (n p : ℕ) → length (ports_from n p) ≡ n
unfolding ports_from
length-ports_from zero p = refl
length-ports_from (suc n) p = omega (arith, length-ports_from n (suc p))

pub new_allocator-IsPartition : (min max : ℕ) → IsPartition (new_allocator min max)
unfolding new_allocator available_count in_use
new_allocator-IsPartition min max = record {
  split = λ p. ground (arith, count-ports_from (max + 1 - min) min p);
  total = omega (arith, length-ports_from (max + 1 - min) min);
}

pub grant-IsPartition :
    (p : ℕ) (a : Allocator) → IsPartition a → 0 < count p a.available → IsPartition (grant p a)
unfolding grant available_count in_use
grant-IsPartition p a h free = record {
  split = λ q.
      ground
        (arith, h.split p, h.split q, count-remove q p a.available, count-insert q p a.allocated);
  total =
      ground (arith, h.split p, h.total, length-remove p a.available, length-insert p a.allocated);
}

take_first-IsPartition :
    (turn : ℕ) (ps : List ℕ) (a : Allocator)
    → a.available ≡ ps
    → IsPartition a
    → IsPartition (take_first turn ps a).1
take_first-IsPartition turn [] a e h = h
take_first-IsPartition turn (p ∷ ps) a e h =
    grant-IsPartition (key_at turn p ps) a h (rw e (count-key_at turn p ps))

pub allocate-IsPartition :
    (turn : ℕ) (a : Allocator) → IsPartition a → IsPartition (allocate turn a).1
unfolding allocate
allocate-IsPartition turn a h = take_first-IsPartition turn a.available a refl h

pub allocate_specific-IsPartition :
    (p : ℕ) (a : Allocator) → IsPartition a → IsPartition (allocate_specific p a).1
unfolding allocate_specific
allocate_specific-IsPartition p a h = elim (Bool-cases (ltb p a.min || ltb a.max p)) [
  | inl e ↦ rw e h
  | inr e ↦ elim (Bool-cases (has p a.allocated)) [
    | inl f ↦ rw (e, f) h
    | inr f ↦ elim (Bool-cases (has p a.available)) [
      | inl g ↦ rw (e, f, g) (grant-IsPartition p a h (ground (arith, has-count p a.available)))
      | inr g ↦ rw (e, f, g) h
    ]
  ]
]

pub release-IsPartition : (p : ℕ) (a : Allocator) → IsPartition a → IsPartition (release p a).1
unfolding release available_count in_use
release-IsPartition p a h = elim (Bool-cases (has p a.allocated)) [
  | inr e ↦ rw e h
  | inl e ↦ rw e (record {
    split = λ q. ground (
      arith,
      h.split p,
      h.split q,
      has-count p a.allocated,
      count-remove q p a.allocated,
      count-insert q p a.available,
    );
    total = ground (
      arith,
      h.split p,
      h.total,
      has-count p a.allocated,
      length-remove p a.allocated,
      length-insert p a.available,
    );
  })
]
