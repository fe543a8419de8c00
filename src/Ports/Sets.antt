-- ===== src/Ports/Sets.antt =====
-- A Go `map[int]bool` whose values are all true, as the list of its keys, and how often a key occurs
-- in the list.
use appx_forge.Base.{
  not, ◌&&◌, false, ℕ, zero, suc, ◌+◌, ◌<◌, ◌≡◌, refl, Bool, List, [], ◌∷◌, ltb, ◌==◌,
  if◌then◌else◌, length, any, arith,
}

-- `m[p]`.
abbrev pub has : ℕ → List ℕ → Bool
has p ps = any (λ q. p == q) ps

-- `m[p] = true`.
abbrev pub insert : ℕ → List ℕ → List ℕ
insert p ps = if has p ps then ps else p ∷ ps

-- `delete(m, p)`.
abbrev pub remove : ℕ → List ℕ → List ℕ
remove p [] = []
remove p (q ∷ ps) = let rest = remove p ps in if p == q then rest else q ∷ rest

-- The key at a position, or the last one past the end.
abbrev pub key_at : ℕ → ℕ → List ℕ → ℕ
key_at zero p ps = p
key_at (suc k) p [] = p
key_at (suc k) p (q ∷ ps) = key_at k q ps

abbrev pub count : ℕ → List ℕ → ℕ
count p [] = 0
count p (q ∷ ps) = let rest = count p ps in if p == q then suc rest else rest

pub has-count : (p : ℕ) (ps : List ℕ) → has p ps ≡ ltb 0 (count p ps)
has-count p [] = refl
has-count p (q ∷ ps) = ground (arith, has-count p ps)

pub count-remove :
    (q p : ℕ) (ps : List ℕ) → count q (remove p ps) ≡ (if p == q then 0 else count q ps)
count-remove q p [] = ground arith
count-remove q p (r ∷ ps) = ground (arith, count-remove q p ps)

pub count-insert :
    (q p : ℕ) (ps : List ℕ)
    → count p ps ≡ 0
    → count q (insert p ps) ≡ (if p == q then 1 else count q ps)
count-insert q p ps h = ground (arith, has-count p ps)

pub length-remove : (p : ℕ) (ps : List ℕ) → length (remove p ps) + count p ps ≡ length ps
length-remove p [] = refl
length-remove p (q ∷ ps) = ground (arith, length-remove p ps)

pub length-insert : (p : ℕ) (ps : List ℕ) → count p ps ≡ 0 → length (insert p ps) ≡ suc (length ps)
length-insert p ps h = ground (arith, has-count p ps)

pub count-key_at : (k p : ℕ) (ps : List ℕ) → 0 < count (key_at k p ps) (p ∷ ps)
count-key_at zero p ps = ground arith
count-key_at (suc k) p [] = ground arith
count-key_at (suc k) p (q ∷ ps) = ground (arith, count-key_at k q ps)

pub has_other : (p q : ℕ) (ps : List ℕ) → has p ps ≡ false → has q ps ≡ not (p == q) && has q ps
has_other p q [] h = ground arith
has_other p q (r ∷ ps) h = ground (arith, has_other p q ps)
