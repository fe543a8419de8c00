-- ===== src/Scheduler/Choice.antt =====
-- The scheduler picks the first of the healthy nodes with the most free memory.
use appx_forge.Base.{
  ℕ, ◌≡◌, ◌≢◌, refl, ap, ◌⊎◌, inl, inr, Bool, true, false, Bool-cases, List, [], ◌∷◌, ◌++◌, Result,
  ok, err, arith, All, not, ◌||◌,
}
use appx_forge.Base.Int.{ℤ, pos, negsuc, ◌≤ℤ◌, ◌<ℤ◌, ltb_ℤ}
use appx_forge.Store.Nodes.{is_healthy}
use appx_forge.Scheduler.{NodeCandidate, ScheduleErr, no_nodes, no_capacity, free, pick, schedule}

-- A node that may take the sandbox.
pub record Fits (required : ℤ) (c : NodeCandidate) : Type 0 where
  pub well : is_healthy c.status ≡ true
  pub enough : required ≤ℤ free c
  pub room : pos 0 ≤ℤ free c

-- `c` is the first of the candidates that fit and have the most free memory.
pub record IsFirstBest (required : ℤ) (cs : List NodeCandidate) (c : NodeCandidate) : Type 0 where
  pub before : List NodeCandidate
  pub after : List NodeCandidate
  pub split : cs ≡ before ++ c ∷ after
  pub fits : Fits required c
  pub above : All (λ d. Fits required d → free d <ℤ free c) before
  pub atleast : All (λ d. Fits required d → free d ≤ℤ free c) after

-- What the loop makes of the rest of the list: nothing there improves on the best so far, or the
-- result is the first best of the rest and improves on it.
data Outcome (required : ℤ) (id : ℕ) (best : ℤ) (cs : List NodeCandidate) (r : ℕ × ℤ) : Type 0 where
  keep :
      r ≡ (id, best)
      → All (λ d. Fits required d → free d ≤ℤ best) cs
      → Outcome required id best cs r
  better :
      (c : NodeCandidate)
      → r ≡ (c.id, free c)
      → best <ℤ free c
      → IsFirstBest required cs c
      → Outcome required id best cs r

skips : ℤ → ℤ → NodeCandidate → Bool
skips required best c =
    not (is_healthy c.status) || ltb_ℤ (free c) required || not (ltb_ℤ best (free c))

skips-true :
    (required best : ℤ) (c : NodeCandidate)
    → skips required best c ≡ true
    → Fits required c
    → free c ≤ℤ best
unfolding skips
skips-true required best c h f = ground arith

skips-false :
    (required best : ℤ) (c : NodeCandidate)
    → pos 0 ≤ℤ best ⊎ (best ≡ negsuc 0)
    → skips required best c ≡ false
    → Fits required c × (best <ℤ free c)
unfolding skips
skips-false required best c g h = ground arith

cons_skip :
    {required : ℤ} {id : ℕ} {best : ℤ} {c : NodeCandidate} {cs : List NodeCandidate} {r : ℕ × ℤ}
    → (Fits required c → free c ≤ℤ best)
    → Outcome required id best cs r
    → Outcome required id best (c ∷ cs) r
cons_skip h (keep e a) = keep e (h, a)
cons_skip {c} h (better d e lt b) = better d e lt (record {
  before = c ∷ b.before;
  after = b.after;
  split = ap (◌∷◌ c) b.split;
  fits = b.fits;
  above = ((λ f. omega (arith, h f)), b.above);
  atleast = b.atleast;
})

cons_take :
    {required : ℤ} {id : ℕ} {best : ℤ} {c : NodeCandidate} {cs : List NodeCandidate} {r : ℕ × ℤ}
    → Fits required c
    → best <ℤ free c
    → Outcome required c.id (free c) cs r
    → Outcome required id best (c ∷ cs) r
cons_take {c} {cs} f lt (keep e a) =
    better c e lt
      (record { before = []; after = cs; split = refl; fits = f; above = tt; atleast = a })
cons_take {c} f lt (better d e gt b) = better d e (omega arith) (record {
  before = c ∷ b.before;
  after = b.after;
  split = ap (◌∷◌ c) b.split;
  fits = b.fits;
  above = ((λ _. gt), b.above);
  atleast = b.atleast;
})

pick-Outcome :
    (required : ℤ) (id : ℕ) (best : ℤ) (cs : List NodeCandidate)
    → pos 0 ≤ℤ best ⊎ (best ≡ negsuc 0)
    → Outcome required id best cs (pick required id best cs)
unfolding pick skips
pick-Outcome required id best [] g = keep refl tt
pick-Outcome required id best (c ∷ cs) g = elim (Bool-cases (skips required best c)) [
  | inl e ↦ rw e (cons_skip (skips-true required best c e) (pick-Outcome required id best cs g))
  | inr e ↦
      let (f, lt) = skips-false required best c g e in
      rw e (cons_take f lt (pick-Outcome required c.id (free c) cs (inl f.room)))
]

-- What each answer of the scheduler says of the candidates.
abbrev pub Verdict : ℤ → List NodeCandidate → Result ScheduleErr ℕ → Type 0
Verdict required cs (ok id) = (c : NodeCandidate) × IsFirstBest required cs c × (id ≡ c.id)
Verdict required cs (err no_nodes) = cs ≡ []
Verdict required cs (err no_capacity) = (cs ≢ []) × All (λ d. ¬ Fits required d) cs

not-Fits :
    (required : ℤ) (cs : List NodeCandidate)
    → All (λ d. Fits required d → free d ≤ℤ negsuc 0) cs
    → All (λ d. ¬ Fits required d) cs
not-Fits required [] a = tt
not-Fits required (c ∷ cs) a = ((λ f. omega (arith, a.0 f, f.room)), not-Fits required cs a.1)

-- The scheduler answers with a node if and only if some healthy candidate has at least the required
-- memory free (and a free memory that is not negative); the node is then the first of those with
-- the most free memory. It reports an empty list, and a list with no candidate that fits, apart.
pub schedule-Verdict :
    (cs : List NodeCandidate) (required : ℤ) → Verdict required cs (schedule cs required)
unfolding schedule
schedule-Verdict [] required = refl
schedule-Verdict (c ∷ cs) required = elim (pick-Outcome required 0 (negsuc 0) (c ∷ cs) (inr refl)) [
  | keep e a ↦ rw e ((λ e. cc), not-Fits required (c ∷ cs) a)
  | better d e lt b ↦ rw (e, sign d b.fits.room) (d, b, refl)
]
  where
    sign : (d : NodeCandidate) → pos 0 ≤ℤ free d → ltb_ℤ (free d) (pos 0) ≡ false
    sign d h = ground arith
