-- ===== src/Api/Sandboxes/Oldest.antt =====
-- The time that a listing gives for the fleet.
use appx_forge.Base.{
  ℕ, ◌≤◌, ◌≡◌, refl, ap, ◌∙◌, Bool-cases, inl, inr, none, some, List, [], ◌∷◌, arith, ltb, All, any,
  ◌==◌, true, ◌||◌,
}
use appx_forge.Store.{Sandbox}
use appx_forge.Api.Sandboxes.Reading.{oldest_verified}

-- A time that is no later than any row's, and is some row's.
pub record IsOldest (t : ℕ) (rows : List Sandbox) : Type 0 where
  pub least : All (λ (r : Sandbox). t ≤ r.verified_at) rows
  pub of_row : any (λ (r : Sandbox). r.verified_at == t) rows ≡ true

scan :
    (s : ℕ) (rows : List Sandbox)
    → (t : ℕ) × (oldest_verified (some s) rows ≡ some t)
      × (t ≤ s)
      × All (λ (r : Sandbox). t ≤ r.verified_at) rows
      × (((s == t) || any (λ (r : Sandbox). r.verified_at == t) rows) ≡ true)
unfolding oldest_verified
scan s [] = (s, refl, omega arith, tt, ground arith)
scan s (r ∷ rows) = elim (Bool-cases (ltb r.verified_at s)) [
  | inl older ↦
      let (t, e, le, all, here) = scan r.verified_at rows in
      (
        t,
        ap (λ o. oldest_verified o rows) (rw older refl) ∙ e,
        ground (arith, older, le),
        (le, all),
        ground (arith, here),
      )
  | inr newer ↦
      let (t, e, le, all, here) = scan s rows in
      (
        t,
        ap (λ o. oldest_verified o rows) (rw newer refl) ∙ e,
        le,
        (ground (arith, newer, le), all),
        ground (arith, here),
      )
]

-- For a listing that is not empty the loop over the rows ends in a time that is no later than the
-- time of any row's last verification and is that of some row.
pub oldest_verified-IsOldest :
    (r : Sandbox) (rows : List Sandbox)
    → (t : ℕ) × (oldest_verified none (r ∷ rows) ≡ some t) × IsOldest t (r ∷ rows)
unfolding oldest_verified
oldest_verified-IsOldest r rows =
    let (t, e, le, all, here) = scan r.verified_at rows in
    (t, e, record { least = (le, all); of_row = here })
