-- ===== src/Api/Checks.antt =====
-- The early returns of the handlers: which way each goes.
use appx_forge.Base.{◌≡◌, Bool, true, false, Option, none, some, ok, err}
use appx_forge.Store.Call.{Env, World}
use appx_forge.Store.Quiet.{Runs, Runs-pure, Runs-fail}
use appx_forge.Store.Cost.{Costs, Costs-pure, Costs-fail}
use appx_forge.Api.{ProblemDetail, reject_if, require}

module _ {env : Env} (problem : ProblemDetail) (w : World) where
  pub Runs-pass : {b : Bool} → b ≡ false → Runs env (reject_if b problem) w (ok tt) w
  Runs-pass h = rw h (Runs-pure _ _)

  pub Runs-reject : {b : Bool} → b ≡ true → Runs env (reject_if b problem) w (err problem) w
  Runs-reject h = rw h (Runs-fail _ _)

  pub Runs-require :
      {A : Type 0} {o : Option A} {a : A} → o ≡ some a → Runs env (require o problem) w (ok a) w
  Runs-require h = rw h (Runs-pure _ _)

pub Costs-require :
    {env : Env} {A : Type 0} (o : Option A) (problem : ProblemDetail)
    → Costs env 0 (require o problem)
Costs-require none problem = Costs-fail _
Costs-require (some a) problem = Costs-pure _
