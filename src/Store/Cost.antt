-- ===== src/Store/Cost.antt =====
-- How many statements a computation issues at most, whatever the database answers.
use appx_forge.Base.{ℕ, suc, ◌+◌, ◌≤◌, ◌≡◌, refl, Result, ok, err, arith}
use appx_forge.Store.{Db, DbErr, Query}
use appx_forge.Store.Call.{
  Env, World, M, Fault, works, refused, lost, settle, pure, fail, attempt, ◌>>=◌, and_then,
}

pub record Costs (env : Env) {E A : Type 0} (n : ℕ) (m : M E A) : Type 0 where
  pub bound : (w : World) → (m env w).1.calls ≤ w.calls + n

settle-calls :
    {A : Type 0} (f : Fault) (before : Db) (p : Result DbErr A × Db) (w : World)
    → (settle f before p w).1.calls ≡ w.calls
settle-calls works before p w = refl
settle-calls (refused e) before p w = refl
settle-calls (lost e) before p w = refl

module _ {env : Env} {E A : Type 0} where
  pub Costs-pure : (a : A) → Costs env 0 (pure {E = E} a)
  unfolding pure
  Costs-pure a = record { bound = λ w. omega arith }

  pub Costs-fail : (e : E) → Costs env 0 (fail {A = A} e)
  unfolding fail
  Costs-fail e = record { bound = λ w. omega arith }

  pub Costs-weaken : {m : M E A} {n k : ℕ} → Costs env n m → n ≤ k → Costs env k m
  Costs-weaken h le = record { bound = λ w. omega (arith, h.bound w, le) }

  pub Costs-attempt : (q : Query A) → Costs env 1 (attempt {E = E} q)
  unfolding attempt
  Costs-attempt q = record {
    bound = λ w. omega (
      arith,
      settle-calls (env.fault w.calls) (env.interfere w.calls w.db) (q (env.interfere w.calls w.db))
          (record w { calls = suc w.calls }),
    );
  }

  pub Costs-bind :
      {B : Type 0} {m : M E A} {f : A → M E B} {n k : ℕ}
      → Costs env n m
      → ((a : A) → Costs env k (f a))
      → Costs env (n + k) (m >>= f)
  unfolding ◌>>=◌
  Costs-bind {B} {m} {f} {n} {k} h g = record { bound = λ w. go w (m env w) (h.bound w) }
    where
      go :
          (w : World) (z : Result E A × World)
          → z.1.calls ≤ w.calls + n
          → (and_then z f env).1.calls ≤ w.calls + (n + k)
      go w (ok a, v) le = omega (arith, (g a).bound v)
      go w (err e, v) le = omega arith
