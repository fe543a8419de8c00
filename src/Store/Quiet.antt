-- ===== src/Store/Quiet.antt =====
-- Runs that nothing disturbs: no statement fails, and nobody else changes the tables meanwhile.
use appx_forge.Base.{ℕ, suc, ◌≡◌, refl, ◌∙◌, ap, [], ◌∷◌, ◌++◌, Result, ok, err}
use appx_forge.Store.{Db, DbErr, Query}
use appx_forge.Store.Call.{
  Env, World, M, works, pure, fail, ◌>>=◌, attempt, catch, query, fresh_uuid, ask, notify, and_then,
  RouteCall,
}

pub record IsQuiet (env : Env) : Type 0 where
  pub alone : (n : ℕ) (db : Db) → env.interfere n db ≡ db
  pub sound : (n : ℕ) → env.fault n ≡ works

-- The world after one more statement that left `db`.
abbrev pub after_call : World → Db → World
after_call w db = record w { db = db; calls = suc w.calls }

-- `m` run in `w` ends in `r` and leaves `w'`.
pub record Runs (env : Env) {E A : Type 0} (m : M E A) (w : World) (r : Result E A) (w' : World)
    : Type 0 where
  pub eq : m env w ≡ (r, w')

module _ {env : Env} where
  pub Runs-bind :
      {E A B : Type 0} {m : M E A} (f : A → M E B) {w w' w'' : World} {a : A} {r : Result E B}
      → Runs env m w (ok a) w'
      → Runs env (f a) w' r w''
      → Runs env (m >>= f) w r w''
  unfolding ◌>>=◌
  Runs-bind f h k = record { eq = ap (λ z. and_then z f env) h.eq ∙ k.eq }

  pub Runs-bind_err :
      {E A B : Type 0} {m : M E A} (f : A → M E B) {w w' : World} {e : E}
      → Runs env m w (err e) w'
      → Runs env (m >>= f) w (err e) w'
  unfolding ◌>>=◌
  Runs-bind_err f h = record { eq = ap (λ z. and_then z f env) h.eq }

  pub Runs-pure : {E A : Type 0} (a : A) (w : World) → Runs env (pure {E = E} a) w (ok a) w
  unfolding pure
  Runs-pure a w = record { eq = refl }

  pub Runs-pure_as :
      {E A : Type 0} {a b : A} (w : World) → a ≡ b → Runs env (pure {E = E} a) w (ok b) w
  unfolding pure
  Runs-pure_as w h = record { eq = ap (λ x. (ok x, w)) h }

  pub Runs-fail : {E A : Type 0} (e : E) (w : World) → Runs env (fail {A = A} e) w (err e) w
  unfolding fail
  Runs-fail e w = record { eq = refl }

  pub Runs-ask :
      {E A : Type 0} (f : Env → A) (w : World) → Runs env (ask {E = E} f) w (ok (f env)) w
  unfolding ask
  Runs-ask f w = record { eq = refl }

  pub Runs-fresh_uuid :
      {E : Type 0} (w : World)
      → Runs env
          (fresh_uuid {E = E})
          w
          (ok (env.new_uuid w.uuids))
          (record w { uuids = suc w.uuids })
  unfolding fresh_uuid
  Runs-fresh_uuid w = record { eq = refl }

  pub Runs-notify :
      {E : Type 0} (c : RouteCall) (w : World)
      → Runs env (notify {E = E} c) w (ok tt) (record w { route_calls = w.route_calls ++ c ∷ [] })
  unfolding notify
  Runs-notify c w = record { eq = refl }

  pub Runs-catch :
      {E X A : Type 0} {m : M X A} {w w' : World} {r : Result X A}
      → Runs env m w r w'
      → Runs env (catch {E = E} m) w (ok r) w'
  unfolding catch
  Runs-catch {E} {X} {A} h = record {
    eq = ap {A = Result X A × World} {B = Result E (Result X A) × World} (λ z. (ok z.0, z.1)) h.eq;
  }

  module _ (quiet : IsQuiet env) where
    pub Runs-attempt :
        {E A : Type 0} (q : Query A) (w : World) {r : Result DbErr A} {db' : Db}
        → q w.db ≡ (r, db')
        → Runs env (attempt {E = E} q) w (ok r) (after_call w db')
    unfolding attempt
    Runs-attempt q w h = record { eq = rw (quiet.alone w.calls w.db, quiet.sound w.calls, h) refl }

    pub Runs-query :
        {E A : Type 0} (wrap : DbErr → E) (q : Query A) (w : World) {a : A} {db' : Db}
        → q w.db ≡ (ok a, db')
        → Runs env (query wrap q) w (ok a) (after_call w db')
    unfolding query
    Runs-query wrap q w h = Runs-bind _ (Runs-attempt q w h) (Runs-pure _ _)

    pub Runs-query_err :
        {E A : Type 0} (wrap : DbErr → E) (q : Query A) (w : World) {e : DbErr} {db' : Db}
        → q w.db ≡ (err e, db')
        → Runs env (query wrap q) w (err (wrap e)) (after_call w db')
    unfolding query
    Runs-query_err wrap q w h = Runs-bind _ (Runs-attempt q w h) (Runs-fail _ _)
