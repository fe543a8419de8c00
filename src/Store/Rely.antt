-- ===== src/Store/Rely.antt =====
-- What a handler guarantees whatever the rest of the system does: if a preorder on databases holds
-- across every change from outside and across the handler's own statements, it holds across the
-- whole run, errors and lost answers included.
use appx_forge.Base.{
  on_result, on_option, ℕ, ◌≡◌, refl, Bool, true, false, Option, none, some, Result, ok, err,
  if◌then◌else◌,
}
use appx_forge.Store.{Db, DbErr, Query}
use appx_forge.Store.Call.{
  Env, World, M, Fault, works, refused, lost, RouteCall, pure, fail, ◌>>=◌, and_then, settle,
  attempt, catch, query, fresh_uuid, ask, notify,
}

-- A preorder that the surroundings respect.
pub record IsRely (R : Db → Db → Type 0) (env : Env) : Type 0 where
  pub stays : (db : Db) → R db db
  pub chain : (a b c : Db) → R a b → R b c → R a c
  pub outside : (n : ℕ) (db : Db) → R db (env.interfere n db)

-- Every run of the computation respects the preorder.
pub record Keeps (R : Db → Db → Type 0) (env : Env) {E A : Type 0} (m : M E A) : Type 0 where
  pub run : (w : World) → R w.db (m env w).1.db

-- A statement respects the preorder.
abbrev pub Respects : (Db → Db → Type 0) → {A : Type 0} → Query A → Type 0
Respects R q = (db : Db) → R db (q db).1

module _ {R : Db → Db → Type 0} {env : Env} (rely : IsRely R env) where
  pub Keeps-pure : {E A : Type 0} (a : A) → Keeps R env (pure {E = E} a)
  unfolding pure
  Keeps-pure a = record { run = λ w. rely.stays w.db }

  pub Keeps-fail : {E A : Type 0} (e : E) → Keeps R env (fail {A = A} e)
  unfolding fail
  Keeps-fail e = record { run = λ w. rely.stays w.db }

  bind_run :
      {E A B : Type 0} (db : Db) (r : Result E A) (w : World) (f : A → M E B)
      → R db w.db
      → ((a : A) → Keeps R env (f a))
      → R db (and_then (r, w) f env).1.db
  bind_run db (ok a) w f h k = rely.chain db w.db _ h ((k a).run w)
  bind_run db (err e) w f h k = h

  pub Keeps-bind :
      {E A B : Type 0} {m : M E A} {f : A → M E B}
      → Keeps R env m
      → ((a : A) → Keeps R env (f a))
      → Keeps R env (m >>= f)
  unfolding ◌>>=◌
  Keeps-bind {m} {f} h k = record { run = λ w. bind_run w.db (m env w).0 (m env w).1 f (h.run w) k }

  settle_run :
      {A : Type 0} (fault : Fault) (db before : Db) (r : Result DbErr A) (after : Db) (w : World)
      → R db before
      → R before after
      → R db (settle fault before (r, after) w).1.db
  settle_run works db before r after w h k = rely.chain db before after h k
  settle_run (refused e) db before r after w h k = h
  settle_run (lost e) db before r after w h k = rely.chain db before after h k

  pub Keeps-attempt : {E A : Type 0} (q : Query A) → Respects R q → Keeps R env (attempt {E = E} q)
  unfolding attempt
  Keeps-attempt q h = record {
    run = λ w.
        let before = env.interfere w.calls w.db in
        settle_run (env.fault w.calls) w.db before (q before).0 (q before).1 _
          (rely.outside w.calls w.db) (h before);
  }

  pub Keeps-catch : {E X A : Type 0} {m : M X A} → Keeps R env m → Keeps R env (catch {E = E} m)
  unfolding catch
  Keeps-catch h = record { run = λ w. h.run w }

  pub Keeps-on_result :
      {E X A Y : Type 0} (r : Result X A) {f : A → M E Y} {g : X → M E Y}
      → ((a : A) → Keeps R env (f a))
      → ((e : X) → Keeps R env (g e))
      → Keeps R env (on_result r f g)
  Keeps-on_result (ok a) h k = h a
  Keeps-on_result (err e) h k = k e

  pub Keeps-on_option :
      {E A Y : Type 0} (o : Option A) {f : A → M E Y} {m : M E Y}
      → ((a : A) → o ≡ some a → Keeps R env (f a))
      → Keeps R env m
      → Keeps R env (on_option o f m)
  Keeps-on_option (some a) h k = h a refl
  Keeps-on_option none h k = k

  pub Keeps-if :
      {E A : Type 0} (b : Bool) {m n : M E A}
      → (b ≡ true → Keeps R env m)
      → Keeps R env n
      → Keeps R env (if b then m else n)
  Keeps-if true h k = h refl
  Keeps-if false h k = k

  pub Keeps-query :
      {E A : Type 0} (wrap : DbErr → E) (q : Query A) → Respects R q → Keeps R env (query wrap q)
  unfolding query
  Keeps-query wrap q h =
      Keeps-bind (Keeps-attempt q h) λ r. Keeps-on_result r Keeps-pure (λ e. Keeps-fail (wrap e))

  pub Keeps-fresh_uuid : {E : Type 0} → Keeps R env (fresh_uuid {E = E})
  unfolding fresh_uuid
  Keeps-fresh_uuid = record { run = λ w. rely.stays w.db }

  pub Keeps-ask : {E A : Type 0} (f : Env → A) → Keeps R env (ask {E = E} f)
  unfolding ask
  Keeps-ask f = record { run = λ w. rely.stays w.db }

  pub Keeps-notify : {E : Type 0} (c : RouteCall) → Keeps R env (notify {E = E} c)
  unfolding notify
  Keeps-notify c = record { run = λ w. rely.stays w.db }
