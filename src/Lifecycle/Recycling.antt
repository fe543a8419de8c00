-- ===== src/Lifecycle/Recycling.antt =====
-- What CreateSandbox does when the name has a row already, in a run that nothing disturbs.
use appx_forge.Base.{
  suc, ◌≡◌, refl, sym, ap, ◌∙◌, Bool, true, false, none, ◌||◌, Bool-cases, some, List, [], ◌∷◌, ok,
  err, inl, inr, any, find, arith,
}
use appx_forge.Models.{destroyed, failed, state_eq}
use appx_forge.Store.{Sandbox, fk_violation, no_rows}
use appx_forge.Store.Table.{delete}
use appx_forge.Store.Sandboxes.{
  has_app, has_id, references, delete_sandbox, get_sandbox_by_app_name,
}
use appx_forge.Store.Call.{Env, World, M, attempt, and_then, ◌>>=◌}
use appx_forge.Store.Quiet.{
  IsQuiet, Runs, Runs-bind, Runs-bind_err, Runs-fail, Runs-fresh_uuid, Runs-attempt, Runs-query,
  Runs-query_err, Runs-pure, after_call,
}
use appx_forge.Lifecycle.{Err, wrapped, conflict}
use appx_forge.Lifecycle.Create.{CreateRequest, create_sandbox, recycle}

abbrev pub is_recyclable : Sandbox → Bool
is_recyclable r = state_eq r.state destroyed || state_eq r.state failed

any-find :
    {A : Type 0} (p q : A → Bool) (rs : List A) (r : A)
    → find p rs ≡ some r
    → q r ≡ true
    → any q rs ≡ true
any-find p q [] r h k = ground arith
any-find p q (x ∷ rs) r h k = ground (arith, any-find p q rs r)

-- The tables without a row, one statement later.
abbrev pub cleared : World → Sandbox → World
cleared w r = record w {
  db = record w.db { sandboxes = delete (has_id r.id) w.db.sandboxes };
  calls = suc w.calls;
}

-- The request ends in the error, and no table changes.
abbrev pub Refused : Env → CreateRequest → World → Err → Type 0
Refused env req w e = (w' : World) × Runs env (create_sandbox req) w (err e) w' × (w'.db ≡ w.db)

-- What comes of a request for the name of a row, by whether it may be recycled and a command names it.
abbrev pub Answer : Env → CreateRequest → World → Sandbox → (recyclable named : Bool) → Type 0
Answer env req w r false named = Refused env req w conflict
Answer env req w r true true = Refused env req w (wrapped "recycle destroyed sandbox" fk_violation)
Answer env req w r true false = create_sandbox req env w ≡ create_sandbox req env (cleared w r)

module _ {env : Env} (quiet : IsQuiet env) (req : CreateRequest) (w : World) (r : Sandbox)
    (found : find (has_app req.app_name) w.db.sandboxes ≡ some r) where
  abbrev drawn : World
  drawn = record w { uuids = suc w.uuids }

  lookup-Runs :
      Runs env
        (attempt {E = Err} (get_sandbox_by_app_name req.app_name))
        drawn
        (ok (ok r))
        (after_call drawn w.db)
  unfolding get_sandbox_by_app_name
  lookup-Runs = Runs-attempt quiet (get_sandbox_by_app_name req.app_name) drawn (rw found refl)

  is_there : any (has_id r.id) w.db.sandboxes ≡ true
  is_there = any-find (has_app req.app_name) (has_id r.id) w.db.sandboxes r found (ground arith)

  refused :
      (e : Err) (w' : World)
      → Runs env (recycle (ok r)) (after_call drawn w.db) (err e) w'
      → w'.db ≡ w.db
      → Refused env req w e
  unfolding create_sandbox
  refused e w' run same =
      (w', Runs-bind _ (Runs-fresh_uuid w) (Runs-bind _ lookup-Runs (Runs-bind_err _ run)), same)

  kept-Answer : is_recyclable r ≡ false → Refused env req w conflict
  unfolding recycle
  kept-Answer e =
      refused conflict (after_call drawn w.db) (rw e (Runs-fail conflict (after_call drawn w.db)))
        refl

  held-Answer :
      is_recyclable r ≡ true
      → any (references r.id) w.db.commands ≡ true
      → Refused env req w (wrapped "recycle destroyed sandbox" fk_violation)
  unfolding recycle delete_sandbox
  held-Answer e k =
      refused _ (after_call (after_call drawn w.db) w.db)
        (rw e (
          Runs-query_err quiet (wrapped "recycle destroyed sandbox") (delete_sandbox r.id)
            (after_call drawn w.db) (rw (is_there, k) refl)))
        refl

  goes_on :
      {A B : Type 0} {m : M Err A} (f : A → M Err B) {v v' : World} {a : A}
      → Runs env m v (ok a) v'
      → (m >>= f) env v ≡ f a env v'
  unfolding ◌>>=◌
  goes_on f h = ap (λ z. and_then z f env) h.eq

  deleted-Runs :
      is_recyclable r ≡ true
      → any (references r.id) w.db.commands ≡ false
      → Runs env
          (recycle (ok r))
          (after_call drawn w.db)
          (ok tt)
          (after_call (after_call drawn w.db) (cleared w r).db)
  unfolding recycle delete_sandbox
  deleted-Runs e k = rw e (
      Runs-query quiet (wrapped "recycle destroyed sandbox") (delete_sandbox r.id)
        (after_call drawn w.db) (rw (is_there, k) refl))

  -- The request in the tables without the row.
  absent-Runs :
      find (has_app req.app_name) (cleared w r).db.sandboxes ≡ none
      → Runs env
          (attempt {E = Err} (get_sandbox_by_app_name req.app_name))
          (record (cleared w r) { uuids = suc w.uuids })
          (ok (err no_rows))
          (after_call (record (cleared w r) { uuids = suc w.uuids }) (cleared w r).db)
  unfolding get_sandbox_by_app_name
  absent-Runs sole =
      Runs-attempt quiet (get_sandbox_by_app_name req.app_name)
        (record (cleared w r) { uuids = suc w.uuids }) (rw sole refl)

  skipped-Runs : (v : World) → Runs env (recycle (err no_rows)) v (ok tt) v
  unfolding recycle
  skipped-Runs v = Runs-pure tt v

  recycled-Answer :
      is_recyclable r ≡ true
      → any (references r.id) w.db.commands ≡ false
      → find (has_app req.app_name) (cleared w r).db.sandboxes ≡ none
      → create_sandbox req env w ≡ create_sandbox req env (cleared w r)
  unfolding create_sandbox
  recycled-Answer e k sole =
      goes_on _ (Runs-fresh_uuid w)
      ∙ goes_on _ lookup-Runs
      ∙ goes_on _ (deleted-Runs e k)
      ∙ sym (
          goes_on _ (Runs-fresh_uuid (cleared w r))
          ∙ goes_on _ (absent-Runs sole)
          ∙ goes_on _ (skipped-Runs _))

  -- In an undisturbed run a create request for a name that a row bears already is refused with a
  -- conflict if the row is neither destroyed nor failed, and with the error of the deletion if it is
  -- and some command names the row; no table changes then. If no command names the destroyed or
  -- failed row, the request does exactly what it does in tables from which the row is deleted, which
  -- have no other row of the name.
  pub create_existing-Answer :
      find (has_app req.app_name) (cleared w r).db.sandboxes ≡ none
      → Answer env req w r (is_recyclable r) (any (references r.id) w.db.commands)
  create_existing-Answer sole = elim (Bool-cases (is_recyclable r)) [
    | inr e ↦ rw e (kept-Answer e)
    | inl e ↦ elim (Bool-cases (any (references r.id) w.db.commands)) [
      | inl k ↦ rw (e, k) (held-Answer e k)
      | inr k ↦ rw (e, k) (recycled-Answer e k sole)
    ]
  ]
