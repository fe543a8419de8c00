-- ===== src/Reconciler/Fate.antt =====
-- What a reconciliation does to the row of an application that the agent does not report.
use mathlib.Core.Option
use appx_forge.Base.{
  ℕ, ◌+◌, ◌≡◌, ◌≢◌, refl, sym, ap, ◌∙◌, Bool, true, false, not, ◌&&◌, ◌||◌, Bool-cases, Option,
  none, some, List, [], ◌∷◌, String, Result, ok, err, str_eq, str_eq_iff, ltb, any, find, select,
  arith, inl, inr, if◌then◌else◌,
}
use appx_forge.Models.{SandboxState}
use appx_forge.Store.{Sandbox, Db, DbErr, check_violation}
use appx_forge.Store.Table.{update, find-update, find_holds}
use appx_forge.Store.Sandboxes.{
  has_app, on_node, is_live, is_lost, lost, verifiable, verified, parse_state,
  mark_sandbox_verified, mark_sandbox_agent_lost, list_sandboxes_for_node, write_verified,
}
use appx_forge.Store.Call.{Env, World}
use appx_forge.Store.Quiet.{
  IsQuiet, Runs, Runs-bind, Runs-pure, Runs-attempt, Runs-query, after_call,
}
use appx_forge.Reconciler.{
  ContainerInfo, reconciler_grace_window, reported, verify_each, lose_each, reconcile,
}
use appx_forge.Reconciler.Revival.{app_row, find-update_other, app_row-lost, lost_eq}

-- The statement for a container of another name.
verified_other :
    (o : Option SandboxState) (name app : String) (db : Db)
    → app ≢ name
    → (r : Result DbErr (Unit {0})) × (db' : Db) × (write_verified o name db ≡ (r, db'))
      × (app_row app db' ≡ app_row app db)
      × (db'.now ≡ db.now)
verified_other none name app db n = elim (Bool-cases (any (verifiable name db.now) db.sandboxes)) [
  | inl e ↦ (err check_violation, db, rw e refl, refl, refl)
  | inr e ↦ (ok tt, db, rw e refl, refl, refl)
]
verified_other (some s) name app db n = (
  ok tt,
  record db { sandboxes = update (verifiable name db.now) (verified s db.now) db.sandboxes },
  refl,
  find-update_other (has_app app) (verifiable name db.now) (verified s db.now) db.sandboxes
      (λ r h. ground (arith, str_eq_iff r.app_name app, str_eq_iff r.app_name name)) (λ r. refl),
  refl,
)

any-select_found :
    {A : Type 0} (p s h : A → Bool) (xs : List A) (x : A)
    → find p xs ≡ some x
    → s x ≡ true
    → h x ≡ true
    → any h (select s xs) ≡ true
any-select_found p s h [] x f a b = elim (Option.none-ne-some x f) [ ]
any-select_found p s h (y ∷ ys) x f a b = elim (Bool-cases (p y)) [
  | inl e ↦ ground (arith, f, e, a, b)
  | inr e ↦ ground (arith, any-select_found p s h ys x, f, e, a, b)
]

module _ (add_reason : String → String → String) (now node : ℕ) (containers : List ContainerInfo)
    (app : String) where
  -- A row for which the loop makes its statement, of that application.
  abbrev is_hit : Sandbox → Bool
  is_hit row =
      not (reported containers row.app_name || ltb now (row.created_at + reconciler_grace_window))
      && str_eq row.app_name app

  -- What the loop over `rows` makes of the application's row.
  abbrev after_loop : List Sandbox → ℕ → Sandbox → Sandbox
  after_loop rows clock x =
      if any is_hit rows && is_lost app node clock x then lost add_reason clock x else x

  app_row-lost_self :
      (db : Db) (x : Sandbox)
      → app_row app db ≡ some x
      → app_row app (mark_sandbox_agent_lost add_reason app node db).1
        ≡ some (if is_lost app node db.now x then lost add_reason db.now x else x)
  unfolding mark_sandbox_agent_lost
  app_row-lost_self db x f =
      find-update (has_app app) (is_lost app node db.now) (lost add_reason db.now) db.sandboxes
        (λ r. refl)
      ∙ rw f refl

  rest_unreported :
      (c : ContainerInfo) (cs : List ContainerInfo)
      → reported (c ∷ cs) app ≡ false
      → reported cs app ≡ false
  rest_unreported c cs h = ground (arith, h)

  -- A row that is lost once is not lost again.
  lost_once :
      (again : Bool) (clock : ℕ) (x : Sandbox)
      → let y : Sandbox = if is_lost app node clock x then lost add_reason clock x else x in
        (if again && is_lost app node clock y then lost add_reason clock y else y) ≡ y
  lost_once again clock x = elim (Bool-cases (is_lost app node clock x)) [
    | inl e ↦ rw e (ground arith)
    | inr e ↦ rw e (ground (arith, e))
  ]

  after_loop-kept :
      (rows : List Sandbox) (clock : ℕ) (x : Sandbox)
      → is_lost app node clock x ≡ false
      → after_loop rows clock x ≡ x
  after_loop-kept rows clock x h = elim (Bool-cases (any is_hit rows)) [
    | inl e ↦ rw (e, h) refl
    | inr e ↦ rw e refl
  ]

  after_loop-lost :
      (table : List Sandbox) (clock : ℕ) (x : Sandbox)
      → find (has_app app) table ≡ some x
      → reported containers app ≡ false
      → is_lost app node clock x ≡ true
      → ltb now (x.created_at + reconciler_grace_window) ≡ false
      → after_loop (select (λ r. on_node node r && is_live r.state) table) clock x
        ≡ lost add_reason clock x
  after_loop-lost table clock x f h l o =
      let name : str_eq x.app_name app ≡ true = find_holds (has_app app) table x f in
      let hit : any is_hit (select (λ r. on_node node r && is_live r.state) table) ≡ true =
        any-select_found (has_app app) (λ r. on_node node r && is_live r.state) is_hit table x f
          (and_left2 (has_app app x) (on_node node x) (is_live x.state) _ l)
          (rw (name, o, ap (reported containers) ((str_eq_iff x.app_name app).0 name) ∙ h) refl) in
      rw (hit, l) refl
    where
      and_left2 : (a b c d : Bool) → a && b && c && d ≡ true → b && c ≡ true
      and_left2 a b c d k = ground arith

  after_loop_fate :
      (table : List Sandbox) (clock : ℕ) (x : Sandbox)
      → find (has_app app) table ≡ some x
      → reported containers app ≡ false
      → (is_lost app node clock x ≡ true → ltb now (x.created_at + reconciler_grace_window) ≡ false)
      → after_loop (select (λ r. on_node node r && is_live r.state) table) clock x
        ≡ (if is_lost app node clock x then lost add_reason clock x else x)
  after_loop_fate table clock x f h clocks = elim (Bool-cases (is_lost app node clock x)) [
    | inl l ↦ after_loop-lost table clock x f h l (clocks l) ∙ rw l refl
    | inr l ↦ after_loop-kept _ clock x l ∙ rw l refl
  ]

  module _ {env : Env} (quiet : IsQuiet env) where
    verify_each-Runs :
        (cs : List ContainerInfo) (w : World)
        → reported cs app ≡ false
        → (w' : World) × Runs env (verify_each cs) w (ok tt) w'
          × (app_row app w'.db ≡ app_row app w.db)
          × (w'.db.now ≡ w.db.now)
    unfolding verify_each mark_sandbox_verified
    verify_each-Runs [] w h = (w, Runs-pure tt w, refl, refl)
    verify_each-Runs (c ∷ cs) w h =
        let (r, db', made, same, time) =
          verified_other (parse_state c.state) c.app_name app w.db
            (λ k. ground (arith, h, (str_eq_iff c.app_name app).1 (sym k))) in
        let (w', run, same', time') =
          verify_each-Runs cs (after_call w db') (rest_unreported c cs h) in
        (
          w',
          Runs-bind _ (Runs-attempt quiet (mark_sandbox_verified c.app_name c.state) w made) run,
          same' ∙ same,
          time' ∙ time,
        )

    lose_each-Runs :
        (rows : List Sandbox) (w : World) (x : Sandbox)
        → app_row app w.db ≡ some x
        → (w' : World) × Runs env (lose_each add_reason now node containers rows) w (ok tt) w'
          × (app_row app w'.db ≡ some (after_loop rows w.db.now x))
    unfolding lose_each mark_sandbox_agent_lost
    lose_each-Runs [] w x f = (w, Runs-pure tt w, f)
    lose_each-Runs (row ∷ rows) w x f =
        elim (Bool-cases (
          reported containers row.app_name || ltb now (row.created_at + reconciler_grace_window))) [
            | inl e ↦ rw e (lose_each-Runs rows w x f)
            | inr e ↦ elim (Bool-cases (str_eq row.app_name app)) [
              | inl same ↦
                  let name : row.app_name ≡ app = (str_eq_iff row.app_name app).0 same in
                  let w1 : World =
                    after_call w (mark_sandbox_agent_lost add_reason row.app_name node w.db).1 in
                  let (w', run, row') =
                    lose_each-Runs rows w1
                      (if is_lost app node w.db.now x then lost add_reason w.db.now x else x)
                      (ap (λ a. app_row app (mark_sandbox_agent_lost add_reason a node w.db).1) name
                        ∙ app_row-lost_self w.db x f) in
                  rw (e, same)
                    (
                      w',
                      Runs-bind _
                          (Runs-attempt quiet _ w (lost_eq add_reason row.app_name node w.db)) run,
                      row' ∙ ap some (lost_once (any is_hit rows) w.db.now x),
                    )
              | inr other ↦
                  let w1 : World =
                    after_call w (mark_sandbox_agent_lost add_reason row.app_name node w.db).1 in
                  let (w', run, row') = lose_each-Runs rows w1 x (
                    app_row-lost add_reason row.app_name app node w.db
                      (λ k. ground (arith, other, (str_eq_iff row.app_name app).1 (sym k)))
                    ∙ f) in
                  rw (e, other)
                    (
                      w',
                      Runs-bind _
                          (Runs-attempt quiet _ w (lost_eq add_reason row.app_name node w.db)) run,
                      row',
                    )
            ]
          ]

    -- In an undisturbed run a reconciliation, whatever containers it is given, destroys the row of an
    -- application that is not among them, with the reason in its metadata, if the row is on the node,
    -- in a live state and older than the window by the database's clock, and leaves it as it was
    -- otherwise; where a row that is so old by the database's clock is not younger by the process's.
    pub reconcile-unreported :
        (w : World) (r : Sandbox)
        → app_row app w.db ≡ some r
        → reported containers app ≡ false
        → (is_lost app node w.db.now r ≡ true
            → ltb now (r.created_at + reconciler_grace_window) ≡ false)
        → (w' : World) × Runs env (reconcile add_reason now node containers) w (ok tt) w'
          × (app_row app w'.db
              ≡ some (if is_lost app node w.db.now r then lost add_reason w.db.now r else r))
    unfolding reconcile list_sandboxes_for_node
    reconcile-unreported w r f h clocks =
        let rows : List Sandbox = select (λ x. on_node node x && is_live x.state) w.db.sandboxes in
        let (w1, verified_run, same, time) = verify_each-Runs containers (after_call w w.db) h in
        let (w2, lost_run, row) = lose_each-Runs rows w1 r (same ∙ f) in
        (
          w2,
          Runs-bind _ (Runs-query quiet (λ e. e) (list_sandboxes_for_node node) w refl)
              (Runs-bind _ verified_run lost_run),
          row
              ∙ ap (λ (t : ℕ). some (after_loop rows t r)) time
              ∙ ap some (after_loop_fate w.db.sandboxes w.db.now r f h clocks),
        )
