-- ===== src/Reconciler/Revival.antt =====
-- A reported container sets the state of its row, whatever the row was.
use appx_forge.Base.{
  ℕ, ◌<◌, ◌+◌, ◌≡◌, ◌≢◌, refl, subst, ◌∙◌, ap, Bool, true, false, ◌||◌, Bool-cases, Option, some,
  List, [], ◌∷◌, String, ok, str_eq_iff, ltb, find, arith, inl, inr,
}
use appx_forge.Models.{SandboxState}
use appx_forge.Store.{Sandbox, Db}
use appx_forge.Store.Table.{update, find-update, find_holds}
use appx_forge.Store.Sandboxes.{
  write_verified, has_app, is_lost, lost, verifiable, verified, parse_state, mark_sandbox_verified,
  mark_sandbox_agent_lost, list_sandboxes_for_node,
}
use appx_forge.Store.Call.{Env, World}
use appx_forge.Store.Quiet.{
  IsQuiet, Runs, Runs-bind, Runs-pure, Runs-attempt, Runs-query, after_call,
}
use appx_forge.Reconciler.{
  ContainerInfo, reconciler_grace_window, reported, verify_each, lose_each, reconcile,
}

-- The row of an application.
abbrev pub app_row : String → Db → Option Sandbox
app_row app db = find (has_app app) db.sandboxes

pub find-update_other :
    {A : Type 0} (q p : A → Bool) (f : A → A) (rs : List A)
    → ((r : A) → q r ≡ true → p r ≡ false)
    → ((r : A) → q (f r) ≡ q r)
    → find q (update p f rs) ≡ find q rs
unfolding update
find-update_other q p f [] h k = refl
find-update_other q p f (r ∷ rs) h k = ground (arith, h r, k r, find-update_other q p f rs h k)

pub app_row-lost :
    (add_reason : String → String → String) (name app : String) (node : ℕ) (db : Db)
    → (app ≢ name)
    → app_row app (mark_sandbox_agent_lost add_reason name node db).1 ≡ app_row app db
unfolding mark_sandbox_agent_lost
app_row-lost add_reason name app node db n =
    find-update_other (has_app app) (is_lost name node db.now) (lost add_reason db.now) db.sandboxes
      (λ r h. ground (arith, str_eq_iff r.app_name app, str_eq_iff r.app_name name)) (λ r. refl)

pub lost_eq :
    (add_reason : String → String → String) (name : String) (node : ℕ) (db : Db)
    → mark_sandbox_agent_lost add_reason name node db
      ≡ (ok tt, (mark_sandbox_agent_lost add_reason name node db).1)
unfolding mark_sandbox_agent_lost
lost_eq add_reason name node db = refl

abbrev verified_db : String → SandboxState → Db → Db
verified_db name s db = record db {
  sandboxes = update (verifiable name db.now) (verified s db.now) db.sandboxes;
}

verified_eq :
    (name text : String) (s : SandboxState) (db : Db)
    → parse_state text ≡ some s
    → mark_sandbox_verified name text db ≡ (ok tt, verified_db name s db)
unfolding mark_sandbox_verified
verified_eq name text s db p = ap (λ o. write_verified o name db) p

app_row-verified :
    (name : String) (s : SandboxState) (db : Db) (r : Sandbox)
    → app_row name db ≡ some r
    → r.verified_at < db.now
    → app_row name (verified_db name s db) ≡ some (verified s db.now r)
app_row-verified name s db r f v =
    find-update (has_app name) (verifiable name db.now) (verified s db.now) db.sandboxes (λ x. refl)
    ∙ rw f (ap some (ground (arith, find_holds (has_app name) db.sandboxes r f)))

module _ {env : Env} (quiet : IsQuiet env) where
  lose_each-Runs :
      (add_reason : String → String → String) (now node : ℕ) (containers : List ContainerInfo)
      (app : String) (rows : List Sandbox) (w : World)
      → reported containers app ≡ true
      → (w' : World) × Runs env (lose_each add_reason now node containers rows) w (ok tt) w'
        × (app_row app w'.db ≡ app_row app w.db)
  unfolding lose_each
  lose_each-Runs add_reason now node containers app [] w h = (w, Runs-pure tt w, refl)
  lose_each-Runs add_reason now node containers app (row ∷ rows) w h =
      elim (Bool-cases
        (reported containers row.app_name || ltb now (row.created_at + reconciler_grace_window))) [
          | inl e ↦ rw e (lose_each-Runs add_reason now node containers app rows w h)
          | inr e ↦
              let w1 : World =
                after_call w (mark_sandbox_agent_lost add_reason row.app_name node w.db).1 in
              let (w', run, same) = lose_each-Runs add_reason now node containers app rows w1 h in
              rw e (
                w',
                Runs-bind _
                    (Runs-attempt quiet (mark_sandbox_agent_lost add_reason row.app_name node) w
                      (lost_eq add_reason row.app_name node w.db))
                    run,
                same
                    ∙ app_row-lost add_reason row.app_name app node w.db
                        (λ k. ground (arith, e, subst (λ a. reported containers a ≡ true) k h)),
              )
        ]

  -- In an undisturbed run a heartbeat that reports one container in a state that the column admits
  -- gives the row of its application that state, whatever state and node the row had, if the row was
  -- last verified before; its version and all else but the time of verification stay.
  pub reconcile-verified :
      (add_reason : String → String → String) (now node : ℕ) (c : ContainerInfo) (w : World)
      (r : Sandbox) (s : SandboxState)
      → app_row c.app_name w.db ≡ some r
      → parse_state c.state ≡ some s
      → r.verified_at < w.db.now
      → (w' : World) × Runs env (reconcile add_reason now node (c ∷ [])) w (ok tt) w'
        × (app_row c.app_name w'.db ≡ some (verified s w.db.now r))
  unfolding reconcile verify_each list_sandboxes_for_node
  reconcile-verified add_reason now node c w r s f p v =
      let w1 : World = after_call w w.db in
      let w2 : World = after_call w1 (verified_db c.app_name s w.db) in
      let (w', run, same) =
        lose_each-Runs add_reason now node (c ∷ []) c.app_name _ w2
          (ground (arith, str_eq_iff c.app_name c.app_name)) in
      (
        w',
        Runs-bind _ (Runs-query quiet (λ e. e) (list_sandboxes_for_node node) w refl) (
            Runs-bind _
              (Runs-bind _
                (Runs-attempt quiet (mark_sandbox_verified c.app_name c.state) w1
                  (verified_eq c.app_name c.state s w.db p))
                (Runs-pure tt w2))
              run),
        same ∙ app_row-verified c.app_name s w.db r f v,
      )
