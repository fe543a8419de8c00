-- ===== src/Agent/Answers.antt =====
-- A freshness check that asks an agent, from the agent's snapshot to the row of the control plane.
use appx_forge.Base.{
  ℕ, ◌+◌, ◌≡◌, refl, ap, ◌∙◌, Bool, true, false, Bool-cases, inl, inr, not, ◌&&◌, ◌||◌, none, some,
  List, String, Result, ok, err, str_eq, ltb, find, any, arith, on_option, Option, Option-cases,
  if◌then◌else◌,
}
use appx_forge.Models.{SandboxState}
use appx_forge.Store.{Sandbox, Node, Db, DbErr, check_violation}
use appx_forge.Store.Table.{update, find-update, find_holds}
use appx_forge.Store.Sandboxes.{
  has_app, is_live, gone, one, parse_state, verifiable, verified, get_sandbox_by_app_name,
  mark_sandbox_destroyed, mark_sandbox_verified, write_verified,
}
use appx_forge.Store.Nodes.{node_has_id, one_node, get_node}
use appx_forge.Store.Call.{Env, World, pure, fail}
use appx_forge.Store.Quiet.{
  IsQuiet, Runs, Runs-bind, Runs-pure, Runs-pure_as, Runs-fail, Runs-attempt, Runs-query,
  Runs-catch, after_call,
}
use appx_forge.Reconciler.{
  FreshnessErr, sandbox_not_found, AgentAnswer, unreachable, missing, exists_in, take_answer,
  get_fresh_sandbox,
}
use appx_forge.Reconciler.Revival.{app_row}
use appx_forge.Reconciler.Asking.{
  AgentHttp, HttpReply, responded, ask_agent, container_exists, read_reply, answer_of, AskErr,
  not_assigned, agent_returned,
}
use appx_forge.Docker.{ContainerSnapshot}
use appx_forge.Agent.{ExistsResponse, has_name, handle_container_exists}

-- The agent's answer as the control plane decodes it.
abbrev on_wire : ℕ × Option ExistsResponse → HttpReply
on_wire (status, body) =
    responded status
      (on_option body (λ r. some (record { exists = r.exists; state = r.state })) none)

-- Agents that answer from this snapshot.
abbrev pub served : Result String (List ContainerSnapshot) → AgentHttp
served shot ip port name = on_wire (handle_container_exists name shot)

-- What a check leaves of a row: `res` is its result, `db'` the database.
unfoldable pub Outcome :
    (add_reason : String → String → String) (later : ℕ) (name : String) (db : Db) (r : Sandbox)
    (shot : Result String (List ContainerSnapshot)) (res : Result FreshnessErr (Sandbox × ℕ))
    (db' : Db)
    → Type 0
Outcome add_reason later name db r (err e) res db' = (res ≡ ok (r, r.verified_at)) × (db' ≡ db)
Outcome add_reason later name db r (ok cs) res db' = elim (find (has_name name) cs) [
  | none ↦
      (res ≡ err sandbox_not_found)
      × (app_row name db'
          ≡ some (
              if is_live r.state
              then gone add_reason "agent_lost_at_freshness_check" db.now r
              else r))
  | some c ↦
      (res ≡ ok (r, later))
      × (app_row name db'
          ≡ some (
              on_option (parse_state c.state)
                (λ s. if ltb r.verified_at db.now then verified s db.now r else r) r))
]

module _ {env : Env} (quiet : IsQuiet env) (add_reason : String → String → String)
    (freshness now later : ℕ) (name : String) (force : Bool) (w : World) (r : Sandbox) (node : ℕ)
    (n : Node) (found : app_row name w.db ≡ some r) (placed : r.node_id ≡ some node)
    (known : find (node_has_id node) w.db.nodes ≡ some n) (named : str_eq name "" ≡ false)
    (stale : ltb (r.verified_at + freshness) now || force ≡ true) where
  found_db : get_sandbox_by_app_name name w.db ≡ (ok r, w.db)
  unfolding get_sandbox_by_app_name
  found_db = ap (λ o. one o w.db w.db) found

  -- What the agent's snapshot says of the name.
  abbrev says : Result String (List ContainerSnapshot) → AgentAnswer
  says (err e) = unreachable
  says (ok cs) = on_option (find (has_name name) cs) (λ c. exists_in c.state) missing

  -- The world after the two statements of the question.
  abbrev asked : World
  asked = after_call (after_call (after_call w w.db) w.db) w.db

  placed-Runs :
      {E : Type 0} (e : E) (v : World)
      → Runs env (elim r.node_id [ some m ↦ pure m | none ↦ fail e ]) v (ok node) v
  placed-Runs e v = rw placed (Runs-pure node v)

  reached-Runs :
      (http : AgentHttp) (res : Result AskErr (Bool × String))
      → Runs env (read_reply (http n.tailscale_ip n.agent_listen_port name)) asked res asked
      → Runs env (container_exists http name) (after_call w w.db) res asked
  unfolding container_exists get_node
  reached-Runs http res k = Runs-bind _ (Runs-query quiet _ _ (after_call w w.db) found_db) (
      Runs-bind _ (placed-Runs not_assigned _)
        (Runs-bind _ (Runs-query quiet _ _ _ (ap (λ o. one_node o w.db) known)) k))

  ask-Runs :
      (shot : Result String (List ContainerSnapshot)) (res : Result AskErr (Bool × String))
      → Runs env (read_reply (served shot n.tailscale_ip n.agent_listen_port name)) asked res asked
      → answer_of res ≡ says shot
      → Runs env (ask_agent (served shot) name) (after_call w w.db) (ok (says shot)) asked
  unfolding ask_agent
  ask-Runs shot res k h =
      Runs-bind _ (Runs-catch (reached-Runs (served shot) res k)) (Runs-pure_as asked h)

  served-Runs :
      (shot : Result String (List ContainerSnapshot))
      → Runs env (ask_agent (served shot) name) (after_call w w.db) (ok (says shot)) asked
  unfolding read_reply handle_container_exists answer_of
  served-Runs (err e) = ask-Runs (err e) (err (agent_returned 500)) (rw named (Runs-fail _ _)) refl
  served-Runs (ok cs) = elim (Option-cases (find (has_name name) cs)) [
    | inl gone ↦ ask-Runs (ok cs) (ok (false, "")) (rw (named, gone) (Runs-pure _ _)) (rw gone refl)
    | inr (c, seen) ↦
        ask-Runs (ok cs) (ok (true, c.state)) (rw (named, seen) (Runs-pure _ _)) (rw seen refl)
  ]

  -- The check, by what the answer does to the row.
  check-Runs :
      (shot : Result String (List ContainerSnapshot)) (res : Result FreshnessErr (Sandbox × ℕ))
      (w' : World)
      → Runs env (take_answer add_reason later name r (says shot)) asked res w'
      → Runs env
          (get_fresh_sandbox add_reason freshness now later (ask_agent (served shot)) name force)
          w
          res
          w'
  unfolding get_fresh_sandbox
  check-Runs shot res w' k =
      Runs-bind _ (Runs-query quiet _ _ w found_db)
        (rw (is_checked _ _ stale) (Runs-bind _ (served-Runs shot) k))
    where
      is_checked : (a b : Bool) → a || b ≡ true → not a && not b ≡ false
      is_checked a b h = ground arith

  destroyed_eq :
      mark_sandbox_destroyed add_reason name "agent_lost_at_freshness_check" w.db
      ≡ (ok tt, (mark_sandbox_destroyed add_reason name "agent_lost_at_freshness_check" w.db).1)
  unfolding mark_sandbox_destroyed
  destroyed_eq = refl

  destroyed_row :
      app_row name (mark_sandbox_destroyed add_reason name "agent_lost_at_freshness_check" w.db).1
      ≡ some (
          if is_live r.state then gone add_reason "agent_lost_at_freshness_check" w.db.now r else r)
  unfolding mark_sandbox_destroyed
  destroyed_row =
      find-update (has_app name) (λ x. has_app name x && is_live x.state)
        (gone add_reason "agent_lost_at_freshness_check" w.db.now) w.db.sandboxes (λ x. refl)
      ∙ rw found (rw (find_holds (has_app name) w.db.sandboxes r found) refl)

  marked :
      (o : Option SandboxState)
      → (x : Result DbErr (Unit {0})) × (db' : Db) × (write_verified o name w.db ≡ (x, db'))
        × (app_row name db'
            ≡ some (
                on_option o
                  (λ s. if ltb r.verified_at w.db.now then verified s w.db.now r else r)
                  r))
  marked none = elim (Bool-cases (any (verifiable name w.db.now) w.db.sandboxes)) [
    | inl e ↦ (err check_violation, w.db, rw e refl, found)
    | inr e ↦ (ok tt, w.db, rw e refl, found)
  ]
  marked (some s) = (
    ok tt,
    record w.db {
      sandboxes = update (verifiable name w.db.now) (verified s w.db.now) w.db.sandboxes;
    },
    refl,
    find-update (has_app name) (verifiable name w.db.now) (verified s w.db.now) w.db.sandboxes
          (λ x. refl)
        ∙ rw found (rw (find_holds (has_app name) w.db.sandboxes r found) refl),
  )

  -- In an undisturbed run, where the row of a name that is not empty is stale or a check is forced,
  -- and the row is on a known node whose agent answers from a snapshot of its containers: if the snapshot
  -- failed, the cached row comes back and no table changes; if it has no container of that name, the
  -- answer is that there is no such sandbox, and the row is marked as destroyed, if it was live; else
  -- the row as it was read comes back, and the state of the first container of that name is written
  -- to the table, if the column admits it and the row was last verified before.
  pub check-Outcome :
      (shot : Result String (List ContainerSnapshot))
      → (w' : World) × (res : Result FreshnessErr (Sandbox × ℕ)) × Runs env
          (get_fresh_sandbox add_reason freshness now later (ask_agent (served shot)) name force)
          w
          res
          w'
        × Outcome add_reason later name w.db r shot res w'.db
  unfolding Outcome take_answer mark_sandbox_verified
  check-Outcome (err e) =
      (asked, ok (r, r.verified_at), check-Runs (err e) _ _ (Runs-pure _ _), (refl, refl))
  check-Outcome (ok cs) = elim (Option-cases (find (has_name name) cs)) [
    | inl none_seen ↦ (
      after_call asked
          (mark_sandbox_destroyed add_reason name "agent_lost_at_freshness_check" w.db).1,
      err sandbox_not_found,
      check-Runs (ok cs) _ _
          (rw none_seen (Runs-bind _ (Runs-attempt quiet _ asked destroyed_eq) (Runs-fail _ _))),
      rw (none_seen, Outcome) (refl, destroyed_row),
    )
    | inr (c, seen) ↦
        let (x, db', made, row) = marked (parse_state c.state) in
        (
          after_call asked db',
          ok (r, later),
          check-Runs (ok cs) _ _ (
              rw seen (
                Runs-bind _ (Runs-attempt quiet (mark_sandbox_verified name c.state) asked made)
                  (Runs-pure _ _))),
          rw (seen, Outcome) (refl, row),
        )
  ]
