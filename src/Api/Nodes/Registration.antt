-- ===== src/Api/Nodes/Registration.antt =====
-- Registration, in a run that nothing disturbs: what a later lookup finds.
use mathlib.Core.Option
use appx_forge.Base.{
  ℕ, suc, ◌≡◌, refl, ap, ◌∙◌, false, Option-cases, inl, inr, Result, none, some, String, str_eq,
  str_eq_iff, ok, err, [], ◌∷◌, ◌++◌, arith, find, any, length, length-append, if◌then◌else◌,
}
use appx_forge.Base.Int.{is_zero}
use appx_forge.Store.{Node, Db, DbErr, no_rows, unique_violation}
use appx_forge.Store.Table.{update, find-update, length-update, find-append_none, any-find}
use appx_forge.Store.Nodes.{
  CreateNodeParams, new_node, with_token, at_address, get_node_by_hostname_and_ip, create_node,
  update_node_token, node_has_id,
}
use appx_forge.Store.Call.{Env, World}
use appx_forge.Store.Quiet.{
  IsQuiet, Runs, Runs-bind, Runs-pure, Runs-fresh_uuid, Runs-catch, Runs-query, Runs-attempt,
  after_call,
}
use appx_forge.Api.{ProblemDetail}
use appx_forge.Api.Checks.{Runs-pass, Runs-require}
use appx_forge.Api.Nodes.{
  RegisterRequest, RegisterResponse, RegisterOutside, check_register, register_found,
  handle_register_node, re_register, register_new, create_node_record,
}

-- A request that passes the checks, with the address and the token that come of it.
pub record IsAccepted (out : RegisterOutside) (req : RegisterRequest) (ip token : String)
    : Type 0 where
  pub host : str_eq req.hostname "" ≡ false
  pub address : str_eq req.tailscale_ip "" ≡ false
  pub capacity : is_zero req.capacity_mb ≡ false
  pub version : str_eq req.agent_version "" ≡ false
  pub parsed : out.parse_addr req.tailscale_ip ≡ some ip
  pub drawn : out.token ≡ some token
  pub real : str_eq token "" ≡ false

-- `answer` is what a later lookup by host name and address finds.
pub record IsRegistered (host ip : String) (answer : RegisterResponse) (db : Db) : Type 0 where
  pub at : Node
  pub found : find (at_address host ip) db.nodes ≡ some at
  pub same_id : at.id ≡ answer.node_id
  pub same_token : at.agent_token ≡ answer.agent_token

-- What a valid request does, whether the node is known or not.
pub IsRegistering : Env → RegisterOutside → ℕ → RegisterRequest → String → World → Type 0
IsRegistering env out interval req ip w =
    (w' : World) × (answer : RegisterResponse) × Runs env
      (handle_register_node out interval (some req)) w (ok (201, answer)) w'
    × IsRegistered req.hostname ip answer w'.db
    × (length w'.db.nodes ≡ (
        if any (at_address req.hostname ip) w.db.nodes
        then length w.db.nodes
        else suc (length w.db.nodes)))

module _ {env : Env} (quiet : IsQuiet env) where
  re_register-Runs :
      (w : World) (token version host ip : String) (interval : ℕ) (n : Node)
      → find (at_address host ip) w.db.nodes ≡ some n
      → let answer : RegisterResponse = record {
        node_id = n.id;
        agent_token = token;
        heartbeat_interval_seconds = interval;
      } in
        (w' : World) × Runs env (re_register token version interval n.id) w (ok (201, answer)) w'
        × IsRegistered host ip answer w'.db
        × (length w'.db.nodes ≡ length w.db.nodes)
  unfolding re_register update_node_token
  re_register-Runs w token version host ip interval n found = (
    _,
    Runs-bind _ (Runs-query quiet _ _ w refl) (Runs-pure _ _),
    record {
      at = with_token token version w.db.now n;
      found =
          find-update (at_address host ip) (node_has_id n.id) _ w.db.nodes (λ r. refl)
          ∙ rw found (ground arith);
      same_id = refl;
      same_token = refl;
    },
    length-update _ _ w.db.nodes,
  )

  -- What the adapter's two statements leave.
  create-Runs :
      (w : World) (a : CreateNodeParams) (token : String)
      → find (at_address a.hostname a.tailscale_ip) w.db.nodes ≡ none
      → any (node_has_id a.id) w.db.nodes ≡ false
      → str_eq token "" ≡ false
      → (w' : World) × Runs env (create_node_record a token) w (ok tt) w'
        × (find (at_address a.hostname a.tailscale_ip) w'.db.nodes
            ≡ some (with_token token a.agent_version w.db.now (new_node a w.db.now)))
        × (length w'.db.nodes ≡ suc (length w.db.nodes))
  unfolding create_node_record create_node update_node_token
  create-Runs w a token absent fresh real =
      let made : Node = new_node a w.db.now in
      let db' : Db = record w.db { nodes = w.db.nodes ++ made ∷ [] } in
      let mark : Node → Node = with_token token a.agent_version w.db.now in
      let done : Db = record db' { nodes = update (node_has_id a.id) mark db'.nodes } in
      (
        after_call (after_call w db') done,
        Runs-bind _
            (Runs-query quiet _ _ w
              (ap (λ b. if b then (err unique_violation, w.db) else (ok made, db')) fresh))
            (rw real (Runs-query quiet _ _ (after_call w db') refl)),
        find-update (at_address a.hostname a.tailscale_ip) (node_has_id a.id) mark
              (w.db.nodes ++ made ∷ []) (λ r. refl)
            ∙ ap (Option.map (λ r. if node_has_id a.id r then mark r else r)) (
                find-append_none (at_address a.hostname a.tailscale_ip) w.db.nodes (made ∷ [])
                  absent
                ∙ at_end made)
            ∙ ground arith,
        length-update _ _ (w.db.nodes ++ made ∷ [])
            ∙ omega (arith, length-append w.db.nodes (made ∷ [])),
      )
    where
      at_end : (n : Node) → find (at_address n.hostname n.tailscale_ip) (n ∷ []) ≡ some n
      at_end n = ground (
        arith,
        (str_eq_iff n.hostname n.hostname).1 refl,
        (str_eq_iff n.tailscale_ip n.tailscale_ip).1 refl,
      )

  register_new-Runs :
      (w : World) (req : RegisterRequest) (ip token : String) (interval : ℕ)
      → find (at_address req.hostname ip) w.db.nodes ≡ none
      → any (node_has_id (env.new_uuid w.uuids)) w.db.nodes ≡ false
      → str_eq token "" ≡ false
      → let answer : RegisterResponse = record {
        node_id = env.new_uuid w.uuids;
        agent_token = token;
        heartbeat_interval_seconds = interval;
      } in
        (w' : World) × Runs env (register_new req ip token interval) w (ok (201, answer)) w'
        × IsRegistered req.hostname ip answer w'.db
        × (length w'.db.nodes ≡ suc (length w.db.nodes))
  unfolding register_new
  register_new-Runs w req ip token interval absent fresh real =
      let (w', made, found, grown) =
        create-Runs (record w { uuids = suc w.uuids }) _ token absent fresh real in
      (
        w',
        Runs-bind _ (Runs-fresh_uuid w)
            (Runs-bind _ (Runs-catch made) (Runs-bind _ (Runs-pure _ _) (Runs-pure _ _))),
        record { at = _; found = found; same_id = refl; same_token = refl },
        grown,
      )

  -- The checks, and the look for the node.
  looked-Runs :
      (out : RegisterOutside) (interval : ℕ) (req : RegisterRequest) (ip token : String)
      (w w' : World) (found : Result DbErr Node)
      (answer : Result ProblemDetail (ℕ × RegisterResponse))
      → IsAccepted out req ip token
      → get_node_by_hostname_and_ip req.hostname ip w.db ≡ (found, w.db)
      → Runs env (register_found req ip token interval found) (after_call w w.db) answer w'
      → Runs env (handle_register_node out interval (some req)) w answer w'
  unfolding handle_register_node check_register
  looked-Runs out interval req ip token w w' found answer acc look rest =
      Runs-bind _ (Runs-pure req w) (
        Runs-bind _
          (Runs-bind _ (Runs-pass _ w acc.host) (
            Runs-bind _ (Runs-pass _ w acc.address)
              (Runs-bind _ (Runs-pass _ w acc.capacity) (Runs-pass _ w acc.version))))
          (Runs-bind _ (Runs-require _ w acc.parsed) (
            Runs-bind _ (Runs-require _ w acc.drawn)
              (Runs-bind _ (Runs-attempt quiet _ w look) rest))))

  -- In an undisturbed run, a request that passes the checks, whose address parses to `ip` and for
  -- which a token that is not empty is drawn, is answered with 201. A later lookup by its host name
  -- and `ip` finds a row with the identifier and the token of the answer. The table has one row more
  -- if no row had that host name and address before, and as many as before otherwise. The drawn
  -- identifier must be no node's.
  pub register-IsRegistered :
      (out : RegisterOutside) (interval : ℕ) (req : RegisterRequest) (ip token : String) (w : World)
      → IsAccepted out req ip token
      → any (node_has_id (env.new_uuid w.uuids)) w.db.nodes ≡ false
      → IsRegistering env out interval req ip w
  unfolding get_node_by_hostname_and_ip IsRegistering register_found
  register-IsRegistered out interval req ip token w acc fresh =
      elim (Option-cases (find (at_address req.hostname ip) w.db.nodes)) [
        | inl absent ↦
            let (w', runs, done, size) =
              register_new-Runs (after_call w w.db) req ip token interval absent fresh acc.real in
            (
              w',
              _,
              looked-Runs out interval req ip token w w' (err no_rows) _ acc (rw absent refl) runs,
              done,
              size ∙ rw (any-find (at_address req.hostname ip) w.db.nodes, absent) refl,
            )
        | inr (n, found) ↦
            let (w', runs, done, size) =
              re_register-Runs (after_call w w.db) token req.agent_version req.hostname ip interval
                n found in
            (
              w',
              _,
              looked-Runs out interval req ip token w w' (ok n) _ acc (rw found refl) runs,
              done,
              size ∙ rw (any-find (at_address req.hostname ip) w.db.nodes, found) refl,
            )
      ]
