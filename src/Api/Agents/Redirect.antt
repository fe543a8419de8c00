-- ===== src/Api/Agents/Redirect.antt =====
-- A file push from the control plane's redirect to the agent's check, in a run that nothing disturbs.
use appx_forge.Base.{ℕ, ◌+◌, ◌≤◌, ◌<◌, ◌≡◌, refl, ◌∙◌, some, String, str_append, ok, err, find, []}
use appx_forge.Base.Int.{ℤ}
use appx_forge.Store.{Sandbox, Node, Db}
use appx_forge.Store.Table.{find-update, find_holds}
use appx_forge.Store.Sandboxes.{has_id, get_sandbox, update_sandbox_last_active}
use appx_forge.Store.Nodes.{node_has_id, get_node}
use appx_forge.Store.Keys.{row}
use appx_forge.Store.Call.{Env, World}
use appx_forge.Store.Quiet.{
  IsQuiet, Runs, Runs-bind, Runs-pure, Runs-query, Runs-attempt, after_call,
}
use appx_forge.Auth.{UrlCodec, Url, expired, sign_url, verify_url}
use appx_forge.Auth.Signing.{IsCodec, IsReadable, stripped, sign_url-verify_url}
use appx_forge.Api.Checks.{Runs-require}
use appx_forge.Api.Agents.{PushOutside, push_path, agent_origin, handle_file_push}

-- What the handler takes from outside, with the signing of the shared package.
abbrev pub push_outside :
    (c : UrlCodec)
    → (ℤ → String)
    → (ℕ → String)
    → (String → c.Text)
    → String
    → ℕ
    → PushOutside c.Text
push_outside c show_port show_uuid as_text key now = record {
  show_port = show_port;
  show_uuid = show_uuid;
  as_text = as_text;
  sign_url = λ url expiry. sign_url c url key now expiry;
}

-- The URL at which the agent of a node is asked for a sandbox, parsed; `nothing` is an empty query.
abbrev pub push_url : {Raw : Type 0} → (ℤ → String) → (ℕ → String) → Node → ℕ → Raw → Url Raw
push_url show_port show_uuid n id nothing = record {
  origin = agent_origin n.tailscale_ip (show_port n.agent_listen_port);
  path = push_path (show_uuid id);
  raw_query = nothing;
}

-- A signed URL for the node's agent and the sandbox, good for the seconds up to `until`.
pub record IsPushUrl (c : UrlCodec) (codec : IsCodec c) (key : String) (until : ℕ) (u : Url c.Raw)
    (signed : c.Text) : Type 0 where
  pub accepted :
      (later : ℕ) → later ≤ until → verify_url c signed key later ≡ ok (stripped c codec u)
  pub refused : (later : ℕ) → until < later → verify_url c signed key later ≡ err expired

sandbox-hit : (id : ℕ) (db : Db) (r : Sandbox) → row id db ≡ some r → get_sandbox id db ≡ (ok r, db)
unfolding get_sandbox
sandbox-hit id db r found = rw found refl

node-hit :
    (id : ℕ) (db : Db) (n : Node)
    → find (node_has_id id) db.nodes ≡ some n
    → get_node id db ≡ (ok n, db)
unfolding get_node
node-hit id db n found = rw found refl

last_active-hit :
    (id : ℕ) (db : Db) (r : Sandbox)
    → row id db ≡ some r
    → row id (update_sandbox_last_active id db).1 ≡ some (record r { last_active_at = db.now })
unfolding update_sandbox_last_active
last_active-hit id db r found =
    find-update (has_id id) (has_id id) (λ q. record q { last_active_at = db.now }) db.sandboxes
      (λ q. refl)
    ∙ rw found (rw (find_holds (has_id id) db.sandboxes r found) refl)

module _ {env : Env} (quiet : IsQuiet env) (c : UrlCodec) (codec : IsCodec c) where
  -- In an undisturbed run, a request to push files to a sandbox that is in the table and on a node
  -- that is in the table is redirected, with 307, to a signed URL, and the sandbox counts as active
  -- now. Under the same secret the agent's check accepts that URL at every instant up to 60 seconds
  -- later, and gives the URL of the node's address and port for the path of the sandbox's
  -- identifier; after that it refuses the URL as expired. The URL that the handler writes must parse
  -- into that address, that path and an empty query, and read back from its text with any query.
  pub push-accepted :
      (show_port : ℤ → String) (show_uuid : ℕ → String) (as_text : String → c.Text) (key : String)
      (now id node : ℕ) (w : World) (r : Sandbox) (n : Node) (nothing : c.Raw)
      → row id w.db ≡ some r
      → r.node_id ≡ some node
      → find (node_has_id node) w.db.nodes ≡ some n
      → c.parse_url (
          as_text (
            str_append
              (agent_origin n.tailscale_ip (show_port n.agent_listen_port))
              (push_path (show_uuid id))))
        ≡ some (push_url show_port show_uuid n id nothing)
      → (c.parse_query nothing).sig ≡ []
      → IsReadable c (push_url show_port show_uuid n id nothing)
      → now + 60 < 9223372036854775808
      → (signed : c.Text) × (w' : World) × Runs env
          (handle_file_push (push_outside c show_port show_uuid as_text key now) (some id))
          w
          (ok (307, signed))
          w'
        × (row id w'.db ≡ some (record r { last_active_at = w.db.now }))
        × IsPushUrl c codec key (now + 60) (push_url show_port show_uuid n id nothing) signed
  unfolding handle_file_push
  push-accepted show_port show_uuid as_text key now id node w r n nothing found on here parses
        unsigned readable range =
      let (signed, made, accepted, refused) =
        sign_url-verify_url c codec _ key now 60 (push_url show_port show_uuid n id nothing) parses
          unsigned readable range in
      (
        signed,
        _,
        Runs-bind _ (Runs-pure id w) (
            Runs-bind _ (Runs-query quiet _ _ w (sandbox-hit id w.db r found)) (
              Runs-bind _ (Runs-require _ _ on) (
                Runs-bind _ (Runs-query quiet _ _ (after_call w w.db) (node-hit node w.db n here)) (
                  Runs-bind _ (Runs-require _ _ made) (
                    Runs-bind _ (Runs-attempt quiet _ (after_call (after_call w w.db) w.db) refl)
                      (Runs-pure _ _)))))),
        last_active-hit id w.db r found,
        record { accepted = accepted; refused = refused },
      )
