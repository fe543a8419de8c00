-- ===== src/Reconciler/Asking.antt =====
-- agentHTTPClient of control/cmd/forge-control/main.go, which asks a sandbox's agent whether its
-- container exists; and the answer's way into the freshness service.
use appx_forge.Base.{
  ℕ, Bool, true, false, Option, none, some, String, Result, ok, err, ◌==◌, if◌then◌else◌,
}
use appx_forge.Base.Int.{ℤ}
use appx_forge.Store.{DbErr}
use appx_forge.Store.Sandboxes.{get_sandbox_by_app_name}
use appx_forge.Store.Nodes.{get_node}
use appx_forge.Store.Call.{M, pure, fail, query, catch, ◌>>=◌}
use appx_forge.Reconciler.{AgentAnswer, unreachable, missing, exists_in, AgentClient}

-- The fields of the agent's answer that are read.
pub record ContainerExistsResponse : Type 0 where
  pub exists : Bool
  pub state : String

-- What comes of GET /v1/containers/{name} at an agent's address and port: no response, or a status and
-- what the decoder makes of the body.
pub data HttpReply : Type 0 where
  no_response : HttpReply
  responded : ℕ → Option ContainerExistsResponse → HttpReply

abbrev pub AgentHttp : Type 0
AgentHttp = String → ℤ → String → HttpReply

pub data AskErr : Type 0 where
  row_failed : DbErr → AskErr
  not_assigned : AskErr
  node_failed : DbErr → AskErr
  transport_failed : AskErr
  undecodable : AskErr
  agent_returned : ℕ → AskErr

unfoldable pub read_reply : HttpReply → M AskErr (Bool × String)
read_reply no_response = fail transport_failed
read_reply (responded status body) =
    if status == 200
    then elim body [ some r ↦ pure (r.exists, r.state) | none ↦ fail undecodable ]
    else if status == 404
    then pure (false, "")
    else fail (agent_returned status)

unfoldable pub container_exists : AgentHttp → String → M AskErr (Bool × String)
container_exists http name = do
  sb ← query row_failed (get_sandbox_by_app_name name)
  node_id ← elim sb.node_id [ some n ↦ pure n | none ↦ fail not_assigned ]
  node ← query node_failed (get_node node_id)
  read_reply (http node.tailscale_ip node.agent_listen_port name)

-- `exists, state, err` as the freshness service tells them apart.
unfoldable pub answer_of : Result AskErr (Bool × String) → AgentAnswer
answer_of (err e) = unreachable
answer_of (ok (false, state)) = missing
answer_of (ok (true, state)) = exists_in state

unfoldable pub ask_agent : AgentHttp → AgentClient
ask_agent http name = do r ← catch (container_exists http name); pure (answer_of r)
