-- ===== src/Api/Sandboxes/Reading.antt =====
-- handleGetSandbox and handleListSandboxes.
use appx_forge.Base.{
  ℕ, Bool, Option, none, some, List, [], ◌∷◌, String, str_eq, Result, ok, err, ltb, map, on_result,
  on_option, if◌then◌else◌,
}
use appx_forge.Store.{Sandbox, DbErr, Query}
use appx_forge.Store.Sandboxes.{get_sandbox, get_sandbox_by_app_name}
use appx_forge.Store.Listing.{
  list_sandboxes, list_sandboxes_by_state, list_sandboxes_by_node, list_sandboxes_by_user,
}
use appx_forge.Store.Call.{pure, fail, attempt, catch, query, ◌>>=◌}
use appx_forge.Reconciler.{
  AgentClient, FreshnessErr, sandbox_not_found, store_failed, get_fresh_sandbox,
}
use appx_forge.Api.{Handler, bad_request, not_found, internal_error, require}
use appx_forge.Api.Sandboxes.{SandboxOutside, SandboxResponse, sandbox_to_response}

-- What the path's parameter is: "app:" and a name, or a UUID, `none` if it does not parse.
pub data SandboxKey : Type 0 where
  by_app : String → SandboxKey
  by_id : Option ℕ → SandboxKey

unfoldable pub read_sandbox : SandboxKey → Handler (Result DbErr Sandbox)
read_sandbox (by_app name) = attempt (get_sandbox_by_app_name name)
read_sandbox (by_id id) =
    require id (bad_request "invalid sandbox ID: must be a valid UUID or app:{name}") >>= λ pg_id.
    attempt (get_sandbox pg_id)

-- The freshness service, if it is wired: its arguments but for the name and the query's flag.
pub record FreshnessWiring : Type 0 where
  pub add_reason : String → String → String
  pub freshness : ℕ
  pub now : ℕ
  pub later : ℕ
  pub agent : AgentClient

-- The time of the check, `none` where the cached row is served.
abbrev checked : Result FreshnessErr (Sandbox × ℕ) → Handler (Option ℕ)
checked (ok (row, at)) = pure (some at)
checked (err sandbox_not_found) = fail (not_found "sandbox not found")
checked (err (store_failed e)) = pure none

unfoldable pub refresh_sandbox : Option FreshnessWiring → String → Bool → Handler (Option ℕ)
refresh_sandbox none app_name force_refresh = pure none
refresh_sandbox (some f) app_name force_refresh =
    if str_eq app_name ""
    then pure none
    else (catch
          (get_fresh_sandbox f.add_reason f.freshness f.now f.later f.agent app_name force_refresh)
        >>= checked)

unfoldable pub handle_get_sandbox :
    SandboxOutside → Option FreshnessWiring → SandboxKey → Bool → Handler (ℕ × SandboxResponse)
handle_get_sandbox out wiring key force_refresh = do
  found ← read_sandbox key
  sandbox ← on_result found pure (λ e. fail (not_found "sandbox not found"))
  at ← refresh_sandbox wiring sandbox.app_name force_refresh
  let resp = sandbox_to_response out sandbox
  pure (200, on_option at (λ t. record resp { verified_at = out.rfc3339 t }) resp)

-- The parameter `limit`: absent, no positive number, or a number.
pub data LimitParam : Type 0 where
  no_limit : LimitParam
  bad_limit : LimitParam
  limit_of : ℕ → LimitParam

unfoldable pub limit_value : LimitParam → Option ℕ
limit_value no_limit = some 50
limit_value bad_limit = none
limit_value (limit_of l) = if ltb l 1 then none else if ltb 500 l then some 500 else some l

-- The first of the filters that is given.
pub data ListFilter : Type 0 where
  app_name_is : String → ListFilter
  user_id_is : String → ListFilter
  state_is : String → ListFilter
  node_id_is : Option ℕ → ListFilter
  at_most : LimitParam → ListFilter

abbrev listed : Query (List Sandbox) → Handler (List Sandbox)
listed q = query (λ e. internal_error "failed to list sandboxes") q

unfoldable pub select_sandboxes : ListFilter → Handler (List Sandbox)
select_sandboxes (app_name_is name) = attempt (get_sandbox_by_app_name name) >>= λ r.
    on_result r (λ sb. pure (sb ∷ [])) (λ e. pure [])
select_sandboxes (user_id_is user) = listed (list_sandboxes_by_user user)
select_sandboxes (state_is state) = listed (list_sandboxes_by_state state)
select_sandboxes (node_id_is id) =
    require id (bad_request "invalid node_id: must be a valid UUID") >>= λ node.
    listed (list_sandboxes_by_node node)
select_sandboxes (at_most l) =
    require (limit_value l) (bad_request "limit must be a positive integer") >>= λ limit.
    listed (list_sandboxes limit)

-- The loop over the rows; `none` is the zero time.
unfoldable pub oldest_verified : Option ℕ → List Sandbox → Option ℕ
oldest_verified oldest [] = oldest
oldest_verified oldest (sb ∷ rest) =
    oldest_verified
      (on_option oldest (λ t. if ltb sb.verified_at t then some sb.verified_at else some t)
        (some sb.verified_at))
      rest

pub record SandboxListResponse : Type 0 where
  pub sandboxes : List SandboxResponse
  pub fleet_verified_at : String

unfoldable pub handle_list_sandboxes :
    SandboxOutside → ListFilter → Handler (ℕ × SandboxListResponse)
handle_list_sandboxes out filter = do
  sandboxes ← select_sandboxes filter
  pure (
    200,
    record {
      sandboxes = map (sandbox_to_response out) sandboxes;
      fleet_verified_at = on_option (oldest_verified none sandboxes) out.rfc3339 "";
    },
  )
