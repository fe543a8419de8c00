-- ===== src/Lifecycle/Routes.antt =====
-- The route notifications of control/internal/lifecycle/lifecycle.go and what an acknowledgment
-- leaves in the sandbox's row. Both are best effort: nothing here ends the handler.
use Prim.Native.String.{◌++◌ as str_append}
use appx_forge.Base.{on_result, on_option, ℕ, none, some, String, if◌then◌else◌, str_eq, ◌&&◌}
use appx_forge.Base.Int.{is_zero}
use appx_forge.Store.{Sandbox}
use appx_forge.Store.Sandboxes.{update_sandbox_runtime}
use appx_forge.Store.Nodes.{get_node}
use appx_forge.Store.Call.{
  M, RuntimeInfo, sandbox_running, sandbox_stopped, attempt, ask, notify, ◌>>=◌, ◌>>◌, pure,
}
use appx_forge.Lifecycle.{Err, skip}

-- `fmt.Sprintf("%s:%d", ip, port)`.
unfoldable pub upstream_of : String → String → String
upstream_of ip port = str_append ip (str_append ":" port)

-- The address is built from the node's row; a row without node or port is not announced.
unfoldable pub notify_route_add : Sandbox → ℕ → M Err (Unit {0})
notify_route_add sandbox sandbox_id =
    on_option sandbox.node_id
      (λ node_id.
        on_option sandbox.host_port
          (λ port. do
            node ← attempt (get_node node_id)
            show_int ← ask (λ env. env.show_int)
            on_result node
                (λ n. notify (
                  sandbox_running sandbox.app_name sandbox_id
                    (upstream_of n.tailscale_ip (show_int port))))
                (λ _. skip))
          skip)
      skip

unfoldable pub notify_route_remove : String → M Err (Unit {0})
notify_route_remove app_name = notify (sandbox_stopped app_name)

-- What `persistRuntimeInfo` writes; an empty text or a zero is stored as NULL.
unfoldable pub persist_info : RuntimeInfo → ℕ → M Err (Unit {0})
persist_info info id = if str_eq info.container_id "" && is_zero info.host_port then skip else (do
  attempt (
      update_sandbox_runtime (if str_eq info.container_id "" then none else some info.container_id)
        (if is_zero info.host_port then none else some info.host_port) id)
  pure tt)

unfoldable pub persist_runtime_info : ℕ → String → M Err (Unit {0})
persist_runtime_info id ack_result = if str_eq ack_result "" then skip else (do
  decode ← ask (λ env. env.decode_runtime)
  on_option (decode ack_result) (λ info. persist_info info id) skip)
