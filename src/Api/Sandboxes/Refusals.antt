-- ===== src/Api/Sandboxes/Refusals.antt =====
-- What the handlers answer for a sandbox that is not there, in a run that nothing disturbs.
use appx_forge.Base.{ℕ, ◌≡◌, refl, none, some, String, err}
use appx_forge.Store.{Sandbox, Db, no_rows}
use appx_forge.Store.Sandboxes.{get_sandbox}
use appx_forge.Store.Keys.{row}
use appx_forge.Store.Call.{Env, World, M, query, ◌>>=◌}
use appx_forge.Store.Quiet.{
  IsQuiet, Runs, Runs-bind, Runs-bind_err, Runs-pure, Runs-fail, Runs-query_err, Runs-catch,
  after_call,
}
use appx_forge.Lifecycle.{Err, wrapped}
use appx_forge.Lifecycle.Requests.{destroy_sandbox, wake_sandbox, restart_running}
use appx_forge.Api.{internal_error}
use appx_forge.Api.Sandboxes.{
  problem_of, wake_problem, handle_destroy_sandbox, handle_restart_sandbox, handle_wake_sandbox,
}

absent-query : (id : ℕ) (db : Db) → row id db ≡ none → get_sandbox id db ≡ (err no_rows, db)
unfolding get_sandbox
absent-query id db absent = rw absent refl

module _ {env : Env} (quiet : IsQuiet env) (id : ℕ) (w : World) (absent : row id w.db ≡ none) where
  looked :
      (f : Sandbox → M Err (Unit {0}))
      → Runs env
          (query (wrapped "get sandbox") (get_sandbox id) >>= f)
          w
          (err (wrapped "get sandbox" no_rows))
          (after_call w w.db)
  looked f = Runs-bind_err f (Runs-query_err quiet _ _ w (absent-query id w.db absent))

  -- In an undisturbed run, the requests to destroy, restart and wake a sandbox that is not in the
  -- table are all answered with 500, not with 404, and change no table.
  pub missing-internal_error :
      (error_text : String)
      → (w' : World) × (w'.db ≡ w.db)
        × Runs env
            (handle_destroy_sandbox (some id))
            w
            (err (internal_error "failed to destroy sandbox"))
            w'
        × Runs env
            (handle_restart_sandbox (some id))
            w
            (err (internal_error "failed to restart sandbox"))
            w'
        × Runs env
            (handle_wake_sandbox error_text (some id))
            w
            (err (internal_error "failed to wake sandbox"))
            w'
  unfolding handle_destroy_sandbox handle_restart_sandbox handle_wake_sandbox problem_of
      wake_problem destroy_sandbox restart_running wake_sandbox
  missing-internal_error error_text = (
    after_call w w.db,
    refl,
    Runs-bind _ (Runs-pure _ _) (Runs-bind _ (Runs-catch (looked _)) (Runs-fail _ _)),
    Runs-bind _ (Runs-pure _ _) (Runs-bind _ (Runs-catch (looked _)) (Runs-fail _ _)),
    Runs-bind _ (Runs-pure _ _) (Runs-bind _ (Runs-catch (looked _)) (Runs-fail _ _)),
  )
