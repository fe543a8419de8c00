-- ===== src/Store/Call.antt =====
-- How the control plane calls what lies outside it: the database, the encoders, the router. Before
-- each statement the rest of the system may change the tables, and each statement may fail, before
-- or after it took effect.
use appx_forge.Base.{ℕ, suc, Bool, Option, List, [], ◌∷◌, ◌++◌, String, Result, ok, err, on_result}
use appx_forge.Base.Int.{ℤ}
use appx_forge.Store.{Db, DbErr, Query, Resources}

-- What becomes of a statement: `lost` takes effect and then reports an error.
pub data Fault : Type 0 where
  works : Fault
  refused : DbErr → Fault
  lost : DbErr → Fault

-- `container_id` and `host_port` of an agent's acknowledgment.
pub record RuntimeInfo : Type 0 where
  pub container_id : String
  pub host_port : ℤ

-- The surroundings. The n-th statement meets `interfere n` and `fault n`, and `new_uuid n` is the
-- n-th identifier drawn.
pub record Env : Type 0 where
  pub interfere : ℕ → Db → Db
  pub fault : ℕ → Fault
  pub new_uuid : ℕ → ℕ
  -- the text of an error
  pub message : DbErr → String
  -- strings.Contains
  pub contains : String → String → Bool
  -- json.Marshal and json.Unmarshal; a decoder also gives what it leaves in the target on failure
  pub encode_resources : Resources → String
  pub decode_resources : String → Resources × Bool
  pub encode_env : List (String × String) → String
  pub decode_env : String → List (String × String) × Bool
  pub decode_runtime : String → Option RuntimeInfo
  -- fmt's %d
  pub show_int : ℤ → String

-- The calls that reach the RouteNotifier.
pub data RouteCall : Type 0 where
  sandbox_running : String → ℕ → String → RouteCall
  sandbox_stopped : String → RouteCall

pub record World : Type 0 where
  pub db : Db
  pub calls : ℕ
  pub uuids : ℕ
  pub route_calls : List RouteCall

-- A computation that ends in a value or in an error.
abbrev pub M : Type 0 → Type 0 → Type 0
M E A = Env → World → Result E A × World

module _ {E A : Type 0} where
  unfoldable pub pure : A → M E A
  pure a env w = (ok a, w)

  unfoldable pub fail : E → M E A
  fail e env w = (err e, w)

module _ {E A B : Type 0} where
  abbrev pub and_then : Result E A × World → (A → M E B) → Env → Result E B × World
  and_then (ok a, w) f env = f a env w
  and_then (err e, w) f env = (err e, w)

  infixl 5 ◌>>=◌ ◌>>◌
  unfoldable pub ◌>>=◌ : M E A → (A → M E B) → M E B
  ◌>>=◌ m f env w = and_then (m env w) f env

  abbrev pub ◌>>◌ : M E A → M E B → M E B
  m >> k = m >>= λ _. k

abbrev pub settle : {A : Type 0} → Fault → Db → Result DbErr A × Db → World → Result DbErr A × World
settle works before (r, after) w = (r, record w { db = after })
settle (refused e) before (r, after) w = (err e, record w { db = before })
settle (lost e) before (r, after) w = (err e, record w { db = after })

-- A computation whose error comes back as a value: the caller logs it.
unfoldable pub catch : {E X A : Type 0} → M X A → M E (Result X A)
catch m env w = let (r, w') = m env w in (ok r, w')

-- One statement; its error comes back as a value.
unfoldable pub attempt : {E A : Type 0} → Query A → M E (Result DbErr A)
attempt q env w =
    let before = env.interfere w.calls w.db in
    let (r, w') = settle (env.fault w.calls) before (q before) (record w { calls = suc w.calls }) in
    (ok r, w')

-- One statement; an error ends the computation, as `fmt.Errorf("…: %w", err)` in Go.
unfoldable pub query : {E A : Type 0} → (DbErr → E) → Query A → M E A
query wrap q = do r ← attempt q; on_result r pure (λ e. fail (wrap e))

unfoldable pub fresh_uuid : {E : Type 0} → M E ℕ
fresh_uuid env w = (ok (env.new_uuid w.uuids), record w { uuids = suc w.uuids })

-- The surroundings, to read the codecs.
unfoldable pub ask : {E A : Type 0} → (Env → A) → M E A
ask f env w = (ok (f env), w)

-- A call of the router; whether it failed is only logged.
unfoldable pub notify : {E : Type 0} → RouteCall → M E (Unit {0})
notify c env w = (ok tt, record w { route_calls = w.route_calls ++ c ∷ [] })
