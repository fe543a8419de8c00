-- ===== src/Monitor/Silence.antt =====
-- What a tick of the monitor does to nodes that are silent, and to those that are not, in a run that
-- nothing disturbs.
use appx_forge.Base.{
  ℕ, ◌≡◌, refl, ap, ◌∙◌, Bool, true, false, ◌&&◌, ◌||◌, Bool-cases, inl, inr, List, [], ◌∷◌, ok,
  arith, any,
}
use appx_forge.Store.{Node}
use appx_forge.Store.Nodes.{is_healthy, list_nodes, newest_first, insert_newer}
use appx_forge.Store.Call.{Env, World}
use appx_forge.Store.Quiet.{IsQuiet, Runs, Runs-bind, Runs-pure, Runs-attempt, after_call}
use appx_forge.Monitor.{HeartbeatConfig, is_silent, check_node, check_nodes, monitor_tick}

-- The nodes that a tick acts on.
abbrev pub is_lost : HeartbeatConfig → ℕ → Node → Bool
is_lost cfg now n = is_healthy n.status && is_silent cfg now n

any-insert :
    (q : Node → Bool) (n : Node) (ns : List Node) → any q (insert_newer n ns) ≡ q n || any q ns
unfolding insert_newer
any-insert q n [] = refl
any-insert q n (x ∷ ns) = ground (arith, any-insert q n ns)

pub any-newest_first : (q : Node → Bool) (ns : List Node) → any q (newest_first ns) ≡ any q ns
unfolding newest_first
any-newest_first q [] = refl
any-newest_first q (n ∷ ns) =
    any-insert q n (newest_first ns) ∙ ap (λ b. q n || b) (any-newest_first q ns)

module _ {env : Env} (quiet : IsQuiet env) (cfg : HeartbeatConfig) (notifier : Bool) (now : ℕ) where
  spared-Runs :
      (n : Node) (w : World)
      → is_lost cfg now n ≡ false
      → Runs env (check_node cfg notifier now n) w (ok tt) w
  unfolding check_node
  spared-Runs n w h = elim (Bool-cases (is_healthy n.status)) [
    | inr sick ↦ rw sick (Runs-pure _ _)
    | inl well ↦ rw (well, talking well) (Runs-pure _ _)
  ]
    where
      talking : is_healthy n.status ≡ true → is_silent cfg now n ≡ false
      talking well = ground (arith, h, well)

  all_spared-Runs :
      (ns : List Node) (w : World)
      → any (is_lost cfg now) ns ≡ false
      → Runs env (check_nodes cfg notifier now ns) w (ok tt) w
  unfolding check_nodes
  all_spared-Runs [] w h = Runs-pure _ _
  all_spared-Runs (n ∷ ns) w h =
      Runs-bind _ (spared-Runs n w (ground (arith, h))) (all_spared-Runs ns w (ground (arith, h)))

  -- In an undisturbed run a tick of the monitor at which no node is both healthy and silent for
  -- longer than the threshold ends without an error and changes no table. So a node that is
  -- draining, unhealthy or removed is left as it is however long it has been silent, and so are
  -- its sandboxes.
  pub tick-spared :
      (w : World)
      → any (is_lost cfg now) w.db.nodes ≡ false
      → (w' : World) × Runs env (monitor_tick cfg notifier now) w (ok tt) w' × (w'.db ≡ w.db)
  unfolding monitor_tick list_nodes
  tick-spared w h = (
    after_call w w.db,
    Runs-bind _ (Runs-attempt quiet _ w refl) (
        all_spared-Runs (newest_first w.db.nodes) _
          (any-newest_first (is_lost cfg now) w.db.nodes ∙ h)),
    refl,
  )
