-- ===== src/Api/Agents/Waiting.antt =====
-- The long poll's loop ends: by its clock, before its fuel does.
use appx_forge.Base.{
  ℕ, zero, suc, ◌+◌, ◌-◌, ◌*◌, ◌≤◌, ◌<◌, ◌≡◌, ◌≢◌, Bool, true, false, not, ◌||◌, Bool-cases, inl,
  inr, Option, Option-cases, none, some, List, [], ◌∷◌, String, Result, ok, err, arith, ltb,
}
use appx_forge.Base.Int.{ℤ, pos, negsuc}
use appx_forge.Store.{Command, DbErr}
use appx_forge.Store.Call.{Env, World, M, pure, fail, ◌>>=◌, and_then}
use appx_forge.Store.Cost.{Costs, Costs-pure, Costs-fail, Costs-weaken, Costs-attempt, Costs-bind}
use appx_forge.Api.{Handler}
use appx_forge.Api.Checks.{Costs-require}
use appx_forge.Api.Agents.{
  PollContext, PollClock, PollAnswer, wait_seconds, poll_tick, poll_loop, ends_at, tick_at, ticked,
  takes_done, handle_poll_commands,
}

-- A computation that ends otherwise than with its fuel.
record Answers (env : Env) {E A : Type 0} (m : M E (Option A)) : Type 0 where
  by : (w : World) → (m env w).0 ≢ ok none

module _ {env : Env} {E A : Type 0} where
  Answers-some : (a : A) → Answers env (pure {E = E} (some a))
  unfolding pure
  Answers-some a = record { by = λ w h. ground (arith, h) }

  Answers-fail : (e : E) → Answers env (fail {A = Option A} e)
  unfolding fail
  Answers-fail e = record { by = λ w h. ground (arith, h) }

  Answers-bind :
      {B : Type 0} (m : M E B) (f : B → M E (Option A))
      → ((b : B) → Answers env (f b))
      → Answers env (m >>= f)
  unfolding ◌>>=◌
  Answers-bind {B} m f h = record { by = λ w. go (m env w) }
    where
      go : (z : Result E B × World) → (and_then z f env).0 ≢ ok none
      go (ok b, w') = (h b).by w'
      go (err e, w') = λ k. ground (arith, k)

module _ (ctx : PollContext) (show : ℕ → String) (node wait : ℕ) where
  ends_at-le : ends_at ctx show node wait ≤ wait * 1000
  unfolding ends_at
  ends_at-le = elim (Option-cases ctx.left) [
    | inl e ↦ rw e (omega arith)
    | inr (l, e) ↦ rw e (ground arith)
  ]

  -- A tick that the loop takes is in a later period than the last one, and before the deadline.
  pub ticked-period :
      (s : PollClock)
      → (takes_done ctx show node wait s
            || not (ltb (tick_at ctx show node wait s) (ends_at ctx show node wait))
          ≡ false)
      → (s.period < (ticked ctx show node wait s).period)
        × ((ticked ctx show node wait s).period < wait)
  ticked-period s h =
      let at = tick_at ctx show node wait s in
      let late : (s.period + 1) * 1000 ≤ at = ground arith in
      let soon : at < ends_at ctx show node wait = ground (arith, h) in
      (omega (arith, late), omega (arith, soon, ends_at-le))

module _ {env : Env} (ctx : PollContext) (show : ℕ → String) (node wait : ℕ) where
  poll_tick-Costs :
      (ended : Bool) (rest : Handler PollAnswer) (n : ℕ) (r : Result DbErr (List Command))
      → Costs env n rest
      → Costs env n (poll_tick ctx show node wait ended rest r)
  unfolding poll_tick
  poll_tick-Costs ended rest n (ok []) h = h
  poll_tick-Costs ended rest n (ok (c ∷ cs)) h = Costs-weaken (Costs-pure _) (omega arith)
  poll_tick-Costs true rest n (err e) h = Costs-weaken (Costs-pure _) (omega arith)
  poll_tick-Costs false rest n (err e) h = Costs-weaken (Costs-fail _) (omega arith)

  poll_tick-Answers :
      (ended : Bool) (rest : Handler PollAnswer) (r : Result DbErr (List Command))
      → Answers env rest
      → Answers env (poll_tick ctx show node wait ended rest r)
  unfolding poll_tick
  poll_tick-Answers ended rest (ok []) h = h
  poll_tick-Answers ended rest (ok (c ∷ cs)) h = Answers-some _
  poll_tick-Answers true rest (err e) h = Answers-some _
  poll_tick-Answers false rest (err e) h = Answers-fail _

  poll_loop-Costs :
      (n k : ℕ) (s : PollClock)
      → wait ≤ suc (s.period + k)
      → Costs env k (poll_loop ctx show node wait n s)
  unfolding poll_loop
  poll_loop-Costs zero k s le = Costs-weaken (Costs-pure _) (omega arith)
  poll_loop-Costs (suc n) k s le =
      elim (Bool-cases (
        takes_done ctx show node wait s
        || not (ltb (tick_at ctx show node wait s) (ends_at ctx show node wait)))) [
          | inl e ↦ rw e (Costs-weaken (Costs-pure _) (omega arith))
          | inr e ↦
              let (later, before) = ticked-period ctx show node wait s e in
              rw e (
                Costs-weaken
                  (Costs-bind (Costs-attempt _) (λ r. poll_tick-Costs _ _ (k - 1) r (
                    poll_loop-Costs n (k - 1) (ticked ctx show node wait s)
                      (omega (arith, later, before, le)))))
                  (omega (arith, later, before, le)))
        ]

  poll_loop-Answers :
      (n : ℕ) (s : PollClock)
      → wait ≤ s.period + n
      → 1 ≤ n
      → Answers env (poll_loop ctx show node wait n s)
  unfolding poll_loop
  poll_loop-Answers zero s le some_fuel = absurd (omega (arith, some_fuel))
  poll_loop-Answers (suc n) s le some_fuel =
      elim (Bool-cases (
        takes_done ctx show node wait s
        || not (ltb (tick_at ctx show node wait s) (ends_at ctx show node wait)))) [
          | inl e ↦ rw e (Answers-some _)
          | inr e ↦
              let (later, before) = ticked-period ctx show node wait s e in
              rw e (
                Answers-bind _ _ (λ r. poll_tick-Answers _ _ r (
                  poll_loop-Answers n (ticked ctx show node wait s) (omega (arith, later, le))
                    (omega (arith, later, before, le)))))
        ]

-- The parameter is brought into the range.
pub wait_seconds-range : (wait : Option ℤ) → (1 ≤ wait_seconds wait) × (wait_seconds wait ≤ 60)
unfolding wait_seconds
wait_seconds-range none = (omega arith, omega arith)
wait_seconds-range (some (negsuc n)) = (omega arith, omega arith)
wait_seconds-range (some (pos n)) = (ground arith, ground arith)

module _ (env : Env) (ctx : PollContext) (show : ℕ → String) (id : Option ℕ) (wait : Option ℤ) where
  handle-Costs :
      Costs env (0 + (1 + (wait_seconds wait - 1))) (handle_poll_commands ctx show id wait)
  unfolding handle_poll_commands
  handle-Costs = Costs-bind (Costs-require id _) (λ n. Costs-bind (Costs-attempt _) (λ r.
      poll_tick-Costs ctx show n (wait_seconds wait) false _ _ r
        (poll_loop-Costs ctx show n (wait_seconds wait) _ _ _ (omega arith))))

  handle-Answers : Answers env (handle_poll_commands ctx show id wait)
  unfolding handle_poll_commands
  handle-Answers = Answers-bind _ _ (λ n. Answers-bind _ _ (λ r.
      poll_tick-Answers ctx show n (wait_seconds wait) false _ r (
        poll_loop-Answers ctx show n (wait_seconds wait) _ _ (omega arith)
          (wait_seconds-range wait).0)))

  -- However the database answers and whoever else changes it meanwhile, however long the statements
  -- take, whenever the client leaves, and whichever of two ready channels a select takes, a long poll
  -- ends without the end of its fuel, and after at most as many statements as seconds to wait, which
  -- are 60 at most: of the ticks of one second, only those before the deadline lead to a statement.
  pub handle_poll-calls :
      (w : World)
      → ((handle_poll_commands ctx show id wait env w).0 ≢ ok none)
        × ((handle_poll_commands ctx show id wait env w).1.calls ≤ w.calls + wait_seconds wait)
        × (wait_seconds wait ≤ 60)
  handle_poll-calls w =
      let (low, high) = wait_seconds-range wait in
      (handle-Answers.by w, omega (arith, handle-Costs.bound w, low), high)
