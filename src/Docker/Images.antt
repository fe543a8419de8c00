-- ===== src/Docker/Images.antt =====
-- agent/internal/docker/images.go: the pull of an image with its repetitions, over PullImage of
-- client.go. What the registry answers and when the context ends are an oracle, by the attempt; the
-- time is the nanosecond.
use Prim.Native.Nat.{◌^◌}
use mathlib.Core.List.{append-nil, append_assoc}
use appx_forge.Base.{
  ℕ, zero, suc, ◌+◌, ◌<◌, ◌≤◌, ◌≡◌, refl, sym, ap, ap₂, ◌∙◌, Bool, true, false, Option, none, some,
  List, [], ◌∷◌, ◌++◌, String, Result, ltb, if◌then◌else◌, arith, on_option, on_result,
}
use appx_forge.Base.Int.{ℤ, pos, scale64}

-- An answer is an error, or a body that may fail to be read to its end.
pub record Registry : Type 0 where
  pub image_pull : ℕ → Result String (Option String)
  pub ended_before : ℕ → Bool
  pub ended_in_pause : ℕ → Bool

pub data PullFault : Type 0 where
  pull_refused read_response : String → PullFault

pub data PullErr : Type 0 where
  context_ended : PullErr
  failed_after : (attempts : ℕ) (last : Option PullFault) → PullErr

pub record ImagePuller : Type 0 where
  pub base_backoff : ℤ
  pub max_retries : ℕ

abbrev pub new_image_puller : ImagePuller
new_image_puller = record { base_backoff = pos 1000000000; max_retries = 3 }

-- How often the registry was asked, and the pauses.
pub record Pulling : Type 0 where
  pub requests : ℕ
  pub pauses : List ℤ

-- None for a pull that is complete.
unfoldable pub pull_image : Result String (Option String) → Option PullFault
pull_image answer =
    on_result answer (λ body. on_option body (λ e. some (read_response e)) none)
      (λ e. some (pull_refused e))

module _ (out : Registry) (p : ImagePuller) where
  -- A shift by 64 and more leaves 0, as the product does at 2^64.
  unfoldable pub pull_pause : ℕ → ℤ
  pull_pause attempt = scale64 (2 ^ attempt) p.base_backoff

  unfoldable pub pull_loop : ℕ → ℕ → Option PullFault → Pulling → Option PullErr × Pulling
  pull_loop zero attempt last s = (some (failed_after (p.max_retries + 1) last), s)
  pull_loop (suc left) attempt last s =
      let asked = record s { requests = s.requests + 1 } in
      let failed = pull_image (out.image_pull attempt) in
      let paused = record asked { pauses = s.pauses ++ pull_pause attempt ∷ [] } in
      let after_pause = pull_loop left (suc attempt) failed paused in
      let at_once = pull_loop left (suc attempt) failed asked in
      if out.ended_before attempt
      then (some context_ended, s)
      else on_option failed
          (λ e.
            if ltb attempt p.max_retries
            then if out.ended_in_pause attempt then (some context_ended, paused) else after_pause
            else at_once)
          (none, asked)

  unfoldable pub pull_once : Option PullErr × Pulling
  pull_once = pull_loop (suc p.max_retries) 0 none (record { requests = 0; pauses = [] })

  -- The pauses after the attempts from `attempt` on, `n` of them.
  unfoldable pub pull_pauses : ℕ → ℕ → List ℤ
  pull_pauses zero attempt = []
  pull_pauses (suc n) attempt = pull_pause attempt ∷ pull_pauses n (suc attempt)

  loop-done :
      (left attempt : ℕ) (last : Option PullFault) (s : Pulling)
      → out.ended_before attempt ≡ false
      → pull_image (out.image_pull attempt) ≡ none
      → pull_loop (suc left) attempt last s ≡ (none, record s { requests = s.requests + 1 })
  unfolding pull_loop
  loop-done left attempt last s lives done = rw (lives, done) refl

  loop-again :
      (left attempt : ℕ) (last : Option PullFault) (s : Pulling) (fault : PullFault)
      → out.ended_before attempt ≡ false
      → out.ended_in_pause attempt ≡ false
      → attempt < p.max_retries
      → pull_image (out.image_pull attempt) ≡ some fault
      → pull_loop (suc left) attempt last s
        ≡ pull_loop left
            (suc attempt)
            (some fault)
            (record { requests = s.requests + 1; pauses = s.pauses ++ pull_pause attempt ∷ [] })
  unfolding pull_loop
  loop-again left attempt last s fault lives waits lt failed =
      let early : ltb attempt p.max_retries ≡ true = ground arith in
      rw (lives, failed, early, waits) refl

  loop-last :
      (attempt : ℕ) (last : Option PullFault) (s : Pulling) (fault : PullFault)
      → out.ended_before attempt ≡ false
      → attempt ≡ p.max_retries
      → pull_image (out.image_pull attempt) ≡ some fault
      → pull_loop 1 attempt last s ≡ (
        some (failed_after (p.max_retries + 1) (some fault)),
        record s { requests = s.requests + 1 },
      )
  unfolding pull_loop
  loop-last attempt last s fault lives end failed =
      let late : ltb attempt p.max_retries ≡ false = ground arith in rw (lives, failed, late) refl

  counted :
      {o : Option PullErr} {n n' : ℕ} {ps ps' : List ℤ}
      → n ≡ n'
      → ps ≡ ps'
      → ◌≡◌ {A = Option PullErr × Pulling}
          (o, record { requests = n; pauses = ps })
          (o, record { requests = n'; pauses = ps' })
  counted {o} h h' = ap₂ (λ n ps. (o, record { requests = n; pauses = ps })) h h'

  -- The loop in a context that does not end, where the attempts before `m` fail and `m` is complete.
  loop-pulled :
      (k n attempt m : ℕ) (last : Option PullFault) (s : Pulling)
      → ((j : ℕ) → out.ended_before j ≡ false)
      → ((j : ℕ) → out.ended_in_pause j ≡ false)
      → attempt + n ≡ suc p.max_retries
      → k < n
      → m ≡ attempt + k
      → ((j : ℕ) → j < m → (e : PullFault) × (pull_image (out.image_pull j) ≡ some e))
      → pull_image (out.image_pull m) ≡ none
      → pull_loop n attempt last s ≡ (
        none,
        record { requests = s.requests + suc k; pauses = s.pauses ++ pull_pauses k attempt },
      )
  unfolding pull_pauses
  loop-pulled k zero attempt m last s lives waits e lt at fails done = absurd (omega (arith, lt))
  loop-pulled zero (suc n) attempt m last s lives waits e lt at fails done =
      loop-done n attempt last s (lives attempt)
        (ap (λ i. pull_image (out.image_pull i)) (omega arith) ∙ done)
      ∙ counted refl (sym (append-nil s.pauses))
  loop-pulled (suc k) (suc n) attempt m last s lives waits e lt at fails done =
      let (fault, failed) = fails attempt (omega arith) in
      let pauses = s.pauses ++ pull_pause attempt ∷ [] in
      loop-again n attempt last s fault (lives attempt) (waits attempt) (omega arith) failed
      ∙ loop-pulled k n (suc attempt) m (some fault)
          (record { requests = s.requests + 1; pauses = pauses }) lives waits (omega arith)
          (omega arith) (omega arith) fails done
      ∙ counted (omega arith) (append_assoc s.pauses (pull_pause attempt ∷ []) _)

  -- The error of the attempt after which no other follows.
  abbrev last_error : PullErr
  last_error = failed_after (p.max_retries + 1) (pull_image (out.image_pull p.max_retries))

  loop-failed :
      (n attempt : ℕ) (last : Option PullFault) (s : Pulling)
      → ((j : ℕ) → out.ended_before j ≡ false)
      → ((j : ℕ) → out.ended_in_pause j ≡ false)
      → attempt + n ≡ p.max_retries
      → ((j : ℕ) → (e : PullFault) × (pull_image (out.image_pull j) ≡ some e))
      → pull_loop (suc n) attempt last s ≡ (
        some last_error,
        record { requests = s.requests + suc n; pauses = s.pauses ++ pull_pauses n attempt },
      )
  unfolding pull_pauses
  loop-failed zero attempt last s lives waits e fails =
      let (fault, failed) = fails attempt in
      loop-last attempt last s fault (lives attempt) (omega arith) failed
      ∙ ap
          (λ f. (some (failed_after (p.max_retries + 1) f), record s { requests = s.requests + 1 }))
          (sym failed ∙ ap (λ i. pull_image (out.image_pull i)) (omega arith))
      ∙ counted refl (sym (append-nil s.pauses))
  loop-failed (suc n) attempt last s lives waits e fails =
      let (fault, failed) = fails attempt in
      let pauses = s.pauses ++ pull_pause attempt ∷ [] in
      loop-again (suc n) attempt last s fault (lives attempt) (waits attempt) (omega arith) failed
      ∙ loop-failed n (suc attempt) (some fault)
          (record { requests = s.requests + 1; pauses = pauses }) lives waits (omega arith) fails
      ∙ counted (omega arith) (append_assoc s.pauses (pull_pause attempt ∷ []) _)

  -- If the context does not end, the pulls before the one numbered k, of max_retries at most, fail,
  -- and that one is complete, then PullOnce returns without an error; it has asked k + 1 times, and
  -- has paused after each failure for base_backoff times the power of 2 of its number.
  pub pull_once-Complete :
      (k : ℕ)
      → ((j : ℕ) → out.ended_before j ≡ false)
      → ((j : ℕ) → out.ended_in_pause j ≡ false)
      → k ≤ p.max_retries
      → ((j : ℕ) → j < k → (e : PullFault) × (pull_image (out.image_pull j) ≡ some e))
      → pull_image (out.image_pull k) ≡ none
      → pull_once ≡ (none, record { requests = suc k; pauses = pull_pauses k 0 })
  unfolding pull_once
  pull_once-Complete k lives waits le fails done =
      loop-pulled k (suc p.max_retries) 0 k none (record { requests = 0; pauses = [] }) lives waits
        (omega arith) (omega arith) (omega arith) fails done
      ∙ counted (omega arith) refl

  -- If the context does not end and every pull fails, then PullOnce returns the error of the last
  -- one after max_retries + 1 requests, and has not paused after the last.
  pub pull_once-Failed :
      ((j : ℕ) → out.ended_before j ≡ false)
      → ((j : ℕ) → out.ended_in_pause j ≡ false)
      → ((j : ℕ) → (e : PullFault) × (pull_image (out.image_pull j) ≡ some e))
      → pull_once ≡ (
        some last_error,
        record { requests = suc p.max_retries; pauses = pull_pauses p.max_retries 0 },
      )
  unfolding pull_once
  pull_once-Failed lives waits fails =
      loop-failed p.max_retries 0 none (record { requests = 0; pauses = [] }) lives waits
        (omega arith) fails
      ∙ counted (omega arith) refl
