-- ===== src/ControlClient/Registering.antt =====
-- How often a registration asks, and how long its pauses are.
use appx_forge.Base.{
  ℕ, zero, suc, ◌+◌, ◌≤◌, Bool-cases, Option-cases, inl, inr, Option, [], ◌∷◌, ◌++◌, String, Result,
  leb, ◌==◌, length, length-append, All, All-append, arith, ◌||◌,
}
use appx_forge.ControlClient.{
  Client, ClientOutside, ClientErr, unanswered, refused, Reply, no_reply, replied, Endpoint,
  registration, send, take_registration, next_backoff, retry, after_reply, register_loop, register,
}

-- At most `n` requests more, and every pause at most 8 seconds long.
pub record IsWithin (n : ℕ) (before after : Client) : Type 0 where
  pub requests : length after.requests ≤ length before.requests + n
  pub pauses : All (λ p. p ≤ 8) before.pauses → All (λ p. p ≤ 8) after.pauses

pub none_more : (n : ℕ) (c : Client) → IsWithin n c c
none_more n c = record { requests = omega arith; pauses = λ h. h }

pub chain : (m n : ℕ) (a b c : Client) → IsWithin m a b → IsWithin n b c → IsWithin (m + n) a c
chain m n a b c p q = record {
  requests = omega (arith, p.requests, q.requests);
  pauses = λ h. q.pauses (p.pauses h);
}

module _ (out : ClientOutside) where
  pub send-IsWithin : (e : Endpoint) (n b : String) (c : Client) → IsWithin 1 c (send out e n b c).1
  unfolding send
  send-IsWithin e n b c = record {
    requests =
        omega
          (arith, length-append c.requests (record { endpoint = e; node = n; bearer = b } ∷ []));
    pauses = λ h. h;
  }

  take-IsWithin :
      (status : ℕ) (body : Option (String × String)) (c : Client)
      → IsWithin 0 c (take_registration out status body c).1
  unfolding take_registration
  take-IsWithin status body c = elim (Bool-cases (status == 201 || status == 200)) [
    | inr e ↦ rw e (none_more 0 c)
    | inl e ↦ rw e (elim (Option-cases body) [
      | inl h ↦ rw h (none_more 0 c)
      | inr (a, h) ↦ rw h (record { requests = omega arith; pauses = λ k. k })
    ])
  ]

  retry-IsWithin :
      (left backoff : ℕ) (e : ClientErr) (rest : Client → Result ClientErr (Unit {0}) × Client)
      (c : Client)
      → backoff ≤ 8
      → ((d : Client) → IsWithin left d (rest d).1)
      → IsWithin left c (retry out left backoff e rest c).1
  unfolding retry
  retry-IsWithin zero backoff e rest c le h = none_more 0 c
  retry-IsWithin (suc left) backoff e rest c le h = elim (Bool-cases (out.ends (length c.pauses))) [
    | inl s ↦
        rw s (record { requests = omega arith; pauses = λ k. All-append _ c.pauses _ k (le, tt) })
    | inr s ↦ rw s (
        let rested : Client = record c { pauses = c.pauses ++ backoff ∷ [] } in
        let more = h rested in
        record {
          requests = more.requests;
          pauses = λ k. more.pauses (All-append _ c.pauses _ k (le, tt));
        })
  ]

  after-IsWithin :
      (left backoff : ℕ) (rest : Client → Result ClientErr (Unit {0}) × Client) (z : Reply × Client)
      → backoff ≤ 8
      → ((d : Client) → IsWithin left d (rest d).1)
      → IsWithin left z.1 (after_reply out left backoff rest z).1
  unfolding after_reply
  after-IsWithin left backoff rest (no_reply, c) le h =
      retry-IsWithin left backoff unanswered _ c le h
  after-IsWithin left backoff rest (replied status body, c) le h =
      elim (Bool-cases (leb 500 status)) [
        | inl e ↦ rw e (retry-IsWithin left backoff (refused status) _ c le h)
        | inr e ↦ rw e (weaken (take-IsWithin status body c))
      ]
    where
      weaken : {d : Client} → IsWithin 0 c d → IsWithin left c d
      weaken k = record { requests = omega (arith, k.requests); pauses = k.pauses }

  next_backoff-le : (backoff : ℕ) → next_backoff out backoff ≤ 8
  unfolding next_backoff
  next_backoff-le backoff = ground arith

  loop-IsWithin :
      (left backoff : ℕ) (c : Client)
      → backoff ≤ 8
      → IsWithin left c (register_loop out left backoff c).1
  unfolding register_loop
  loop-IsWithin zero backoff c le = none_more 0 c
  loop-IsWithin (suc left) backoff c le =
      let z : Reply × Client = send out registration "" "" c in
      add_one (
        chain 1 left c z.1 _ (send-IsWithin registration "" "" c) (
          after-IsWithin left backoff (register_loop out left (next_backoff out backoff)) z le
            (λ d. loop-IsWithin left (next_backoff out backoff) d (next_backoff-le backoff))))
    where
      add_one : {d : Client} → IsWithin (1 + left) c d → IsWithin (suc left) c d
      add_one h = record { requests = omega (arith, h.requests); pauses = h.pauses }

  pub register-IsWithin : (c : Client) → IsWithin 5 c (register out c).1
  unfolding register
  register-IsWithin c = loop-IsWithin 5 1 c (omega arith)
