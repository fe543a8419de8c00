-- ===== src/Watcher/Delivery.antt =====
-- A watcher whose context does not end: what it sends, from when on it reconnects, how long it pauses.
use appx_forge.Base.{
  ℕ, zero, suc, ◌+◌, ◌<◌, ◌≡◌, refl, sym, ap, ap₂, ◌∙◌, true, false, Option-cases, inl, inr, Option,
  none, some, List, [], ◌∷◌, ◌++◌, String, length, arith, length-append,
}
use mathlib.Core.List.{append-nil}
use appx_forge.Watcher.{
  ContainerEvent, SandboxEvent, map_event, Stream, WatchOutside, Watching, new_watching, looked,
  emit, process_events, drain_errors, process_stream, pause_and, after_stream, watch_loop, watch,
}
use appx_forge.Watcher.History.{
  mapped, last_time, reconnects, final_time, received, mapped-append, pause_at, pauses_from,
  Happened, double-pause_at, has_errors, Happened-none, Happened-chain,
}

count_one :
    (l : List (Option ℕ)) (x : Option ℕ) (m : List (Option ℕ)) {n : ℕ}
    → length l ≡ n
    → m ≡ l ++ x ∷ []
    → length m ≡ suc n
count_one l x m h e = ap length e ∙ omega (arith, length-append l (x ∷ []), h)

shift : (n j : ℕ) → suc n + j ≡ n + suc j
shift n j = omega arith

zero_add : (j : ℕ) → 0 + j ≡ j
zero_add j = omega arith

module _ (out : WatchOutside) (endless : (n : ℕ) → out.ended n ≡ false) where
  -- An event that is sent.
  emitted : (e : SandboxEvent) (time : ℕ) (s : Watching) → Watching
  emitted e time s = emit e (looked (record (looked s) { last_event_time = some time }))

  emitted-Happened :
      (e : SandboxEvent) (time : ℕ) (s : Watching)
      → Happened s (emitted e time s) (some time) [] (e ∷ []) []
  unfolding emitted
  emitted-Happened e time s = record {
    at = refl;
    connected = sym (append-nil s.connections);
    delivered = refl;
    paused = sym (append-nil s.pauses);
  }

  looked-Happened : (s : Watching) → Happened s (looked s) s.last_event_time [] [] []
  looked-Happened s = record {
    at = refl;
    connected = sym (append-nil s.connections);
    delivered = sym (append-nil s.sent);
    paused = sym (append-nil s.pauses);
  }

  events-Happened :
      (evs : List ContainerEvent) (s : Watching)
      → (s' : Watching) × (process_events out evs s ≡ (true, s'))
        × Happened s s' (last_time s.last_event_time evs) [] (mapped evs) []
  unfolding process_events mapped last_time emitted
  events-Happened [] s = (s, refl, Happened-none s)
  events-Happened (ev ∷ evs) s = elim (Option-cases (map_event ev)) [
    | inl skipped ↦
        let (s', run, h) = events-Happened evs (looked s) in
        rw (endless s.looks, skipped) (s', run, Happened-chain s (looked-Happened s) h)
    | inr (e, kept) ↦
        let (s', run, h) = events-Happened evs (emitted e ev.time s) in
        rw (endless s.looks, kept, endless (suc s.looks))
          (s', run, Happened-chain s (emitted-Happened e ev.time s) h)
  ]

  failed-Happened :
      (es : List String) (s : Watching)
      → (s' : Watching) × (drain_errors out true es s ≡ (true, s'))
        × Happened s s' s.last_event_time [] [] []
  unfolding drain_errors
  failed-Happened [] s = (s, refl, Happened-none s)
  failed-Happened (e ∷ es) s =
      let (s', run, h) = failed-Happened es (looked s) in
      rw (endless s.looks) (s', run, Happened-chain s (looked-Happened s) h)

  -- Whether a connection ended with an error.
  errors-Happened :
      (es : List String) (s : Watching)
      → (s' : Watching) × (drain_errors out false es s ≡ (has_errors es, s'))
        × Happened s s' s.last_event_time [] [] []
  unfolding drain_errors
  errors-Happened [] s = (s, refl, Happened-none s)
  errors-Happened (e ∷ es) s =
      let (s', run, h) = failed-Happened es (looked s) in
      rw (endless s.looks) (s', run, Happened-chain s (looked-Happened s) h)

  stream-Happened :
      (stream : Stream) (s : Watching)
      → (s' : Watching) × (process_stream out stream s ≡ (has_errors stream.errors, s'))
        × Happened s s'
            (last_time s.last_event_time stream.events)
            []
            (mapped stream.events ++ [])
            []
  unfolding process_stream
  stream-Happened stream s =
      let (t, events_run, h) = events-Happened stream.events s in
      let (s', errors_run, k) = errors-Happened stream.errors t in
      (
        s',
        rw events_run errors_run,
        record {
          at = k.at ∙ h.at;
          connected = (Happened-chain s h k).connected;
          delivered = (Happened-chain s h k).delivered;
          paused = (Happened-chain s h k).paused;
        },
      )

  connected_now : Watching → Watching
  connected_now s = record (looked s) { connections = s.connections ++ s.last_event_time ∷ [] }

  -- The connection of a round, up to the look at the context that follows it.
  round-Happened :
      (n : ℕ) (since : Option ℕ) (s : Watching)
      → length s.connections ≡ n
      → s.last_event_time ≡ since
      → (s' : Watching) × (process_stream out
            (out.stream (length s.connections) s.last_event_time)
            (connected_now s)
          ≡ (has_errors (out.stream n since).errors, s'))
        × Happened s
            (looked s')
            (last_time since (out.stream n since).events)
            (since ∷ [])
            (mapped (out.stream n since).events)
            []
  unfolding connected_now
  round-Happened n since s hn hs =
      let (s', run, h) = stream-Happened (out.stream n since) (connected_now s) in
      (
        s',
        ap₂ (λ (m : ℕ) t. process_stream out (out.stream m t) (connected_now s)) hn hs ∙ run,
        record {
          at = h.at ∙ ap (λ t. last_time t (out.stream n since).events) hs;
          connected = h.connected ∙ append-nil _ ∙ ap (λ t. s.connections ++ t ∷ []) hs;
          delivered = h.delivered ∙ ap (λ l. s.sent ++ l) (append-nil _);
          paused = h.paused;
        },
      )

  paused_for : ℕ → Watching → Watching
  paused_for backoff s = looked (record s { pauses = s.pauses ++ backoff ∷ [] })

  pause-Happened :
      (backoff : ℕ) (s : Watching)
      → Happened s (paused_for backoff s) s.last_event_time [] [] (backoff ∷ [])
  unfolding paused_for
  pause-Happened backoff s = record {
    at = refl;
    connected = sym (append-nil s.connections);
    delivered = sym (append-nil s.sent);
    paused = refl;
  }

  -- From the n-th connection on, at the i-th pause: `k` connections fail, and the next does not.
  loop-Happened :
      (k fuel i n : ℕ) (since : Option ℕ) (s : Watching)
      → length s.connections ≡ n
      → s.last_event_time ≡ since
      → k < fuel
      → ((j : ℕ) (t : Option ℕ) → j < k → has_errors (out.stream (n + j) t).errors ≡ true)
      → ((t : Option ℕ) → has_errors (out.stream (n + k) t).errors ≡ false)
      → (s' : Watching) × (watch_loop out fuel (pause_at i) s ≡ (true, s'))
        × Happened s s'
            (final_time out.stream (suc k) n since)
            (reconnects out.stream (suc k) n since)
            (mapped (received out.stream (suc k) n since))
            (pauses_from k i)
  unfolding watch_loop after_stream pause_and reconnects received pauses_from final_time
      connected_now paused_for
  loop-Happened k zero i n since s hn hs lt fails clean = absurd (omega arith)
  loop-Happened zero (suc fuel) i n since s hn hs lt fails clean =
      let (s', run, h) = round-Happened n since s hn hs in
      (
        looked s',
        rw (endless s.looks, run, clean_here, endless s'.looks) refl,
        record {
          at = h.at;
          connected = h.connected;
          delivered = h.delivered ∙ ap (λ l. s.sent ++ mapped l) (sym (append-nil _));
          paused = h.paused;
        },
      )
    where
      clean_here : has_errors (out.stream n since).errors ≡ false
      clean_here =
          ap (λ (m : ℕ). has_errors (out.stream m since).errors) (omega arith) ∙ clean since
  loop-Happened (suc k) (suc fuel) i n since s hn hs lt fails clean =
      let (s', run, h) = round-Happened n since s hn hs in
      let t : Watching = paused_for (pause_at i) (looked s') in
      let later = last_time since (out.stream n since).events in
      let rested = Happened-chain s h (pause-Happened (pause_at i) (looked s')) in
      let (u, more, rest) =
        loop-Happened k fuel (suc i) (suc n) later t
          (count_one s.connections since t.connections hn rested.connected) h.at (omega arith)
          (λ j x l.
            ap (λ (m : ℕ). has_errors (out.stream m x).errors) (shift n j)
            ∙ fails (suc j) x (omega arith))
          (λ x. ap (λ (m : ℕ). has_errors (out.stream m x).errors) (shift n k) ∙ clean x) in
      let all = Happened-chain s rested rest in
      (
        u,
        rw
            (
              endless s.looks,
              run,
              fail_here,
              endless s'.looks,
              endless (suc s'.looks),
              double-pause_at out i,
            )
            more,
        record {
          at = all.at;
          connected = all.connected;
          delivered =
              all.delivered
              ∙ ap (λ l. s.sent ++ l)
                  (ap (λ l. l ++ mapped (received out.stream (suc k) (suc n) later)) (append-nil _)
                    ∙ sym (
                        mapped-append (out.stream n since).events
                          (received out.stream (suc k) (suc n) later)));
          paused = all.paused;
        },
      )
    where
      fail_here : has_errors (out.stream n since).errors ≡ true
      fail_here =
          ap (λ (m : ℕ). has_errors (out.stream m since).errors) (omega arith)
          ∙ fails zero since (omega arith)

  -- If the context does not end, there is fuel for more than k connections, and the first `k`
  -- connections to Docker end with an error and the next one does not, whatever times they are made from, then the watcher returns after these k + 1
  -- connections; it has sent exactly the events of sandboxes among all that it received, in order;
  -- it has connected each time from the time of the last event that it had sent; and the pauses were
  -- 1, 2, 4, 8, 16 and from then on 30 seconds, however many events came between two errors.
  pub watch-Happened :
      (k fuel : ℕ)
      → k < fuel
      → ((j : ℕ) (since : Option ℕ) → j < k → has_errors (out.stream j since).errors ≡ true)
      → ((since : Option ℕ) → has_errors (out.stream k since).errors ≡ false)
      → (s : Watching) × (watch out fuel ≡ (true, s))
        × (s.sent ≡ mapped (received out.stream (suc k) 0 none))
        × (s.connections ≡ reconnects out.stream (suc k) 0 none)
        × (s.pauses ≡ pauses_from k 0)
  unfolding watch new_watching watch_loop pause_at
  watch-Happened k fuel lt fails clean =
      let (s, run, h) =
        loop-Happened k fuel 0 0 none new_watching refl refl lt
          (λ j t l. ap (λ (m : ℕ). has_errors (out.stream m t).errors) (zero_add j) ∙ fails j t l)
          (λ t. ap (λ (m : ℕ). has_errors (out.stream m t).errors) (zero_add k) ∙ clean t) in
      (s, run, h.delivered, h.connected, h.paused)
