-- ===== src/Watcher/Tests.antt =====
-- A watcher whose first connection breaks after a container has died.
use appx_forge.Base.{ℕ, zero, suc, ◌<◌, ◌≡◌, refl, true, false, Option, none, some, [], ◌∷◌, arith}
use appx_forge.Watcher.{
  ContainerEvent, Stream, WatchOutside, Watching, map_event, watch, watch_loop, process_stream,
  process_events, drain_errors, after_stream, pause_and, double_backoff, new_watching,
}
use appx_forge.Watcher.History.{mapped, received, reconnects, pauses_from, has_errors}
use appx_forge.Watcher.Delivery.{watch-Happened}

abbrev died : ContainerEvent
died = record {
  container_id = "c1";
  container_name = "forge-shop";
  action = "die";
  exit_code = "1";
  time = 5;
}

abbrev stream : ℕ → Option ℕ → Stream
stream zero since = record { events = died ∷ []; errors = "broken" ∷ [] }
stream (suc n) since = record { events = []; errors = [] }

abbrev outside : WatchOutside
outside = record { stream = stream; ended = λ n. false }

first_fails : (j : ℕ) (since : Option ℕ) → j < 1 → has_errors (outside.stream j since).errors ≡ true
first_fails zero since l = refl
first_fails (suc j) since l = absurd (omega arith)

died-mapped :
    map_event died
    ≡ some (record {
      app_name = "shop";
      container_id = "c1";
      event_type = "container_exited";
      exit_code = "1";
      time = 5;
      oom_killed = false;
    })
unfolding map_event
died-mapped = refl

reconnects_once : (watch outside 2).1.connections ≡ none ∷ some 5 ∷ []
unfolding watch new_watching watch_loop process_stream process_events map_event drain_errors
    after_stream pause_and double_backoff
reconnects_once = refl

watch-Happened_example :
    (s : Watching) × (watch outside 2 ≡ (true, s))
    × (s.sent ≡ mapped (received outside.stream (suc 1) 0 none))
    × (s.connections ≡ reconnects outside.stream (suc 1) 0 none)
    × (s.pauses ≡ pauses_from 1 0)
watch-Happened_example =
    watch-Happened outside (λ n. refl) 1 2 (omega arith) first_fails (λ since. refl)
