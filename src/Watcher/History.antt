-- ===== src/Watcher/History.antt =====
-- What a run of the watcher has done, and what a reader of the source expects of it.
use native.Mathlib.Nat.{pow-suc}
use appx_forge.Base.{
  ℕ, zero, suc, ◌*◌, ◌^◌, ◌≡◌, refl, sym, ap, ◌∙◌, Bool, true, false, Option-cases, inl, inr,
  Option, some, List, [], ◌∷◌, ◌++◌, String, ltb, arith, on_option, if◌then◌else◌,
}
use mathlib.Core.List.{append_assoc, append-nil}
use appx_forge.Watcher.{
  ContainerEvent, SandboxEvent, map_event, Stream, WatchOutside, Watching, double_backoff,
}

-- What is to be sent of a list of Docker's events.
unfoldable pub mapped : List ContainerEvent → List SandboxEvent
mapped [] = []
mapped (ev ∷ evs) = on_option (map_event ev) (λ e. e ∷ mapped evs) (mapped evs)

-- The time of the last event that is sent, or the former one.
unfoldable pub last_time : Option ℕ → List ContainerEvent → Option ℕ
last_time since [] = since
last_time since (ev ∷ evs) =
    on_option (map_event ev) (λ e. last_time (some ev.time) evs) (last_time since evs)

module _ (stream : ℕ → Option ℕ → Stream) where
  -- The times from which `k` connections are made, of which the n-th is the first.
  unfoldable pub reconnects : ℕ → ℕ → Option ℕ → List (Option ℕ)
  reconnects zero n since = []
  reconnects (suc k) n since =
      since ∷ reconnects k (suc n) (last_time since (stream n since).events)

  -- The time after them.
  unfoldable pub final_time : ℕ → ℕ → Option ℕ → Option ℕ
  final_time zero n since = since
  final_time (suc k) n since = final_time k (suc n) (last_time since (stream n since).events)

  -- All that these connections give.
  unfoldable pub received : ℕ → ℕ → Option ℕ → List ContainerEvent
  received zero n since = []
  received (suc k) n since =
      (stream n since).events ++ received k (suc n) (last_time since (stream n since).events)

pub mapped-append : (xs ys : List ContainerEvent) → mapped (xs ++ ys) ≡ mapped xs ++ mapped ys
unfolding mapped
mapped-append [] ys = refl
mapped-append (ev ∷ evs) ys = elim (Option-cases (map_event ev)) [
  | inl skipped ↦ rw skipped (mapped-append evs ys)
  | inr (e, kept) ↦ rw kept (ap (λ l. e ∷ l) (mapped-append evs ys))
]

-- The i-th pause.
unfoldable pub pause_at : ℕ → ℕ
pause_at i = if ltb 30 (2 ^ i) then 30 else 2 ^ i

unfoldable pub pauses_from : ℕ → ℕ → List ℕ
pauses_from zero i = []
pauses_from (suc k) i = pause_at i ∷ pauses_from k (suc i)

-- What has happened between two states, but for the looks.
pub record Happened (s s' : Watching) (since : Option ℕ) (connections : List (Option ℕ))
    (sent : List SandboxEvent) (pauses : List ℕ) : Type 0 where
  pub at : s'.last_event_time ≡ since
  pub connected : s'.connections ≡ s.connections ++ connections
  pub delivered : s'.sent ≡ s.sent ++ sent
  pub paused : s'.pauses ≡ s.pauses ++ pauses

pub double-pause_at :
    (out : WatchOutside) (i : ℕ) → double_backoff out (pause_at i) ≡ pause_at (suc i)
unfolding double_backoff pause_at
double-pause_at out i = rw (pow-suc 2 i) (capped (2 ^ i))
  where
    capped :
        (n : ℕ)
        → (if ltb 30 ((if ltb 30 n then 30 else n) * 2)
            then 30
            else (if ltb 30 n then 30 else n) * 2)
          ≡ (if ltb 30 (n * 2) then 30 else n * 2)
    capped n = ground arith

abbrev pub has_errors : List String → Bool
has_errors [] = false
has_errors (e ∷ es) = true

module _ (s : Watching) where
  pub Happened-none : Happened s s s.last_event_time [] [] []
  Happened-none = record {
    at = refl;
    connected = sym (append-nil s.connections);
    delivered = sym (append-nil s.sent);
    paused = sym (append-nil s.pauses);
  }

  pub Happened-chain :
      {t u : Watching} {since since' : Option ℕ} {c c' : List (Option ℕ)} {e e' : List SandboxEvent}
      {p p' : List ℕ}
      → Happened s t since c e p
      → Happened t u since' c' e' p'
      → Happened s u since' (c ++ c') (e ++ e') (p ++ p')
  Happened-chain {c'} {e'} {p'} h k = record {
    at = k.at;
    connected = k.connected ∙ ap (λ l. l ++ c') h.connected ∙ append_assoc s.connections _ c';
    delivered = k.delivered ∙ ap (λ l. l ++ e') h.delivered ∙ append_assoc s.sent _ e';
    paused = k.paused ∙ ap (λ l. l ++ p') h.paused ∙ append_assoc s.pauses _ p';
  }
