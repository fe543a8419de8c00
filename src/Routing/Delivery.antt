-- ===== src/Routing/Delivery.antt =====
-- What the batcher hands to the Flusher comes to the same routes as the notifications one by one.
use appx_forge.Base.{
  ◌<◌, ◌≡◌, refl, sym, subst, ◌∙◌, ap, ap₂, Bool, true, false, Bool-cases, Option, none, some, List,
  [], ◌∷◌, ◌++◌, String, on_option, str_eq, length, arith, if◌then◌else◌, inl, inr, leb,
}
use appx_forge.Base.Dict.{lookup, put, lookup-put}
use appx_forge.Routing.{
  default_max_buf, Route, RouteChange, Batch, Batcher, collect, flush_entries, flush_locked,
  stop_timer_locked, key_of, settle_buffer, enqueue, fire, stop, new_batcher, on_sandbox_running,
  on_sandbox_stopped,
}
use appx_forge.Routing.Requests.{
  Request, running, stopped, timer_fires, stops, serve, serve_all, route_after, routes_after, asked,
  all_asked, closed, all_closed,
}
use appx_forge.Routing.Buffer.{IsFiled, put-IsFiled, route_of, added-collect, removed-collect}

-- The route once the entries are applied too.
abbrev with_pending : String → List (String × RouteChange) → Option Route → Option Route
with_pending app m w = on_option (lookup app m) (λ change. route_of (some change)) w

record IsSound (b : Batcher) : Type 0 where
  filed : IsFiled b.pending
  cap : b.max_buf ≡ default_max_buf
  room : length b.pending < default_max_buf
  drained : b.stopped ≡ true → b.pending ≡ []

-- The outcome of a call: the buffer is sound, and the batches and the buffer come to `target`.
record Delivers (app : String) (w target : Option Route) (c : Bool) (r : List Batch × Batcher)
    : Type 0 where
  sound : IsSound r.1
  status : r.1.stopped ≡ c
  route : with_pending app r.1.pending (routes_after app r.0 w) ≡ target

route_after-collect :
    (app : String) (m : List (String × RouteChange)) (w : Option Route)
    → IsFiled m
    → route_after app (collect m) w ≡ with_pending app m w
route_after-collect app m w h = ground (arith, added-collect app m h, removed-collect app m h)

flush_entries-Delivers :
    (app : String) (w : Option Route) (m : List (String × RouteChange)) (b : Batcher)
    → b.pending ≡ m
    → IsFiled m
    → b.max_buf ≡ default_max_buf
    → Delivers app w (with_pending app m w) b.stopped (flush_entries m b)
unfolding lookup
flush_entries-Delivers app w [] b e h p = record {
  sound = record { filed = rw e tt; cap = p; room = ground (arith, e); drained = λ o. e };
  status = refl;
  route = rw e refl;
}
flush_entries-Delivers app w (entry ∷ rest) b e h p = record {
  sound = record { filed = tt; cap = p; room = omega arith; drained = λ o. refl };
  status = refl;
  route = route_after-collect app (entry ∷ rest) w h;
}

flush-Delivers :
    (app : String) (w : Option Route) (b : Batcher)
    → IsFiled b.pending
    → b.max_buf ≡ default_max_buf
    → Delivers app w (with_pending app b.pending w) b.stopped (flush_locked b)
unfolding flush_locked
flush-Delivers app w b h p = flush_entries-Delivers app w b.pending b refl h p

settle_buffer-Delivers :
    (app : String) (w : Option Route) (b : Batcher)
    → IsFiled b.pending
    → b.max_buf ≡ default_max_buf
    → b.stopped ≡ false
    → Delivers app w (with_pending app b.pending w) b.stopped (settle_buffer b)
unfolding settle_buffer stop_timer_locked
settle_buffer-Delivers app w b h p o = elim (Bool-cases (leb b.max_buf (length b.pending))) [
  | inl e ↦ rw e (flush-Delivers app w (stop_timer_locked b) h p)
  | inr e ↦ rw e (record {
    sound = record { filed = h; cap = p; room = ground arith; drained = λ t. ground (arith, o) };
    status = refl;
    route = refl;
  })
]

retarget :
    {app : String} {w t t' : Option Route} {c c' : Bool} {r : List Batch × Batcher}
    → Delivers app w t c r
    → t ≡ t'
    → c ≡ c'
    → Delivers app w t' c' r
retarget d e f = record { sound = d.sound; status = d.status ∙ f; route = d.route ∙ e }

idle :
    (app : String) (w : Option Route) (b : Batcher)
    → IsSound b
    → Delivers app w (with_pending app b.pending w) b.stopped ([], b)
idle app w b h = record { sound = h; status = refl; route = refl }

with_pending-put :
    (app id : String) (change : RouteChange) (m : List (String × RouteChange)) (w : Option Route)
    → with_pending app (put id change m) w
      ≡ (if str_eq app id then route_of (some change) else with_pending app m w)
with_pending-put app id change m w = ground (arith, lookup-put app id change m)

else_branch : {A : Type 0} (b : Bool) (x y : A) → b ≡ false → (if b then x else y) ≡ y
else_branch b x y h = rw h refl

enqueue-Delivers :
    (app : String) (w : Option Route) (change : RouteChange) (b : Batcher)
    → IsSound b
    → b.stopped ≡ false
    → Delivers app w
        (if str_eq app (key_of change)
          then route_of (some change)
          else with_pending app b.pending w)
        false
        (enqueue change b)
unfolding enqueue
enqueue-Delivers app w change b h o =
    subst (Delivers app w _ false) (sym (else_branch b.stopped _ _ o)) (
      retarget
        (settle_buffer-Delivers app w (record b { pending = put (key_of change) change b.pending })
          (put-IsFiled change b.pending h.filed) h.cap o)
        (with_pending-put app (key_of change) change b.pending w) o)

-- A batcher that was stopped takes no call.
serve_stopped-Delivers :
    (app : String) (w : Option Route) (r : Request) (b : Batcher)
    → IsSound b
    → b.stopped ≡ true
    → Delivers app w
        (asked app b.stopped r (with_pending app b.pending w))
        (closed b.stopped r)
        (serve r b)
unfolding serve on_sandbox_running on_sandbox_stopped enqueue fire stop
serve_stopped-Delivers app w (running a id upstream) b h o =
    elim (Bool-cases (str_eq upstream "")) [
      | inl e ↦ simp (o, e) (retarget (idle app w b h) refl o)
      | inr e ↦ simp (o, e) (retarget (idle app w b h) refl o)
    ]
serve_stopped-Delivers app w (stopped a) b h o = simp o (retarget (idle app w b h) refl o)
serve_stopped-Delivers app w timer_fires b h o = simp o (retarget (idle app w b h) refl o)
serve_stopped-Delivers app w stops b h o = simp o (retarget (idle app w b h) refl o)

serve_open-Delivers :
    (app : String) (w : Option Route) (r : Request) (b : Batcher)
    → IsSound b
    → b.stopped ≡ false
    → Delivers app w
        (asked app b.stopped r (with_pending app b.pending w))
        (closed b.stopped r)
        (serve r b)
unfolding serve on_sandbox_running on_sandbox_stopped fire stop stop_timer_locked
serve_open-Delivers app w (running a id upstream) b h o = elim (Bool-cases (str_eq upstream "")) [
  | inl e ↦ simp (o, e) (retarget (idle app w b h) refl o)
  | inr e ↦ simp (o, e) (enqueue-Delivers app w _ b h o)
]
serve_open-Delivers app w (stopped a) b h o = simp o (enqueue-Delivers app w _ b h o)
serve_open-Delivers app w timer_fires b h o =
    simp o (retarget (flush-Delivers app w b h.filed h.cap) refl o)
serve_open-Delivers app w stops b h o =
    simp o (flush-Delivers app w (record b { timer = false; stopped = true }) h.filed h.cap)

serve-Delivers :
    (app : String) (w : Option Route) (r : Request) (b : Batcher)
    → IsSound b
    → Delivers app w
        (asked app b.stopped r (with_pending app b.pending w))
        (closed b.stopped r)
        (serve r b)
serve-Delivers app w r b h = elim (Bool-cases b.stopped) [
  | inl o ↦ serve_stopped-Delivers app w r b h o
  | inr o ↦ serve_open-Delivers app w r b h o
]

routes_after-append :
    (app : String) (bs cs : List Batch) (w : Option Route)
    → routes_after app (bs ++ cs) w ≡ routes_after app cs (routes_after app bs w)
routes_after-append app [] cs w = refl
routes_after-append app (b ∷ bs) cs w = routes_after-append app bs cs (route_after app b w)

serve_all-Delivers :
    (app : String) (w : Option Route) (rs : List Request) (b : Batcher)
    → IsSound b
    → Delivers app w
        (all_asked app b.stopped rs (with_pending app b.pending w))
        (all_closed b.stopped rs)
        (serve_all rs b)
unfolding serve_all all_closed
serve_all-Delivers app w [] b h = idle app w b h
serve_all-Delivers app w (r ∷ rs) b h =
    let first = serve-Delivers app w r b h in
    let others =
      serve_all-Delivers app (routes_after app (serve r b).0 w) rs (serve r b).1 first.sound in
    record {
      sound = others.sound;
      status = others.status ∙ ap (λ c. all_closed c rs) first.status;
      route =
          ap (with_pending app (serve_all rs (serve r b).1).1.pending)
            (routes_after-append app (serve r b).0 (serve_all rs (serve r b).1).0 w)
          ∙ others.route
          ∙ ap₂ (λ c v. all_asked app c rs v) first.status first.route;
    }

new_batcher-IsSound : IsSound new_batcher
unfolding new_batcher
new_batcher-IsSound = record { filed = tt; cap = refl; room = omega arith; drained = λ o. refl }

all_closed-stops : (c : Bool) (rs : List Request) → all_closed c (rs ++ stops ∷ []) ≡ true
unfolding all_closed
all_closed-stops c [] = refl
all_closed-stops c (r ∷ rs) = all_closed-stops (closed c r) rs

all_asked-stops :
    (app : String) (c : Bool) (rs : List Request) (w : Option Route)
    → all_asked app c (rs ++ stops ∷ []) w ≡ all_asked app c rs w
all_asked-stops app true [] w = refl
all_asked-stops app false [] w = refl
all_asked-stops app c (r ∷ rs) w = all_asked-stops app (closed c r) rs (asked app c r w)

-- However notifications, firings of the timer and stops come in, once the batcher is stopped the
-- batches that it has handed over, applied in that order, give every application the route that the
-- notifications up to the first stop give it one by one: none is lost, and the last one wins.
pub serve_all-Delivery :
    (app : String) (w : Option Route) (rs : List Request)
    → routes_after app (serve_all (rs ++ stops ∷ []) new_batcher).0 w ≡ all_asked app false rs w
unfolding new_batcher lookup
serve_all-Delivery app w rs =
    let d = serve_all-Delivers app w (rs ++ stops ∷ []) new_batcher new_batcher-IsSound in
    let e = d.sound.drained (d.status ∙ all_closed-stops false rs) in
    ap (λ m. with_pending app m (routes_after app (serve_all (rs ++ stops ∷ []) new_batcher).0 w))
      (sym e)
    ∙ d.route
    ∙ all_asked-stops app false rs w

-- The buffer never holds 50 changes after a call.
pub serve_all-room :
    (rs : List Request) → length (serve_all rs new_batcher).1.pending < default_max_buf
serve_all-room rs = (serve_all-Delivers "" none rs new_batcher new_batcher-IsSound).sound.room
