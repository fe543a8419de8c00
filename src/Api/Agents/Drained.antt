-- ===== src/Api/Agents/Drained.antt =====
-- What it means that polls part a queue in what they hand out and what they leave.
use mathlib.Core.List.{
  Mem, Perm, map-append, not-mem-nil, mem-append, mem-append_right, append_assoc,
}
use mathlib.Core.List.Perm
use mathlib.Core.Logic.Or
use native.Mathlib.Bridge.{le_prop}
use appx_forge.Base.{
  ℕ, suc, ◌+◌, ◌-◌, ◌≤◌, ◌≡◌, refl, sym, ap, subst, ◌∙◌, List, [], ◌∷◌, ◌++◌, String, arith, map,
  length, length-append,
}
use appx_forge.Base.Selection.{length-Perm}
use appx_forge.Store.{Command}
use appx_forge.Store.Commands.{dispatched}
use appx_forge.Store.Polling.{waiting}
use appx_forge.Store.Call.{World}
use appx_forge.Api.Agents.{CommandResponse, map_commands, command_response}

-- What waits for a node.
abbrev pub queue : ℕ → World → List Command
queue node w = waiting node w.db.commands

-- From `w` to `w'` the commands `out` were handed out, `n` of those that waited or all of them.
pub record IsDrained (show : ℕ → String) (node n : ℕ) (w w' : World) (out : List CommandResponse)
    : Type 0 where
  pub given : List Command
  pub left : List Command
  -- every command that waited is in one of the two, once
  pub parted : Perm (given ++ left) (queue node w)
  pub handed : Perm out (map_commands show (map (dispatched w.db.now) given))
  pub still_waiting : Perm (queue node w') left
  pub size : length left ≡ length (queue node w) - n
  pub oldest :
      (a : Command) → Mem a given → (b : Command) → Mem b left → a.created_at ≤ b.created_at

pub no_length : {A : Type 0} (l : List A) → length l ≡ 0 → l ≡ []
no_length [] h = refl
no_length (x ∷ l) h = absurd (omega (arith, h))

pub length-map : {A B : Type 0} (f : A → B) (l : List A) → length (map f l) ≡ length l
length-map f [] = refl
length-map f (x ∷ l) = ap suc (length-map f l)

-- The answer is as long as what was given, and the rest is what waits.
pub drained-length :
    {show : ℕ → String} {node n : ℕ} {w w' : World} {out : List CommandResponse}
    → IsDrained show node n w w' out
    → length out + (length (queue node w) - n) ≡ length (queue node w)
unfolding map_commands
drained-length {show} {w = w} h = omega (
  arith,
  h.size,
  length-Perm h.handed,
  length-map (command_response show) (map (dispatched w.db.now) h.given),
  length-map (dispatched w.db.now) h.given,
  length-append h.given h.left,
  length-Perm h.parted,
)

-- With nothing waiting, nothing is handed out.
pub none-IsDrained :
    {show : ℕ → String} {node n : ℕ} {w w' : World}
    → queue node w ≡ []
    → queue node w' ≡ []
    → IsDrained show node n w w' []
unfolding map_commands
none-IsDrained e e' = record {
  given = [];
  left = [];
  parted = rw e Perm.rfl;
  handed = Perm.rfl;
  still_waiting = rw e' Perm.rfl;
  size = rw e (omega arith);
  oldest = λ a m. absurd (not-mem-nil m);
}

-- One after the other: what the second gives is no older than what the first gave.
pub IsDrained-append :
    {show : ℕ → String} {node m n : ℕ} {w v w' : World} {out out' : List CommandResponse}
    → v.db.now ≡ w.db.now
    → IsDrained show node m w v out
    → IsDrained show node n v w' out'
    → IsDrained show node (m + n) w w' (out ++ out')
unfolding map_commands
IsDrained-append {show} {node} {m} {n} {w} {v} {w'} {out} {out'} now h k = record {
  given = h.given ++ k.given;
  left = k.left;
  parted =
      Perm.trans
        (subst (λ l. Perm l (h.given ++ (k.given ++ k.left)))
          (sym (append_assoc h.given k.given k.left)) (Perm.refl _))
        (Perm.trans (Perm.append_left h.given (Perm.trans k.parted h.still_waiting)) h.parted);
  handed =
      subst (Perm (out ++ out'))
        (sym (
            map-append (command_response show) (map (dispatched w.db.now) h.given)
              (map (dispatched w.db.now) k.given))
          ∙ ap (map (command_response show))
              (sym (map-append (dispatched w.db.now) h.given k.given)))
        (Perm.append h.handed
          (subst (λ t. Perm out' (map_commands show (map (dispatched t) k.given))) now k.handed));
  still_waiting = k.still_waiting;
  size = omega (arith, k.size, h.size, length-Perm h.still_waiting);
  oldest = λ a ma b mb.
      Or.elim le_prop (mem-append.0 ma)
        (λ m.
          h.oldest a m b
            ((Perm.mem_iff (Perm.trans k.parted h.still_waiting)).0 (mem-append_right k.given mb)))
        (λ m. k.oldest a m b mb);
}
