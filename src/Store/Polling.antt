-- ===== src/Store/Polling.antt =====
-- PollPendingCommands as a queue: what one poll hands out, and what it leaves.
use mathlib.Core.List.{
  Mem, Perm, Pairwise, Pairwise-append, Pairwise-singleton, mem-cons_self, mem-cons_of_mem,
  mem-append_left, append-nil,
}
use mathlib.Core.HLevel.{¬_prop}
use mathlib.Core.List.Perm
use native.Mathlib.Bridge.{le_prop}
use mathlib.Core.List.Pairwise as Pairs
use appx_forge.Base.{
  ℕ, ◌≤◌, ◌≡◌, ◌≢◌, refl, sym, ap, subst, ◌∙◌, Bool, true, false, not, ◌==◌, Bool-cases, inl, inr,
  List, [], ◌∷◌, ◌++◌, arith, map, select, drop, leb, if◌then◌else◌,
}
use appx_forge.Base.Selection.{
  select-Perm, mem-select, select-Pairwise, select-append, select-all, select-none, any-mem,
  any-witness, take-append-drop, below-cons,
}
use appx_forge.Store.{Command}
use appx_forge.Store.Table.{update}
use appx_forge.Store.Commands.{
  due, dispatched, poll_rows, RowOrder, insert_created, by_created, oldest_due, is_among,
}

-- The commands that wait for a node.
abbrev pub waiting : ℕ → List Command → List Command
waiting node cs = select (due node) cs

-- Both orders only arrange the rows.
pub record IsRowOrder (o : RowOrder) : Type 0 where
  pub scanned : (cs : List Command) → Perm (o.scanned cs) cs
  pub returned : (cs : List Command) → Perm (o.returned cs) cs

-- The identifiers are a primary key.
abbrev pub IsKeyedBy : List Command → Type 0
IsKeyedBy = Pairwise (λ (a b : Command). a.id ≢ b.id)

abbrev pub IsByCreation : List Command → Type 0
IsByCreation = Pairwise (λ (a b : Command). a.created_at ≤ b.created_at)

insert-Perm : (c : Command) (cs : List Command) → Perm (insert_created c cs) (c ∷ cs)
insert-Perm c [] = Perm.rfl
insert-Perm c (d ∷ ds) = elim (Bool-cases (leb c.created_at d.created_at)) [
  | inl e ↦ rw e Perm.rfl
  | inr e ↦ rw e (Perm.trans (Perm.cons d (insert-Perm c ds)) (Perm.swap c d ds))
]

by_created-Perm : (cs : List Command) → Perm (by_created cs) cs
unfolding by_created
by_created-Perm [] = Perm.rfl
by_created-Perm (c ∷ cs) =
    Perm.trans (insert-Perm c (by_created cs)) (Perm.cons c (by_created-Perm cs))

insert-IsByCreation :
    (c : Command) (cs : List Command) → IsByCreation cs → IsByCreation (insert_created c cs)
insert-IsByCreation c [] h = Pairwise-singleton _ c
insert-IsByCreation c (d ∷ ds) (Pairwise.cons below h) =
    elim (Bool-cases (leb c.created_at d.created_at)) [
      | inl e ↦
          let first : c.created_at ≤ d.created_at = ground (arith, e) in
          rw e (
            Pairwise.cons
              (below-cons {f = λ k. k.created_at} first (λ k m. omega (arith, first, below k m)))
              (Pairwise.cons below h))
      | inr e ↦
          let after : d.created_at ≤ c.created_at = ground (arith, e) in
          rw e (
            Pairwise.cons
              (λ k m.
                below-cons {f = λ k. k.created_at} after below k
                  ((Perm.mem_iff (insert-Perm c ds)).0 m))
              (insert-IsByCreation c ds h))
    ]

by_created-IsByCreation : (cs : List Command) → IsByCreation (by_created cs)
unfolding by_created
by_created-IsByCreation [] = Pairwise.nil
by_created-IsByCreation (c ∷ cs) =
    insert-IsByCreation c (by_created cs) (by_created-IsByCreation cs)

update-map :
    (p : Command → Bool) (now : ℕ) (rs : List Command)
    → update p (dispatched now) rs ≡ map (λ c. if p c then dispatched now c else c) rs
unfolding update
update-map p now [] = refl
update-map p now (c ∷ rs) =
    ap (λ l. (if p c then dispatched now c else c) ∷ l) (update-map p now rs)

same_id :
    (p : Command → Bool) (now : ℕ) (c : Command) → (if p c then dispatched now c else c).id ≡ c.id
same_id p now c = elim (Bool-cases (p c)) [ inl e ↦ rw e refl | inr e ↦ rw e refl ]

update-IsKeyedBy :
    (p : Command → Bool) (now : ℕ) (rs : List Command)
    → IsKeyedBy rs
    → IsKeyedBy (update p (dispatched now) rs)
update-IsKeyedBy p now rs h = rw (update-map p now rs) (
    Pairs.map (λ a b. ¬_prop) (λ c. if p c then dispatched now c else c)
      (λ a b differ e. differ (sym (same_id p now a) ∙ e ∙ same_id p now b)) h)

-- A poll of a table in which no two commands share an identifier.
module _ (o : RowOrder) (order : IsRowOrder o) (n node now : ℕ) (cs : List Command)
    (keyed : IsKeyedBy cs) where
  abbrev pub queued : List Command
  queued = by_created (o.scanned (waiting node cs))

  -- Those that the poll hands out, in order of creation, and those that it leaves.
  abbrev pub first_due : List Command
  first_due = oldest_due o n node cs

  abbrev pub others_due : List Command
  others_due = drop n queued

  abbrev chosen : Command → Bool
  chosen = is_among first_due

  parted-eq : first_due ++ others_due ≡ queued
  unfolding oldest_due
  parted-eq = take-append-drop n queued

  pub queued-Perm : Perm queued (waiting node cs)
  queued-Perm = Perm.trans (by_created-Perm _) (order.scanned _)

  pub first-others : Perm (first_due ++ others_due) (waiting node cs)
  first-others = rw parted-eq queued-Perm

  queued-IsKeyedBy : IsKeyedBy (first_due ++ others_due)
  queued-IsKeyedBy =
      Perm.pairwise (λ a b. ¬_prop) (λ a b h e. h (sym e)) (Perm.symm first-others)
        (select-Pairwise (due node) keyed)

  pub first-le-others :
      (a : Command)
      → Mem a first_due
      → (b : Command) → Mem b others_due
      → a.created_at ≤ b.created_at
  first-le-others =
      ((Pairwise-append (λ a b. le_prop)).0
        (subst IsByCreation (sym parted-eq) (by_created-IsByCreation _))).2

  chosen_first : (a : Command) → Mem a first_due → chosen a ≡ true
  chosen_first a m = any-mem (λ k. k.id == a.id) m (ground arith)

  chosen-others : (b : Command) → Mem b others_due → chosen b ≡ false
  chosen-others b m = elim (Bool-cases (chosen b)) [
    | inr e ↦ e
    | inl e ↦
        let (k, mk, same) = any-witness (λ (k : Command). k.id == b.id) first_due e in
        absurd
          (((Pairwise-append (λ a b. ¬_prop)).0 queued-IsKeyedBy).2 k mk b m (ground (arith, same)))
  ]

  chosen-queued : select chosen (first_due ++ others_due) ≡ first_due
  chosen-queued =
      select-append chosen first_due others_due
      ∙ rw (select-all chosen first_due chosen_first, select-none chosen others_due chosen-others)
          (append-nil first_due)

  left-queued : select (λ c. not (chosen c)) (first_due ++ others_due) ≡ others_due
  left-queued =
      select-append (λ c. not (chosen c)) first_due others_due
      ∙ rw
          (
            select-none (λ c. not (chosen c)) first_due (λ a m. ap not (chosen_first a m)),
            select-all (λ c. not (chosen c)) others_due (λ a m. ap not (chosen-others a m)),
          )
          refl

  -- A row with the identifier of a waiting command waits.
  chosen-due : (c : Command) → Mem c cs → chosen c ≡ true → due node c ≡ true
  chosen-due c m e =
      let (k, mk, same) = any-witness (λ (k : Command). k.id == c.id) first_due e in
      let (mk', is_due) =
        (mem-select (due node)).0 ((Perm.mem_iff first-others).0 (mem-append_left others_due mk)) in
      sym (one_row k mk' c m (ground (arith, same))) ∙ is_due
    where
      one_row :
          (a : Command)
          → Mem a cs
          → (b : Command) → Mem b cs
          → a.id ≡ b.id
          → due node a ≡ due node b
      one_row =
          Pairs.forall_of_forall_of_flip
            {R = λ (a b : Command). a.id ≡ b.id → due node a ≡ due node b} (λ a b. hlevel)
            (λ x m e. refl) (Pairs.imp (λ a b h e. absurd (h e)) keyed)
            (Pairs.imp (λ a b h e. absurd (h (sym e))) keyed)

  chosen-waiting :
      (rs : List Command)
      → ((c : Command) → Mem c rs → chosen c ≡ true → due node c ≡ true)
      → select chosen rs ≡ select chosen (waiting node rs)
  chosen-waiting [] h = refl
  chosen-waiting (c ∷ rs) h =
      ground (arith, h c mem-cons_self, chosen-waiting rs (λ a m. h a (mem-cons_of_mem c m)))

  left-waiting :
      (p : Command → Bool) (rs : List Command)
      → waiting node (update p (dispatched now) rs) ≡ select (λ c. not (p c)) (waiting node rs)
  unfolding update
  left-waiting p [] = refl
  left-waiting p (c ∷ rs) = elim (Bool-cases (p c)) [
    | inl e ↦ elim (Bool-cases (due node c)) [
      | inl d ↦ rw (e, d) (ground (arith, e, left-waiting p rs))
      | inr d ↦ rw (e, d) (ground (arith, e, left-waiting p rs))
    ]
    | inr e ↦ elim (Bool-cases (due node c)) [
      | inl d ↦ rw (e, d) (ground (arith, e, left-waiting p rs))
      | inr d ↦ rw (e, d) (ground (arith, e, left-waiting p rs))
    ]
  ]

  pub poll_rows-out : Perm (poll_rows o n node now cs).0 (map (dispatched now) first_due)
  unfolding poll_rows
  poll_rows-out = Perm.trans (order.returned _) (
      Perm.map (dispatched now) (
        subst (λ l. Perm l first_due) (sym (chosen-waiting cs chosen-due))
          (subst (λ l. Perm (select chosen (waiting node cs)) l) chosen-queued
            (select-Perm chosen (Perm.symm first-others)))))

  pub poll_rows-left : Perm (waiting node (poll_rows o n node now cs).1) others_due
  unfolding poll_rows
  poll_rows-left =
      subst (λ l. Perm l others_due) (sym (left-waiting chosen cs))
        (subst (λ l. Perm (select (λ c. not (chosen c)) (waiting node cs)) l) left-queued
          (select-Perm (λ c. not (chosen c)) (Perm.symm first-others)))

  pub poll_rows-IsKeyedBy : IsKeyedBy (poll_rows o n node now cs).1
  unfolding poll_rows
  poll_rows-IsKeyedBy = update-IsKeyedBy chosen now cs keyed
