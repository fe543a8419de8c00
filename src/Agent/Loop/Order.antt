-- ===== src/Agent/Loop/Order.antt =====
-- Which of the commands that were polled are executed, and in which order.
use mathlib.Core.List.{append_assoc, append-nil, map-append}
use appx_forge.Base.{
  ℕ, zero, suc, ◌≡◌, refl, sym, ap, ap₂, subst, ◌∙◌, Bool, true, false, Bool-cases, Result-cases,
  inl, inr, List, [], ◌∷◌, ◌++◌, map, ok, err, length, length-append, on_result, arith,
  if◌then◌else◌,
}
use appx_forge.ControlClient.{ClientErr}
use appx_forge.Executor.{Command, CommandExecutor, Outside, Report}
use appx_forge.Executor.Handlers.{execute}
use appx_forge.Executor.Tracking.{execute_all}
use appx_forge.Agent.Loop.Reporting.{execute-cmd_id}
use appx_forge.Agent.Loop.{
  LoopOutside, Polling, new_polling, looked, run_command, run_commands, after_error, take_commands,
  poll_once, poll_loop,
}

module _ (out : LoopOutside) where
  batch : ℕ → List Command
  batch n = on_result (out.commands n) (λ cmds. cmds) (λ e. [])

  -- What the first `n` polls hand out.
  unfoldable pub polled : ℕ → List Command
  unfolding batch
  polled zero = []
  polled (suc n) = polled n ++ batch n

  -- Each command with what its execution meets, from the n-th execution on.
  unfoldable pub paired : ℕ → List Command → List (Outside × Command)
  paired n [] = []
  paired n (cmd ∷ cmds) = (out.during n, cmd) ∷ paired (suc n) cmds

  polled-ok :
      (n : ℕ) (cmds : List Command) → out.commands n ≡ ok cmds → polled (suc n) ≡ polled n ++ cmds
  unfolding polled batch
  polled-ok n cmds h = rw h refl

  polled-err : (n : ℕ) (f : ClientErr) → out.commands n ≡ err f → polled (suc n) ≡ polled n
  unfolding polled batch
  polled-err n f h = rw h (append-nil (polled n))

  -- `done` is executed in order, and `left` is what else was polled.
  record IsAt (e : CommandExecutor) (done left : List Command) (s : Polling) : Type 0 where
    pub all : polled s.polls ≡ done ++ left
    pub ids : map (λ (r : Report). r.cmd_id) s.reports ≡ map (λ (c : Command). c.id) done
    pub count : length s.reports ≡ length done
    pub executor :
        (rest : List Command)
        → execute_all (paired 0 (done ++ rest)) e
          ≡ execute_all (paired (length s.reports) rest) s.executor

  record IsGoing (e : CommandExecutor) (r : Bool × Polling) : Type 0 where
    pub done : List Command
    pub left : List Command
    pub at : IsAt e done left r.1
    pub complete : (if r.0 then left else []) ≡ []

  -- `done` is executed and reported, in order, and `left` is nothing while the loop goes on.
  pub record IsServed (e : CommandExecutor) (r : Bool × Polling) : Type 0 where
    pub done : List Command
    pub left : List Command
    pub all : polled r.1.polls ≡ done ++ left
    pub ids : map (λ (x : Report). x.cmd_id) r.1.reports ≡ map (λ (c : Command). c.id) done
    pub executor : r.1.executor ≡ execute_all (paired 0 done) e
    pub complete : (if r.0 then left else []) ≡ []

  module _ (e : CommandExecutor) where
    looked-IsAt :
        {done left : List Command} {s : Polling} → IsAt e done left s → IsAt e done left (looked s)
    looked-IsAt h = record { all = h.all; ids = h.ids; count = h.count; executor = h.executor }

    run-IsAt :
        (cmd : Command) {done left : List Command} {s : Polling}
        → IsAt e done (cmd ∷ left) s
        → IsAt e (done ++ cmd ∷ []) left (run_command out cmd s)
    unfolding run_command paired execute_all
    run-IsAt cmd {done} {left} {s} h =
        let n : ℕ = length s.reports in
        let (report, e') = execute (out.during n) cmd s.executor in
        record {
          all = h.all ∙ sym (append_assoc done (cmd ∷ []) left);
          ids =
              map-append (λ (r : Report). r.cmd_id) s.reports (report ∷ [])
              ∙ ap₂ (λ l x. l ++ x ∷ []) h.ids (execute-cmd_id (out.during n) cmd s.executor)
              ∙ sym (map-append (λ (c : Command). c.id) done (cmd ∷ []));
          count = omega (
            arith,
            h.count,
            length-append s.reports (report ∷ []),
            length-append done (cmd ∷ []),
          );
          executor = λ rest.
              ap (λ l. execute_all (paired 0 l) e) (append_assoc done (cmd ∷ []) rest)
              ∙ h.executor (cmd ∷ rest)
              ∙ ap (λ (m : ℕ). execute_all (paired m rest) e') (one_more s.reports report);
        }
      where
        one_more : (l : List Report) (x : Report) → suc (length l) ≡ length (l ++ x ∷ [])
        one_more l x = omega (arith, length-append l (x ∷ []))

    run-IsGoing :
        (cmds : List Command) (done : List Command) (s : Polling)
        → IsAt e done cmds s
        → IsGoing e (run_commands out cmds s)
    unfolding run_commands
    run-IsGoing [] done s h = record { done = done; left = []; at = h; complete = refl }
    run-IsGoing (cmd ∷ cmds) done s h = elim (Bool-cases (out.ended s.looks)) [
      | inl x ↦
          rw x (record { done = done; left = cmd ∷ cmds; at = looked-IsAt h; complete = refl })
      | inr x ↦ rw x (run-IsGoing cmds (done ++ cmd ∷ []) _ (run-IsAt cmd (looked-IsAt h)))
    ]

    -- A state with nothing left.
    idle-IsGoing :
        {s : Polling} (done : List Command) (goes_on : Bool)
        → IsAt e done [] s
        → IsGoing e (goes_on, s)
    idle-IsGoing done goes_on h = record { done = done; left = []; at = h; complete = ground arith }

    failed-IsGoing :
        (done : List Command) (s : Polling) → IsAt e done [] s → IsGoing e (after_error out s)
    unfolding after_error
    failed-IsGoing done s h = elim (Bool-cases (out.ended s.looks)) [
      | inl x ↦ rw x (idle-IsGoing done false (looked-IsAt h))
      | inr x ↦ elim (Bool-cases (out.ended (suc s.looks))) [
        | inl y ↦ rw (x, y) (idle-IsGoing done false (looked-IsAt (looked-IsAt h)))
        | inr y ↦ rw (x, y) (idle-IsGoing done true (looked-IsAt (looked-IsAt h)))
      ]
    ]

    once-IsGoing :
        (done : List Command) (s : Polling) → IsAt e done [] s → IsGoing e (poll_once out s)
    unfolding poll_once take_commands after_error polled batch
    once-IsGoing done s h = elim (Bool-cases (out.ended s.looks)) [
      | inl x ↦ rw x (idle-IsGoing done false (looked-IsAt h))
      | inr x ↦ elim (Result-cases (out.commands s.polls)) [
        | inl (cmds, c) ↦
            rw (x, c)
              (run-IsGoing cmds done _ (record {
                all = polled-ok s.polls cmds c ∙ ap (λ l. l ++ cmds) (h.all ∙ append-nil done);
                ids = h.ids;
                count = h.count;
                executor = h.executor;
              }))
        | inr (f, c) ↦
            let failed : IsAt e done [] (record (looked s) { polls = suc s.polls }) = record {
              all = polled-err s.polls f c ∙ h.all;
              ids = h.ids;
              count = h.count;
              executor = h.executor;
            } in
            rw (x, c) (failed-IsGoing done _ failed)
      ]
    ]

    loop-IsGoing :
        (fuel : ℕ) (done : List Command) (s : Polling)
        → IsAt e done [] s
        → IsGoing e (poll_loop out fuel s)
    unfolding poll_loop
    loop-IsGoing zero done s h = idle-IsGoing done true h
    loop-IsGoing (suc fuel) done s h =
        let once = once-IsGoing done s h in
        elim (Bool-cases (poll_once out s).0) [
          | inr stops ↦
              rw stops
                (record { done = once.done; left = once.left; at = once.at; complete = refl })
          | inl goes ↦
              let empty : once.left ≡ [] =
                ap (λ b. if b then once.left else []) (sym goes) ∙ once.complete in
              rw goes (
                loop-IsGoing fuel once.done _
                  (subst (λ l. IsAt e once.done l (poll_once out s).1) empty once.at))
        ]

    -- Whatever the polls return and whenever the context ends, after any number of rounds of the loop
    -- the executor has carried out a prefix of the commands that were polled, in the order in which
    -- they were handed out: it is in the state that these executions lead to, and it has made one
    -- report for each of them, in that order. If the loop goes on, the prefix is all of them.
    pub poll_loop-IsServed : (fuel : ℕ) → IsServed e (poll_loop out fuel (new_polling e))
    unfolding new_polling polled paired execute_all
    poll_loop-IsServed fuel =
        let going =
          loop-IsGoing fuel [] (new_polling e)
            (record { all = refl; ids = refl; count = refl; executor = λ rest. refl }) in
        record {
          done = going.done;
          left = going.left;
          all = going.at.all;
          ids = going.at.ids;
          executor =
              sym (going.at.executor [])
              ∙ ap (λ l. execute_all (paired 0 l) e) (append-nil going.done);
          complete = going.complete;
        }
