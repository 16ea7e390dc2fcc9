-- ===== src/Workers/Counts.antt =====
-- The counters of a `GrabWorker`, and what the runs of the handler report.
use tls_banner_grab_go.Base.{
  ℕ, zero, suc, ◌+◌, ◌-◌, ◌<◌, ◌≤◌, ◌≡◌, refl, ◌∙◌, ap, sym, ◌++◌, List, [], ◌∷◌, Option, none,
  some, get_elem?, arith, true, All,
}
use tls_banner_grab_go.Grabber.Steps.{Status, status_success, status_failure}
use tls_banner_grab_go.Workers.Totals.{
  total, total-append, total-snoc, total-set_elem, total-head, total-repeat,
}
use tls_banner_grab_go.Workers.Phases.{Phase, reading, draining, flushing}
use tls_banner_grab_go.Workers.Channels.{steps-IsConsistent}
use tls_banner_grab_go.Workers.{
  Worker, waiting, left, busy, sending, Scan, State, to_list, count_status, hand_on, HasLeft, start,
  Step, decode, close, receive, handle, send, next, leave, close_output, write, return, count,
  Steps, done, more,
}

-- Whether a status is the one that is counted.
unfoldable pub is_status : Status → Status → ℕ
is_status status_success status_success = 1
is_status status_success status_failure = 0
is_status status_failure status_success = 0
is_status status_failure status_failure = 1

unfoldable pub pick : Status → ℕ → ℕ → ℕ
pick status_success success failure = success
pick status_failure success failure = failure

pick-zero : (r : Status) → pick r 0 0 ≡ 0
unfolding pick
pick-zero status_success = refl
pick-zero status_failure = refl

pick-success : (r : Status) (a b : ℕ) → pick r (suc a) b ≡ is_status r status_success + pick r a b
unfolding pick is_status
pick-success status_success a b = omega arith
pick-success status_failure a b = omega arith

pick-failure : (r : Status) (a b : ℕ) → pick r a (suc b) ≡ is_status r status_failure + pick r a b
unfolding pick is_status
pick-failure status_success a b = omega arith
pick-failure status_failure a b = omega arith

module _ {A E : Type 0} where
  -- `Success()` and `Failure()`
  abbrev pub counter : Status → State A E → ℕ
  counter r s = pick r s.success s.failure

  -- `Total()`
  unfoldable pub total_count : State A E → ℕ
  total_count s = s.success + s.failure

  module _ (scan : Scan A E) (r : Status) where
    abbrev pub reported : Option Status → ℕ
    reported none = 0
    reported (some q) = is_status r q

    -- How many of the next runs of an object report the status, from the run `run` on.
    unfoldable pub reports_from : A → ℕ → ℕ → ℕ
    reports_from x run zero = 0
    reports_from x run (suc n) = reported (scan.outcome x run).status + reports_from x (suc run) n

    -- How many of all runs of an object do.
    unfoldable pub reports : A → ℕ
    reports x = reports_from x 0 scan.run_count

    -- How many of the runs that a worker still has to do.
    unfoldable worker_reports : Worker A E → ℕ
    worker_reports waiting = 0
    worker_reports left = 0
    worker_reports (busy x run) = reports_from x run (scan.run_count - run)
    worker_reports (sending x run e) = reports_from x (suc run) (scan.run_count - suc run)

    -- What is counted, what waits to be counted, and what is still to be reported.
    unfoldable due : State A E → ℕ
    due s =
        counter r s
        + total (is_status r) s.statuses
        + total worker_reports s.workers
        + total reports s.process_queue
        + total reports s.input

    reports_from-run :
        (x : A) (run : ℕ)
        → run < scan.run_count
        → reports_from x run (scan.run_count - run)
          ≡ reported (scan.outcome x run).status
            + reports_from x (suc run) (scan.run_count - suc run)
    unfolding reports_from
    reports_from-run x run h =
        let e : scan.run_count - run ≡ suc (scan.run_count - suc run) = omega arith in rw e refl

    reports_from-over :
        (x : A) (run : ℕ) → scan.run_count ≤ run → reports_from x run (scan.run_count - run) ≡ 0
    unfolding reports_from
    reports_from-over x run h = let e : scan.run_count - run ≡ 0 = omega arith in rw e refl

    total-to_list : (q : Option Status) → total (is_status r) (to_list q) ≡ reported q
    unfolding total
    total-to_list none = refl
    total-to_list (some q) = omega arith

    count_status-due : (q : Status) (s : State A E) → due (count_status q s) ≡ is_status r q + due s
    unfolding due count_status
    count_status-due status_success s = omega (arith, pick-success r s.success s.failure)
    count_status-due status_failure s = omega (arith, pick-failure r s.success s.failure)

    hand_on-due :
        (i : ℕ) (x : A) (run : ℕ) (o : Option E) (s : State A E)
        → get_elem? s.workers i ≡ some (busy x run)
        → run < scan.run_count
        → due (hand_on i x run o s) + reported (scan.outcome x run).status ≡ due s
    unfolding due hand_on worker_reports
    hand_on-due i x run none s h k = omega (
      arith,
      reports_from-run x run k,
      total-set_elem worker_reports i (busy x run) (busy x (suc run)) s.workers h,
    )
    hand_on-due i x run (some v) s h k = omega (
      arith,
      reports_from-run x run k,
      total-set_elem worker_reports i (busy x run) (sending x run v) s.workers h,
    )

    report-due :
        (q : Option Status) (s : State A E)
        → due (record s { statuses = s.statuses ++ to_list q }) ≡ due s + reported q
    unfolding due
    report-due q s =
        omega (arith, total-append (is_status r) s.statuses (to_list q), total-to_list q)

    fresh : (x : A) → reports_from x 0 (scan.run_count - 0) ≡ reports_from x 0 scan.run_count
    fresh x = ap (reports_from x 0) (omega arith)

    step-due : (s t : State A E) → Step scan s t → due t ≡ due s
    unfolding due worker_reports reports total
    step-due s t (decode x xs h k) =
        omega (arith, total-snoc reports s.process_queue x, total-head reports x xs s.input h)
    step-due s t (close h k) = refl
    step-due s t (receive i x xs h k) = omega (
      arith,
      total-set_elem worker_reports i waiting (busy x 0) s.workers h,
      total-head reports x xs s.process_queue k,
      fresh x,
    )
    step-due s t (handle i x run h k l) =
        let o = scan.outcome x run in
        let s' = record s { statuses = s.statuses ++ to_list o.status } in
        omega (arith, hand_on-due i x run o.encoded s' h k, report-due o.status s)
    step-due s t (send i x run e h k) =
        omega
          (arith, total-set_elem worker_reports i (sending x run e) (busy x (suc run)) s.workers h)
    step-due s t (next i x run h k) = omega (
      arith,
      total-set_elem worker_reports i (busy x run) waiting s.workers h,
      reports_from-over x run k,
    )
    step-due s t (leave i h k l) =
        omega (arith, total-set_elem worker_reports i waiting left s.workers h)
    step-due s t (close_output h k l) = refl
    step-due s t (write e es h) = refl
    step-due s t (return h k l) = refl
    step-due s t (count q qs h) = omega (
      arith,
      count_status-due q (record s { statuses = qs }),
      total-head (is_status r) q qs s.statuses h,
    )

    steps-due : (s : State A E) (n : ℕ) (t : State A E) → Steps scan s n t → due t ≡ due s
    steps-due s n t done = refl
    steps-due s n t (more {n = m} {t = u} before step) = step-due u t step ∙ steps-due s m u before

    left-reports : (ws : List (Worker A E)) → All HasLeft ws → total worker_reports ws ≡ 0
    unfolding total worker_reports
    left-reports [] h = refl
    left-reports (left ∷ ws) (h, hs) = omega (arith, left-reports ws hs)
    left-reports (waiting ∷ ws) (h, hs) = elim h [ ]
    left-reports (busy x run ∷ ws) (h, hs) = elim h [ ]
    left-reports (sending x run e ∷ ws) (h, hs) = elim h [ ]

    due-returned :
        (s : State A E)
        → Phase s
        → s.returned ≡ true
        → due s ≡ counter r s + total (is_status r) s.statuses
    unfolding due total
    due-returned s (reading a b c d) h = absurd cc
    due-returned s (draining a b c d e) h = absurd cc
    due-returned s (flushing a b c d e f) h =
        omega (arith, ap (total reports) b, ap (total reports) c, left-reports s.workers d)

    due-start : (input : List A) → due (start scan input) ≡ total reports input
    unfolding due total worker_reports pick
    due-start input =
        let none_yet : pick r 0 0 ≡ 0 = pick-zero r in
        omega (arith, none_yet, total-repeat worker_reports scan.workers waiting refl)

    -- For either status, any order in which the goroutines take turns and at least one worker:
    -- when Process has returned, the counter of the status and those of this status that still
    -- wait to be counted are as many as the runs of all objects that report it.
    pub returned-counter :
        (input : List A) (n : ℕ) (t : State A E)
        → 0 < scan.workers
        → Steps scan (start scan input) n t
        → t.returned ≡ true
        → counter r t + total (is_status r) t.statuses ≡ total reports input
    returned-counter input n t pos steps h =
        sym (due-returned t (steps-IsConsistent scan input n t pos steps).phase h)
        ∙ steps-due (start scan input) n t steps
        ∙ due-start input
