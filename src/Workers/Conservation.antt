-- ===== src/Workers/Conservation.antt =====
-- No result of `Process` is lost and none is written twice.
use tls_banner_grab_go.Base.{
  ℕ, zero, suc, ◌+◌, ◌-◌, ◌<◌, ◌≤◌, ◌≡◌, refl, ◌∙◌, ap, Bool, ◌++◌, Option, none, some, get_elem?,
  if◌then◌else◌, arith,
}
use tls_banner_grab_go.Grabber.Steps.{Status, status_success, status_failure}
use tls_banner_grab_go.Workers.Totals.{total, total-snoc, total-set_elem, total-head}
use tls_banner_grab_go.Workers.{
  Worker, waiting, left, busy, sending, Scan, State, to_list, count_status, hand_on, Step, decode,
  close, receive, handle, send, next, leave, close_output, write, return, count, Steps, done, more,
}

module _ {A E : Type 0} (scan : Scan A E) (p : E → Bool) where
  -- How many results hold for the test.
  abbrev pub hit : E → ℕ
  hit e = if p e then 1 else 0

  abbrev pub hit_of : Option E → ℕ
  hit_of none = 0
  hit_of (some e) = hit e

  -- Those of the next runs of an object, from the run `run` on.
  unfoldable pub hits_from : A → ℕ → ℕ → ℕ
  hits_from x run zero = 0
  hits_from x run (suc n) = hit_of (scan.outcome x run).encoded + hits_from x (suc run) n

  -- Those of all runs of an object.
  unfoldable pub hits : A → ℕ
  hits x = hits_from x 0 scan.run_count

  -- What a worker still owes.
  unfoldable pub worker_hits : Worker A E → ℕ
  worker_hits waiting = 0
  worker_hits left = 0
  worker_hits (busy x run) = hits_from x run (scan.run_count - run)
  worker_hits (sending x run e) = hit e + hits_from x (suc run) (scan.run_count - suc run)

  -- What is written and what is still owed.
  unfoldable pub owed : State A E → ℕ
  owed s =
      total hit s.written
      + total hit s.output_queue
      + total worker_hits s.workers
      + total hits s.process_queue
      + total hits s.input

  hits_from-run :
      (x : A) (run : ℕ)
      → run < scan.run_count
      → hits_from x run (scan.run_count - run)
        ≡ hit_of (scan.outcome x run).encoded + hits_from x (suc run) (scan.run_count - suc run)
  unfolding hits_from
  hits_from-run x run h =
      let e : scan.run_count - run ≡ suc (scan.run_count - suc run) = omega arith in rw e refl

  hits_from-over :
      (x : A) (run : ℕ) → scan.run_count ≤ run → hits_from x run (scan.run_count - run) ≡ 0
  unfolding hits_from
  hits_from-over x run h = let e : scan.run_count - run ≡ 0 = omega arith in rw e refl

  hand_on-owed :
      (i : ℕ) (x : A) (run : ℕ) (o : Option E) (s : State A E)
      → get_elem? s.workers i ≡ some (busy x run)
      → hits_from x run (scan.run_count - run)
        ≡ hit_of o + hits_from x (suc run) (scan.run_count - suc run)
      → owed (hand_on i x run o s) ≡ owed s
  unfolding owed hand_on worker_hits
  hand_on-owed i x run none s h e =
      omega (arith, total-set_elem worker_hits i (busy x run) (busy x (suc run)) s.workers h)
  hand_on-owed i x run (some v) s h e =
      omega (arith, total-set_elem worker_hits i (busy x run) (sending x run v) s.workers h)

  count_status-owed : (r : Status) (s : State A E) → owed (count_status r s) ≡ owed s
  unfolding owed count_status
  count_status-owed status_success s = refl
  count_status-owed status_failure s = refl

  fresh : (x : A) → hits_from x 0 (scan.run_count - 0) ≡ hits_from x 0 scan.run_count
  fresh x = ap (hits_from x 0) (omega arith)

  step-owed : (s t : State A E) → Step scan s t → owed t ≡ owed s
  unfolding owed worker_hits hits total
  step-owed s t (decode x xs h k) =
      omega (arith, total-snoc hits s.process_queue x, total-head hits x xs s.input h)
  step-owed s t (close h k) = refl
  step-owed s t (receive i x xs h k) = omega (
    arith,
    total-set_elem worker_hits i waiting (busy x 0) s.workers h,
    total-head hits x xs s.process_queue k,
    fresh x,
  )
  step-owed s t (handle i x run h k l) =
      hand_on-owed i x run (scan.outcome x run).encoded
        (record s { statuses = s.statuses ++ to_list (scan.outcome x run).status }) h
        (hits_from-run x run k)
  step-owed s t (send i x run e h k) = omega (
    arith,
    total-set_elem worker_hits i (sending x run e) (busy x (suc run)) s.workers h,
    total-snoc hit s.output_queue e,
  )
  step-owed s t (next i x run h k) =
      omega (
        arith,
        total-set_elem worker_hits i (busy x run) waiting s.workers h,
        hits_from-over x run k,
      )
  step-owed s t (leave i h k l) =
      omega (arith, total-set_elem worker_hits i waiting left s.workers h)
  step-owed s t (close_output h k l) = refl
  step-owed s t (write e es h) =
      omega (arith, total-snoc hit s.written e, total-head hit e es s.output_queue h)
  step-owed s t (return h k l) = refl
  step-owed s t (count r rs h) = count_status-owed r (record s { statuses = rs })

  pub steps-owed : (s : State A E) (n : ℕ) (t : State A E) → Steps scan s n t → owed t ≡ owed s
  steps-owed s n t done = refl
  steps-owed s n t (more {n = m} {t = u} before step) = step-owed u t step ∙ steps-owed s m u before
