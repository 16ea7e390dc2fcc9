-- ===== src/Workers/Termination.antt =====
-- Every run of `Process` ends, and how many steps it takes at most.
use tls_banner_grab_go.Base.{
  ℕ, suc, ◌+◌, ◌-◌, ◌*◌, ◌<◌, ◌≤◌, ◌≡◌, refl, ap, Bool, true, false, List, [], ◌∷◌, ◌++◌, Option,
  none, some, length, length-append, get_elem?, arith,
}
use tls_banner_grab_go.Grabber.Steps.{Status, status_success, status_failure}
use native.Mathlib.Nat.{suc-mul}
use tls_banner_grab_go.Workers.{
  Worker, waiting, left, busy, sending, Scan, State, to_list, count_status, hand_on, start, Step,
  decode, close, receive, handle, send, next, leave, close_output, write, return, count, Steps,
  done, more,
}
use tls_banner_grab_go.Workers.Totals.{
  total, total-snoc, total-set_elem, total-repeat_one, total-head,
}

module _ {A E : Type 0} (scan : Scan A E) where
  abbrev pub bit : Bool → ℕ
  bit true = 0
  bit false = 1

  -- The steps of an object: one into the queue, one out of it, and for each run one for the
  -- handler, one for its status, two for its result, and one at the end.
  abbrev run_cost : ℕ
  run_cost = 4

  unfoldable pub worker_cost : Worker A E → ℕ
  worker_cost left = 0
  worker_cost waiting = 1
  worker_cost (busy x run) = 2 + (scan.run_count - run) * run_cost
  worker_cost (sending x run e) = 4 + (scan.run_count - suc run) * run_cost

  unfoldable pub queue_cost : A → ℕ
  queue_cost x = 2 + scan.run_count * run_cost

  unfoldable pub input_cost : A → ℕ
  input_cost x = 3 + scan.run_count * run_cost

  -- How many steps there can be from a state.
  unfoldable pub cost : State A E → ℕ
  cost s =
      total input_cost s.input
      + total queue_cost s.process_queue
      + total worker_cost s.workers
      + length s.output_queue
      + length s.statuses
      + bit s.process_closed
      + bit s.output_closed
      + bit s.returned

  hand_on-cost :
      (i : ℕ) (x : A) (run : ℕ) (o : Option E) (s : State A E)
      → get_elem? s.workers i ≡ some (busy x run)
      → run < scan.run_count
      → cost (hand_on i x run o s) + 2 ≤ cost s
  unfolding hand_on cost worker_cost
  hand_on-cost i x run none s h k =
      omega (arith, total-set_elem worker_cost i (busy x run) (busy x (suc run)) s.workers h)
  hand_on-cost i x run (some e) s h k =
      omega (arith, total-set_elem worker_cost i (busy x run) (sending x run e) s.workers h)

  count_status-cost : (r : Status) (s : State A E) → cost (count_status r s) ≡ cost s
  unfolding count_status cost
  count_status-cost status_success s = refl
  count_status-cost status_failure s = refl

  status-cost :
      (s : State A E) (o : Option Status)
      → cost (record s { statuses = s.statuses ++ to_list o }) ≤ cost s + 1
  unfolding cost
  status-cost s none = omega (arith, length-append s.statuses [])
  status-cost s (some r) = omega (arith, length-append s.statuses (r ∷ []))

  pub step-cost : (s t : State A E) → Step scan s t → cost t < cost s
  unfolding cost worker_cost queue_cost input_cost
  step-cost s t (decode x xs h k) =
      omega (arith, total-head input_cost x xs s.input h, total-snoc queue_cost s.process_queue x)
  step-cost s t (close h k) = omega (arith, ap bit k)
  step-cost s t (receive i x xs h k) = omega (
    arith,
    total-set_elem worker_cost i waiting (busy x 0) s.workers h,
    total-head queue_cost x xs s.process_queue k,
  )
  step-cost s t (handle i x run h k l) =
      let rs = s.statuses ++ to_list (scan.outcome x run).status in
      let handed =
        hand_on-cost i x run (scan.outcome x run).encoded (record s { statuses = rs }) h k in
      omega (arith, handed, status-cost s (scan.outcome x run).status)
  step-cost s t (send i x run e h k) = omega (
    arith,
    total-set_elem worker_cost i (sending x run e) (busy x (suc run)) s.workers h,
    length-append s.output_queue (e ∷ []),
  )
  step-cost s t (next i x run h k) =
      omega (arith, total-set_elem worker_cost i (busy x run) waiting s.workers h)
  step-cost s t (leave i h k l) =
      omega (arith, total-set_elem worker_cost i waiting left s.workers h)
  step-cost s t (close_output h k l) = omega (arith, ap bit l)
  step-cost s t (write e es h) = omega (arith, ap length h)
  step-cost s t (return h k l) = omega (arith, ap bit l)
  step-cost s t (count r rs h) =
      omega (arith, ap length h, count_status-cost r (record s { statuses = rs }))

  steps-cost : (s : State A E) (n : ℕ) (t : State A E) → Steps scan s n t → n + cost t ≤ cost s
  steps-cost s n t done = omega arith
  steps-cost s n t (more {n = m} {t = u} before step) =
      omega (arith, steps-cost s m u before, step-cost u t step)

  total-constant : (xs : List A) → total input_cost xs ≡ length xs * (3 + 4 * scan.run_count)
  unfolding total input_cost
  total-constant [] = omega arith
  total-constant (x ∷ xs) =
      omega (arith, total-constant xs, suc-mul (length xs) (3 + 4 * scan.run_count))

  start-cost :
      (input : List A)
      → cost (start scan input) ≡ length input * (3 + 4 * scan.run_count) + scan.workers + 3
  unfolding cost worker_cost total
  start-cost input =
      omega (arith, total-repeat_one worker_cost scan.workers waiting refl, total-constant input)

  -- However the goroutines take turns, there are at most three steps for each object and four for
  -- each of its runs, one for each worker, and three.
  pub steps-bound :
      (input : List A) (n : ℕ) (t : State A E)
      → Steps scan (start scan input) n t
      → n ≤ length input * (3 + 4 * scan.run_count) + scan.workers + 3
  steps-bound input n t steps =
      omega (arith, steps-cost (start scan input) n t steps, start-cost input)
