-- ===== src/Workers/Channels.antt =====
-- The invariant of `Process`: its phases, and the bounds of its channels.
use tls_banner_grab_go.Base.{
  ℕ, suc, ◌<◌, ◌≤◌, ◌≡◌, refl, ◌∙◌, ap, List, [], ◌∷◌, ◌++◌, Option, none, some, length,
  length-append, arith,
}
use tls_banner_grab_go.Grabber.Steps.{Status, status_success, status_failure}
use tls_banner_grab_go.Workers.Totals.{length-set_elem, length-repeat, All-repeat}
use tls_banner_grab_go.Workers.{
  waiting, left, busy, sending, Scan, State, to_list, count_status, hand_on, capacity, start, Step,
  decode, close, receive, handle, send, next, leave, close_output, write, return, count, Steps,
  done, more,
}
use tls_banner_grab_go.Workers.Phases.{reading, IsActive, IsConsistent, step-Phase}

length-head : {B : Type 0} (x : B) (xs ys : List B) → ys ≡ x ∷ xs → length ys ≡ suc (length xs)
length-head x xs ys h = ap length h

module _ {A E : Type 0} where
  -- As many workers, and as much in the three channels.
  record Sizes (t s : State A E) : Type 0 where
    workers : length t.workers ≡ length s.workers
    process : length t.process_queue ≡ length s.process_queue
    output : length t.output_queue ≡ length s.output_queue
    status : length t.statuses ≡ length s.statuses

  hand_on-Sizes :
      (i : ℕ) (x : A) (run : ℕ) (o : Option E) (s : State A E) → Sizes (hand_on i x run o s) s
  unfolding hand_on
  hand_on-Sizes i x run none s = record {
    workers = length-set_elem i (busy x (suc run)) s.workers;
    process = refl;
    output = refl;
    status = refl;
  }
  hand_on-Sizes i x run (some e) s = record {
    workers = length-set_elem i (sending x run e) s.workers;
    process = refl;
    output = refl;
    status = refl;
  }

  count_status-Sizes : (r : Status) (s : State A E) → Sizes (count_status r s) s
  unfolding count_status
  count_status-Sizes status_success s = record {
    workers = refl;
    process = refl;
    output = refl;
    status = refl;
  }
  count_status-Sizes status_failure s = record {
    workers = refl;
    process = refl;
    output = refl;
    status = refl;
  }

  module _ (scan : Scan A E) where
    -- What is left of a step to show, from its phase.
    step-Sizes :
        (s t : State A E)
        → IsConsistent scan s
        → Step scan s t
        → (length t.workers ≡ scan.workers)
          × (length t.process_queue ≤ capacity scan)
          × (length t.output_queue ≤ capacity scan)
          × (length t.statuses ≤ capacity scan)
    step-Sizes s t c (decode x xs h k) = (
      c.size,
      omega (arith, k, length-append s.process_queue (x ∷ [])),
      c.output_bound,
      c.status_bound,
    )
    step-Sizes s t c (close h k) = (c.size, c.process_bound, c.output_bound, c.status_bound)
    step-Sizes s t c (receive i x xs h k) = (
      length-set_elem i (busy x 0) s.workers ∙ c.size,
      omega (arith, c.process_bound, length-head x xs s.process_queue k),
      c.output_bound,
      c.status_bound,
    )
    step-Sizes s t c (handle i x run h k l) =
        let rs = s.statuses ++ to_list (scan.outcome x run).status in
        let kept =
          hand_on-Sizes i x run (scan.outcome x run).encoded (record s { statuses = rs }) in
        (
          kept.workers ∙ c.size,
          omega (arith, c.process_bound, kept.process),
          omega (arith, c.output_bound, kept.output),
          omega
              (arith, kept.status, length-append s.statuses (to_list (scan.outcome x run).status)),
        )
    step-Sizes s t c (send i x run e h k) = (
      length-set_elem i (busy x (suc run)) s.workers ∙ c.size,
      c.process_bound,
      omega (arith, length-append s.output_queue (e ∷ [])),
      c.status_bound,
    )
    step-Sizes s t c (next i x run h k) = (
      length-set_elem i waiting s.workers ∙ c.size,
      c.process_bound,
      c.output_bound,
      c.status_bound,
    )
    step-Sizes s t c (leave i h k l) =
        (length-set_elem i left s.workers ∙ c.size, c.process_bound, c.output_bound, c.status_bound)
    step-Sizes s t c (close_output h k l) =
        (c.size, c.process_bound, c.output_bound, c.status_bound)
    step-Sizes s t c (write e es h) = (
      c.size,
      c.process_bound,
      omega (arith, c.output_bound, length-head e es s.output_queue h),
      c.status_bound,
    )
    step-Sizes s t c (return h k l) = (c.size, c.process_bound, c.output_bound, c.status_bound)
    step-Sizes s t c (count r rs h) =
        let kept = count_status-Sizes r (record s { statuses = rs }) in
        (
          kept.workers ∙ c.size,
          omega (arith, c.process_bound, kept.process),
          omega (arith, c.output_bound, kept.output),
          omega (arith, c.status_bound, kept.status, length-head r rs s.statuses h),
        )

    pub step-IsConsistent :
        (s t : State A E)
        → 0 < scan.workers
        → IsConsistent scan s
        → Step scan s t
        → IsConsistent scan t
    step-IsConsistent s t pos c step =
        let (size, process, output, status) = step-Sizes s t c step in
        record {
          size = size;
          phase = step-Phase scan s t pos c step;
          process_bound = process;
          output_bound = output;
          status_bound = status;
        }

    start-IsConsistent : (input : List A) → IsConsistent scan (start scan input)
    start-IsConsistent input = record {
      size = length-repeat scan.workers waiting;
      phase = reading refl (All-repeat IsActive scan.workers waiting tt) refl refl;
      process_bound = omega arith;
      output_bound = omega arith;
      status_bound = omega arith;
    }

    -- With at least one worker, every state that steps from the start lead to has all its
    -- workers, no channel above its capacity, and is in one of three phases: the input is read,
    -- or it has ended and no worker has left before the queue was empty, or all have left and
    -- Process returns only when the output is written.
    pub steps-IsConsistent :
        (input : List A) (n : ℕ) (t : State A E)
        → 0 < scan.workers
        → Steps scan (start scan input) n t
        → IsConsistent scan t
    steps-IsConsistent input n t pos done = start-IsConsistent input
    steps-IsConsistent input n t pos (more {n = m} {t = u} before step) =
        step-IsConsistent u t pos (steps-IsConsistent input m u pos before) step
