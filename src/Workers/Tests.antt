-- ===== src/Workers/Tests.antt =====
-- A run of `Process` with one worker and one object, and its theorems at that run.
use tls_banner_grab_go.Base.{
  ℕ, ◌≤◌, ◌+◌, ◌*◌, ◌≡◌, refl, length, Bool, true, List, [], ◌∷◌, some, arith, get_elem?, ◌==◌,
}
use tls_banner_grab_go.Grabber.Steps.{status_success}
use tls_banner_grab_go.Workers.{
  left, busy, Scan, State, set_elem, repeat, count_status, hand_on, start, decode, close, receive,
  handle, send, next, leave, close_output, write, return, count, Steps, done, more,
}
use tls_banner_grab_go.Workers.Totals.{total}
use tls_banner_grab_go.Workers.Phases.{IsConsistent}
use tls_banner_grab_go.Workers.Channels.{steps-IsConsistent}
use tls_banner_grab_go.Workers.Conservation.{hit, hits}
use tls_banner_grab_go.Workers.Results.{returned-written}
use tls_banner_grab_go.Workers.Counts.{is_status, counter, reports, returned-counter}
use tls_banner_grab_go.Workers.Termination.{steps-bound}
use tls_banner_grab_go.Workers.Progress.{Returns, steps-Returns}

-- One worker and one run, with a success and the object itself as its encoded result.
abbrev scan : Scan ℕ ℕ
scan = record {
  workers = 1;
  run_count = 1;
  outcome = λ x run. record { status = some status_success; encoded = some x };
}

abbrev objects : List ℕ
objects = 7 ∷ []

abbrev is_seven : ℕ → Bool
is_seven e = e == 7

abbrev received : State ℕ ℕ
received = record (start scan objects) {
  input = [];
  process_closed = true;
  workers = busy 7 0 ∷ [];
}

abbrev sent : State ℕ ℕ
sent = record received { workers = busy 7 1 ∷ []; output_queue = 7 ∷ []; success = 1 }

abbrev returned : State ℕ ℕ
returned = record sent {
  workers = left ∷ [];
  output_queue = [];
  output_closed = true;
  written = 7 ∷ [];
  returned = true;
}

steps_received : Steps scan (start scan objects) 3 received
unfolding repeat set_elem get_elem?
steps_received =
    more (more (more done (decode 7 [] refl (omega arith))) (close refl refl))
      (receive 0 7 [] refl refl)

steps_sent : Steps scan (start scan objects) 6 sent
unfolding repeat set_elem get_elem? hand_on count_status
steps_sent =
    more
      (more (more steps_received (handle 0 7 0 refl (omega arith) (omega arith)))
        (count status_success [] refl))
      (send 0 7 0 7 refl (omega arith))

steps_returned : Steps scan (start scan objects) 11 returned
unfolding repeat set_elem get_elem?
steps_returned =
    more
      (more
        (more (more (more steps_sent (next 0 7 1 refl (omega arith))) (leave 0 refl refl refl))
          (close_output refl (tt, tt) refl))
        (write 7 [] refl))
      (return refl refl refl)

steps-IsConsistent_example : IsConsistent scan sent
steps-IsConsistent_example = steps-IsConsistent scan objects 6 sent (omega arith) steps_sent

returned-written_example :
    total (hit scan is_seven) returned.written ≡ total (hits scan is_seven) objects
returned-written_example =
    returned-written scan is_seven objects 11 returned (omega arith) steps_returned refl

returned-counter_example :
    counter status_success returned + total (is_status status_success) returned.statuses
    ≡ total (reports scan status_success) objects
returned-counter_example =
    returned-counter scan status_success objects 11 returned (omega arith) steps_returned refl

steps-bound_example : 11 ≤ length objects * (3 + 4 * 1) + 1 + 3
steps-bound_example = steps-bound scan objects 11 returned steps_returned

steps-Returns_example : Returns scan received
steps-Returns_example = steps-Returns scan objects 3 received (omega arith) steps_received
