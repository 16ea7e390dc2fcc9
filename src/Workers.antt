-- ===== src/Workers.antt =====
-- ztools/processing/input.go and zlib/processing.go: `Process`, its workers and the counters of a
-- `GrabWorker`, as steps of one state. A goroutine that waits for a channel has no step.
pub mod Totals
pub mod Phases
pub mod Channels
pub mod Conservation
pub mod Termination
pub mod Progress
pub mod Results
pub mod Counts
mod Tests
use tls_banner_grab_go.Base.{
  ℕ, zero, suc, ◌+◌, ◌-◌, ◌*◌, ◌<◌, ◌≤◌, ◌≡◌, Bool, true, false, List, [], ◌∷◌, ◌++◌, Option, none,
  some, length, get_elem?, All,
}
use tls_banner_grab_go.Grabber.Steps.{Status, status_success, status_failure}

-- The loop of a worker, over objects `A` and encoded results `E`: it waits for an object, it has
-- done some runs of one, it has a result to send, or it has left.
pub data Worker (A E : Type 0) : Type 0 where
  waiting left : Worker A E
  busy : A → ℕ → Worker A E
  sending : A → ℕ → E → Worker A E

-- What a run of the handler does: the status that a grab reports, and the encoded result, which is
-- none where `Marshal` fails.
pub record Outcome (E : Type 0) : Type 0 where
  pub status : Option Status
  pub encoded : Option E

-- A scan: the number of workers, `RunCount`, and the outcomes of an object's runs, by their numbers.
-- An object is a line of the input with what the network will answer; nil is one.
pub record Scan (A E : Type 0) : Type 0 where
  pub workers : ℕ
  pub run_count : ℕ
  pub outcome : A → ℕ → Outcome E

-- The objects not yet decoded, the channels and whether they are closed, the workers, what is
-- written, the errors that were logged for results that could not be encoded, the counters, and whether
-- `Process` has returned.
pub record State (A E : Type 0) : Type 0 where
  pub input : List A
  pub process_queue : List A
  pub process_closed : Bool
  pub workers : List (Worker A E)
  pub output_queue : List E
  pub output_closed : Bool
  pub written : List E
  pub logged : ℕ
  pub statuses : List Status
  pub success : ℕ
  pub failure : ℕ
  pub returned : Bool

-- `set_elem i x xs` puts `x` at place `i`.
unfoldable pub set_elem {ℓ} : {A : Type ℓ} → ℕ → A → List A → List A
set_elem i y [] = []
set_elem zero y (x ∷ xs) = y ∷ xs
set_elem (suc i) y (x ∷ xs) = x ∷ set_elem i y xs

unfoldable pub repeat {ℓ} : {A : Type ℓ} → ℕ → A → List A
repeat zero x = []
repeat (suc n) x = x ∷ repeat n x

abbrev pub to_list {ℓ} : {A : Type ℓ} → Option A → List A
to_list none = []
to_list (some x) = x ∷ []

module _ {A E : Type 0} where
  abbrev pub HasLeft : Worker A E → Type 0
  HasLeft left = Unit
  HasLeft waiting = ⊥
  HasLeft (busy x run) = ⊥
  HasLeft (sending x run e) = ⊥

  unfoldable pub count_status : Status → State A E → State A E
  count_status status_success s = record s { success = suc s.success }
  count_status status_failure s = record s { failure = suc s.failure }

  -- What a worker does with the result of a run.
  unfoldable pub hand_on : ℕ → A → ℕ → Option E → State A E → State A E
  hand_on i x run none s = record s {
    workers = set_elem i (busy x (suc run)) s.workers;
    logged = suc s.logged;
  }
  hand_on i x run (some e) s = record s { workers = set_elem i (sending x run e) s.workers }

  module _ (scan : Scan A E) where
    -- `workers*4`, of all three channels.
    abbrev pub capacity : ℕ
    capacity = scan.workers * 4

    -- `Process` before its first object.
    abbrev pub start : List A → State A E
    start input = record {
      input = input;
      process_queue = [];
      process_closed = false;
      workers = repeat scan.workers waiting;
      output_queue = [];
      output_closed = false;
      written = [];
      logged = 0;
      statuses = [];
      success = 0;
      failure = 0;
      returned = false;
    }

    -- The goroutines take turns in any order.
    pub data Step (s : State A E) : State A E → Type 0 where
      -- `Process` reads an object and sends it, or closes the channel at the end.
      decode :
          (x : A) (xs : List A)
          → s.input ≡ x ∷ xs
          → length s.process_queue < capacity
          → Step s (record s { input = xs; process_queue = s.process_queue ++ (x ∷ []) })
      close : s.input ≡ [] → s.process_closed ≡ false → Step s (record s { process_closed = true })
      -- A worker receives an object, runs the handler on it, sends the result, and ends.
      receive :
          (i : ℕ) (x : A) (xs : List A)
          → get_elem? s.workers i ≡ some waiting
          → s.process_queue ≡ x ∷ xs
          → Step s (record s { process_queue = xs; workers = set_elem i (busy x 0) s.workers })
      handle :
          (i : ℕ) (x : A) (run : ℕ)
          → get_elem? s.workers i ≡ some (busy x run)
          → run < scan.run_count
          → length s.statuses + length (to_list (scan.outcome x run).status) ≤ capacity
          → Step s (
              hand_on i x run
                (scan.outcome x run).encoded
                (record s { statuses = s.statuses ++ to_list (scan.outcome x run).status }))
      send :
          (i : ℕ) (x : A) (run : ℕ) (e : E)
          → get_elem? s.workers i ≡ some (sending x run e)
          → length s.output_queue < capacity
          → Step s (record s {
            output_queue = s.output_queue ++ (e ∷ []);
            workers = set_elem i (busy x (suc run)) s.workers;
          })
      next :
          (i : ℕ) (x : A) (run : ℕ)
          → get_elem? s.workers i ≡ some (busy x run)
          → scan.run_count ≤ run
          → Step s (record s { workers = set_elem i waiting s.workers })
      leave :
          (i : ℕ)
          → get_elem? s.workers i ≡ some waiting
          → s.process_queue ≡ []
          → s.process_closed ≡ true
          → Step s (record s { workers = set_elem i left s.workers })
      -- `workerDone.Wait()` and `close(outputQueue)`
      close_output :
          s.process_closed ≡ true
          → All HasLeft s.workers
          → s.output_closed ≡ false
          → Step s (record s { output_closed = true })
      -- The encoder of the output.
      write :
          (e : E) (es : List E)
          → s.output_queue ≡ e ∷ es
          → Step s (record s { output_queue = es; written = s.written ++ (e ∷ []) })
      -- `outputDone.Wait()`, and the return behind `Done()`
      return :
          s.output_closed ≡ true
          → s.output_queue ≡ []
          → s.returned ≡ false
          → Step s (record s { returned = true })
      -- The counting goroutine of `NewGrabWorker`.
      count :
          (r : Status) (rs : List Status)
          → s.statuses ≡ r ∷ rs
          → Step s (count_status r (record s { statuses = rs }))

    -- A number of steps from a state.
    pub data Steps (s : State A E) : ℕ → State A E → Type 0 where
      done : Steps s 0 s
      more : {n : ℕ} {t u : State A E} → Steps s n t → Step t u → Steps s (suc n) u
