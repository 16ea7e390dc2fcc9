-- ===== src/Flags/Scans.antt =====
-- `main` of main.go, from the flags to the return of `Process`.
use tls_banner_grab_go.Base.{ℕ, ◌+◌, ◌*◌, ◌≤◌, ◌≡◌, Bool, true, List, some, length}
use tls_banner_grab_go.Config.{Config}
use tls_banner_grab_go.Workers.{Outcome, Scan, State, Steps, start, done}
use tls_banner_grab_go.Workers.Totals.{total}
use tls_banner_grab_go.Workers.Conservation.{hit, hits}
use tls_banner_grab_go.Workers.Termination.{steps-bound}
use tls_banner_grab_go.Workers.Progress.{steps-Returns}
use tls_banner_grab_go.Workers.Results.{returned-written}
use tls_banner_grab_go.Workers.Counts.{is_status, counter, reports, returned-counter}
use tls_banner_grab_go.Grabber.Steps.{Status}
use tls_banner_grab_go.Flags.{Flags, init}
use tls_banner_grab_go.Flags.Accepted.{init-IsAccepted}

module _ {A E : Type 0} where
  -- What `main` hands to `Process`, with `RunCount` of the `GrabWorker`.
  abbrev pub main_scan : Config → (A → ℕ → Outcome E) → Scan A E
  main_scan config outcome = record {
    workers = config.senders;
    run_count = config.connections_per_host;
    outcome = outcome;
  }

  -- `Process` has returned behind `m` steps, every outcome is written once, and every status is
  -- counted once or waits to be counted.
  pub record IsScanned (scan : Scan A E) (input : List A) (m : ℕ) (u : State A E) : Type 0 where
    pub steps : Steps scan (start scan input) m u
    pub returned : u.returned ≡ true
    pub bound : m ≤ length input * (3 + 4 * scan.run_count) + scan.workers + 3
    pub results : (p : E → Bool) → total (hit scan p) u.written ≡ total (hits scan p) input
    pub counters :
        (q : Status) → counter q u + total (is_status q) u.statuses ≡ total (reports scan q) input

  -- For every configuration that the checks of main.go accept, any input and any outcomes, the
  -- scan that main starts can run to the return of Process, within three steps for each object,
  -- four for each of its runs, one for each sender, and three; the lines then written are the
  -- encoded outcomes of all runs of all objects, as often, by any test of results, and each
  -- status that a run reports is counted or waits to be counted.
  pub init-IsScanned :
      (flags : Flags) (c config : Config) (outcome : A → ℕ → Outcome E) (input : List A)
      → init flags c ≡ some config
      → (m : ℕ) × (u : State A E) × IsScanned (main_scan config outcome) input m u
  init-IsScanned flags c config outcome input h =
      let scan = main_scan config outcome in
      let pos = (init-IsAccepted flags c config h).senders in
      let (m, u, steps, ended) = steps-Returns scan input 0 (start scan input) pos done in
      (
        m,
        u,
        record {
          steps = steps;
          returned = ended;
          bound = steps-bound scan input m u steps;
          results = λ p. returned-written scan p input m u pos steps ended;
          counters = λ q. returned-counter scan q input m u pos steps ended;
        },
      )
