-- ===== src/Flags/HttpScans.antt =====
-- A scan over HTTP, from the flags of main.go through `Process` and `GrabBanner` to the lines written.
use tls_banner_grab_go.Base.{ℕ, ◌<◌, ◌≡◌, false, List, Option, some, length}
use tls_banner_grab_go.Net.{ok}
use tls_banner_grab_go.Config.{Config}
use tls_banner_grab_go.Grabber.Steps.{World, GrabTarget}
use tls_banner_grab_go.Grabber.Handler.{Encoder, Handled, run_handler, run_handler-Handled}
use tls_banner_grab_go.Workers.{Outcome, State}
use tls_banner_grab_go.Flags.{Flags, init}
use tls_banner_grab_go.Flags.Accepted.{init-IsAccepted}
use tls_banner_grab_go.Flags.Scans.{main_scan, IsScanned, init-IsScanned}

module _ {S : Type 0} (w : World S) (config : Config) (encoder : Encoder) where
  -- An object of the input, with what the network will be when each of its runs starts.
  abbrev pub Object : Type 0
  Object = Option GrabTarget × (ℕ → S)

  -- The runs of the handler end with these outcomes, whose grabs are within the limits.
  abbrev pub Runs : (Object → ℕ → Outcome (List ℕ)) → Type 0
  Runs outcome =
      (x : Object) (run : ℕ)
      → (s : S) × (run_handler w config encoder x.0 (x.1 run) ≡ (ok (outcome x run), s))
        × Handled w config encoder x.0 (outcome x run)

  pub record IsHttpScanned (input : List Object) : Type 0 where
    pub outcome : Object → ℕ → Outcome (List ℕ)
    pub runs : Runs outcome
    pub steps : ℕ
    pub end : State Object (List ℕ)
    pub scanned : IsScanned (main_scan config outcome) input steps end

  -- For every configuration that the checks of main.go accept, with an endpoint for HTTP and
  -- without SSH, any input and whatever the servers send: no run of the handler ends the process
  -- or runs out of fuel, and a run on a target comes to the status and the JSON of a grab with
  -- the address and domain of the target and an HTTP log with at most as many redirecting
  -- responses as the limit and one, where a negative limit counts as 0; each of them, as the last
  -- response, has a body no longer than its announced length and 1024 times the size of the
  -- options as a signed number of 64 bits, and empty where that is negative. The scan can run to
  -- the return of Process; then the outcomes of all runs of all objects are written, as often,
  -- and each status is counted or waits to be counted.
  pub init-IsHttpScanned :
      (flags : Flags) (c : Config) (input : List Object)
      → init flags c ≡ some config
      → config.xssh ≡ false
      → 0 < length config.http.endpoint
      → IsHttpScanned input
  init-IsHttpScanned flags c input h x e =
      let method = (init-IsAccepted flags c config h).method in
      let runs =
        λ (o : Object) (run : ℕ). run_handler-Handled w config encoder o.0 (o.1 run) x e method in
      let outcome = λ (o : Object) (run : ℕ). (runs o run).0 in
      let (m, u, scanned) = init-IsScanned flags c config outcome input h in
      record {
        outcome = outcome;
        runs = λ o run. ((runs o run).1, (runs o run).2, (runs o run).3);
        steps = m;
        end = u;
        scanned = scanned;
      }
