-- ===== src/Workers/Results.antt =====
-- What has been written when `Process` returns.
use tls_banner_grab_go.Base.{
  ℕ, ◌<◌, ◌≡◌, refl, sym, ◌∙◌, ap, Bool, true, inl, inr, List, [], ◌∷◌, arith, All,
}
use tls_banner_grab_go.Workers.{
  Worker, waiting, left, busy, sending, Scan, State, HasLeft, start, Steps,
}
use tls_banner_grab_go.Workers.Phases.{Phase, reading, draining, flushing}
use tls_banner_grab_go.Workers.Channels.{steps-IsConsistent}
use tls_banner_grab_go.Workers.Totals.{total, total-repeat}
use tls_banner_grab_go.Workers.Conservation.{hit, hits, worker_hits, owed, steps-owed}

module _ {A E : Type 0} (scan : Scan A E) (p : E → Bool) where
  left-hits : (ws : List (Worker A E)) → All HasLeft ws → total (worker_hits scan p) ws ≡ 0
  unfolding total worker_hits
  left-hits [] h = refl
  left-hits (left ∷ ws) (h, hs) = omega (arith, left-hits ws hs)
  left-hits (waiting ∷ ws) (h, hs) = elim h [ ]
  left-hits (busy x run ∷ ws) (h, hs) = elim h [ ]
  left-hits (sending x run e ∷ ws) (h, hs) = elim h [ ]

  owed-flushed :
      (s : State A E)
      → s.input ≡ []
      → s.process_queue ≡ []
      → All HasLeft s.workers
      → s.output_queue ≡ []
      → owed scan p s ≡ total (hit scan p) s.written
  unfolding owed total
  owed-flushed s a b c d = omega (
    arith,
    ap (total (hits scan p)) a,
    ap (total (hits scan p)) b,
    left-hits s.workers c,
    ap (total (hit scan p)) d,
  )

  owed-returned :
      (s : State A E) → Phase s → s.returned ≡ true → owed scan p s ≡ total (hit scan p) s.written
  owed-returned s (reading a b c d) h = absurd cc
  owed-returned s (draining a b c d e) h = absurd cc
  owed-returned s (flushing a b c d e (inl f)) h = absurd cc
  owed-returned s (flushing a b c d e (inr f)) h = owed-flushed s b c d f

  owed-start : (input : List A) → owed scan p (start scan input) ≡ total (hits scan p) input
  unfolding owed total worker_hits
  owed-start input = omega (arith, total-repeat (worker_hits scan p) scan.workers waiting refl)

  -- For any test of results, any order in which the goroutines take turns and at least one
  -- worker: when Process has returned, as many of the lines written hold for the test as of the
  -- encoded outcomes of all runs of all objects of the input. So each result is written exactly
  -- once, and no other.
  pub returned-written :
      (input : List A) (n : ℕ) (t : State A E)
      → 0 < scan.workers
      → Steps scan (start scan input) n t
      → t.returned ≡ true
      → total (hit scan p) t.written ≡ total (hits scan p) input
  returned-written input n t pos steps h =
      sym (owed-returned t (steps-IsConsistent scan input n t pos steps).phase h)
      ∙ steps-owed scan p (start scan input) n t steps
      ∙ owed-start input
