-- ===== src/Workers/Progress.antt =====
-- `Process` is never stuck, so it returns.
use tls_banner_grab_go.Base.{
  ltb, Bool-cases, ℕ, zero, suc, ◌<◌, ◌≤◌, ◌≡◌, refl, ap, Bool, true, false, ◌⊎◌, inl, inr, List,
  [], ◌∷◌, Option, none, some, length, get_elem?, arith, All,
}
use tls_banner_grab_go.Grabber.Steps.{Status}
use tls_banner_grab_go.Workers.{
  Worker, waiting, left, busy, sending, Scan, State, to_list, HasLeft, start, Step, decode, close,
  receive, handle, send, next, leave, close_output, write, return, count, Steps, done, more,
}
use tls_banner_grab_go.Workers.Phases.{
  Phase, reading, draining, flushing, IsActive, IsConsistent, active-HasLeft,
}
use tls_banner_grab_go.Workers.Channels.{step-IsConsistent, steps-IsConsistent}
use tls_banner_grab_go.Workers.Termination.{cost, step-cost}

module _ {A E : Type 0} where
  -- All workers have left, or one has not.
  survey :
      (ws : List (Worker A E))
      → All HasLeft ws ⊎ ((i : ℕ) × (w : Worker A E) × (get_elem? ws i ≡ some w) × IsActive w)
  unfolding get_elem?
  survey [] = inl tt
  survey (left ∷ ws) = elim (survey ws) [
    | inl hs ↦ inl (tt, hs)
    | inr (i, w, h, k) ↦ inr (suc i, w, h, k)
  ]
  survey (waiting ∷ ws) = inr (0, waiting, refl, tt)
  survey (busy x run ∷ ws) = inr (0, busy x run, refl, tt)
  survey (sending x run e ∷ ws) = inr (0, sending x run e, refl, tt)

  module _ (scan : Scan A E) where
    abbrev pub Moves : State A E → Type 0
    Moves s = (t : State A E) × Step scan s t

    -- A worker that waits, with nothing else to do.
    waiting-Moves :
        (s : State A E) (i : ℕ) (input queue : List A) (closed : Bool)
        → 0 < scan.workers
        → get_elem? s.workers i ≡ some waiting
        → s.input ≡ input
        → s.process_queue ≡ queue
        → s.process_closed ≡ closed
        → Moves s
    waiting-Moves s i input (x ∷ xs) closed pos h a b c = (_, receive i x xs h b)
    waiting-Moves s i input [] true pos h a b c = (_, leave i h b c)
    waiting-Moves s i [] [] false pos h a b c = (_, close a c)
    waiting-Moves s i (x ∷ xs) [] false pos h a b c =
        (_, decode x xs a (omega (arith, ap length b)))

    to_list-one : (o : Option Status) → length (to_list o) ≤ 1
    to_list-one none = omega arith
    to_list-one (some r) = omega arith

    active-Moves :
        (s : State A E) (i : ℕ) (w : Worker A E)
        → 0 < scan.workers
        → s.output_queue ≡ []
        → s.statuses ≡ []
        → get_elem? s.workers i ≡ some w
        → IsActive w
        → Moves s
    active-Moves s i left pos a b h k = elim k [ ]
    active-Moves s i waiting pos a b h k =
        waiting-Moves s i s.input s.process_queue s.process_closed pos h refl refl refl
    active-Moves s i (sending x run e) pos a b h k =
        (_, send i x run e h (omega (arith, ap length a)))
    active-Moves s i (busy x run) pos a b h k = elim (Bool-cases (ltb run scan.run_count)) [
      | inl runs ↦ (
        _,
        handle i x run h (ground arith)
            (omega (arith, ap length b, to_list-one (scan.outcome x run).status)),
      )
      | inr over ↦ (_, next i x run h (ground arith))
    ]

    none_left : (ws : List (Worker A E)) → 0 < length ws → All HasLeft ws → All IsActive ws → ⊥
    none_left [] pos hs ks = omega arith
    none_left (v ∷ ws) pos (h, hs) (k, ks) = active-HasLeft v k h

    -- With all workers gone.
    left-Moves :
        (s : State A E)
        → 0 < length s.workers
        → All HasLeft s.workers
        → s.output_queue ≡ []
        → s.returned ≡ false
        → Phase s
        → Moves s
    left-Moves s pos hs a b (reading p q r u) = absurd (none_left s.workers pos hs q)
    left-Moves s pos hs a b (draining p q r u v) = (_, close_output p hs u)
    left-Moves s pos hs a b (flushing p q r u v w) = (_, return v a b)

    calm-Moves :
        (s : State A E) (output : List E) (statuses : List Status)
        → 0 < scan.workers
        → IsConsistent scan s
        → s.returned ≡ false
        → s.output_queue ≡ output
        → s.statuses ≡ statuses
        → Moves s
    calm-Moves s (e ∷ es) rs pos c h a b = (_, write e es a)
    calm-Moves s [] (r ∷ rs) pos c h a b = (_, count r rs b)
    calm-Moves s [] [] pos c h a b = elim (survey s.workers) [
      | inl hs ↦ left-Moves s (omega (arith, c.size)) hs a h c.phase
      | inr (i, w, k, active) ↦ active-Moves s i w pos a b k active
    ]

    prepend :
        (s t : State A E) (m : ℕ) (u : State A E)
        → Step scan s t
        → Steps scan t m u
        → Steps scan s (suc m) u
    prepend s t m u step done = more done step
    prepend s t m u step (more {n = k} {t = v} before last) =
        more (prepend s t k v step before) last

    -- The steps to come, of which there are at most `fuel`.
    abbrev pub Returns : State A E → Type 0
    Returns t = (m : ℕ) × (u : State A E) × Steps scan t m u × (u.returned ≡ true)

    moving-Returns :
        (fuel : ℕ) (t : State A E)
        → 0 < scan.workers
        → IsConsistent scan t
        → cost scan t < fuel
        → Returns t
    moving-Returns zero t pos c h = absurd (omega arith)
    moving-Returns (suc fuel) t pos c h = elim (Bool-cases t.returned) [
      | inl ended ↦ (0, t, done, ended)
      | inr going ↦
          (let (u, step) = calm-Moves t t.output_queue t.statuses pos c going refl refl in
            let (m, v, steps, ended) =
              moving-Returns fuel u pos (step-IsConsistent scan t u pos c step)
                (omega (arith, step-cost scan t u step)) in
            (suc m, v, prepend t u m v step steps, ended))
    ]

    -- With at least one worker there is no deadlock: from every state that steps from the start
    -- lead to, further steps lead to one where Process has returned.
    pub steps-Returns :
        (input : List A) (n : ℕ) (t : State A E)
        → 0 < scan.workers
        → Steps scan (start scan input) n t
        → Returns t
    steps-Returns input n t pos steps =
        moving-Returns (suc (cost scan t)) t pos (steps-IsConsistent scan input n t pos steps)
          (omega arith)
