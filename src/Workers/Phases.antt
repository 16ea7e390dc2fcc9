-- ===== src/Workers/Phases.antt =====
-- The order in which `Process` closes its channels and its workers leave.
use tls_banner_grab_go.Base.{
  ℕ, suc, ◌<◌, ◌≤◌, ◌≡◌, refl, sym, ◌∙◌, true, false, ◌⊎◌, inl, inr, List, [], ◌∷◌, ◌++◌, Option,
  none, some, length, get_elem?, arith, All,
}
use tls_banner_grab_go.Grabber.Steps.{Status, status_success, status_failure}
use mathlib.Core.Path.{subst}
use tls_banner_grab_go.Workers.Totals.{All-set_elem, All-get_elem?}
use tls_banner_grab_go.Workers.{
  Worker, waiting, left, busy, sending, Scan, State, set_elem, to_list, HasLeft, count_status,
  hand_on, capacity, Step, decode, close, receive, handle, send, next, leave, close_output, write,
  return, count,
}

module _ {A E : Type 0} where
  abbrev pub IsActive : Worker A E → Type 0
  IsActive left = ⊥
  IsActive waiting = Unit
  IsActive (busy x run) = Unit
  IsActive (sending x run e) = Unit

  -- The input is being read; or it has ended, and no worker leaves before the queue is empty; or all
  -- have left, the output channel is closed, and `Process` returns when it is empty.
  pub data Phase (s : State A E) : Type 0 where
    reading :
        s.process_closed ≡ false
        → All IsActive s.workers
        → s.output_closed ≡ false
        → s.returned ≡ false
        → Phase s
    draining :
        s.process_closed ≡ true
        → s.input ≡ []
        → All IsActive s.workers ⊎ (s.process_queue ≡ [])
        → s.output_closed ≡ false
        → s.returned ≡ false
        → Phase s
    flushing :
        s.process_closed ≡ true
        → s.input ≡ []
        → s.process_queue ≡ []
        → All HasLeft s.workers
        → s.output_closed ≡ true
        → (s.returned ≡ false) ⊎ (s.output_queue ≡ [])
        → Phase s

  pub active-HasLeft : (w : Worker A E) → IsActive w → HasLeft w → ⊥
  active-HasLeft left h k = elim h [ ]
  active-HasLeft waiting h k = elim k [ ]
  active-HasLeft (busy x run) h k = elim k [ ]
  active-HasLeft (sending x run e) h k = elim k [ ]

  module _ (scan : Scan A E) where
    -- The phases, and the bounds of the channels.
    pub record IsConsistent (s : State A E) : Type 0 where
      pub size : length s.workers ≡ scan.workers
      pub phase : Phase s
      pub process_bound : length s.process_queue ≤ capacity scan
      pub output_bound : length s.output_queue ≤ capacity scan
      pub status_bound : length s.statuses ≤ capacity scan

    -- A worker that has not left moves on, with the queues as they are or shorter.
    abbrev Stays : State A E → State A E → Type 0
    Stays s t =
        (t.process_closed ≡ s.process_closed)
        × (t.input ≡ s.input)
        × (t.output_closed ≡ s.output_closed)
        × (t.returned ≡ s.returned)

    active-Phase :
        (s t : State A E) (i : ℕ) (w v : Worker A E)
        → Stays s t
        → t.workers ≡ set_elem i v s.workers
        → get_elem? s.workers i ≡ some w
        → IsActive w
        → IsActive v
        → (s.process_queue ≡ [] → t.process_queue ≡ [])
        → Phase s
        → Phase t
    active-Phase s t i w v (a, b, c, d) e h hw hv k (reading p q r u) =
        reading (a ∙ p) (subst (All IsActive) (sym e) (All-set_elem IsActive i v s.workers hv q))
          (c ∙ r) (d ∙ u)
    active-Phase s t i w v (a, b, c, d) e h hw hv k (draining p q (inl r) u x) =
        draining (a ∙ p) (b ∙ q)
          (inl (subst (All IsActive) (sym e) (All-set_elem IsActive i v s.workers hv r))) (c ∙ u)
          (d ∙ x)
    active-Phase s t i w v (a, b, c, d) e h hw hv k (draining p q (inr r) u x) =
        draining (a ∙ p) (b ∙ q) (inr (k r)) (c ∙ u) (d ∙ x)
    active-Phase s t i w v m e h hw hv k (flushing p q r u x y) =
        absurd (active-HasLeft w hw (All-get_elem? HasLeft i w s.workers u h))

    worker-Phase :
        (s t : State A E) (i : ℕ) (w v : Worker A E)
        → Stays s t
        → t.workers ≡ set_elem i v s.workers
        → get_elem? s.workers i ≡ some w
        → IsActive w
        → IsActive v
        → t.process_queue ≡ s.process_queue
        → Phase s
        → Phase t
    worker-Phase s t i w v m e h hw hv k = active-Phase s t i w v m e h hw hv (λ q. k ∙ q)

    decode-Phase :
        (s : State A E) (x : A) (xs queue : List A)
        → s.input ≡ x ∷ xs
        → Phase s
        → Phase (record s { input = xs; process_queue = queue })
    decode-Phase s x xs queue h (reading p q r u) = reading p q r u
    decode-Phase s x xs queue h (draining p q r u v) = absurd cc
    decode-Phase s x xs queue h (flushing p q r u v w) = absurd cc

    close-Phase :
        (s : State A E)
        → s.input ≡ []
        → s.process_closed ≡ false
        → Phase s
        → Phase (record s { process_closed = true })
    close-Phase s h k (reading p q r u) = draining refl h (inl q) r u
    close-Phase s h k (draining p q r u v) = absurd cc
    close-Phase s h k (flushing p q r u v w) = absurd cc

    hand_on-Phase :
        (s : State A E) (i : ℕ) (x : A) (run : ℕ) (o : Option E)
        → get_elem? s.workers i ≡ some (busy x run)
        → Phase s
        → Phase (hand_on i x run o s)
    unfolding hand_on
    hand_on-Phase s i x run none h =
        worker-Phase s _ i (busy x run) (busy x (suc run)) (refl, refl, refl, refl) refl h tt tt
          refl
    hand_on-Phase s i x run (some e) h =
        worker-Phase s _ i (busy x run) (sending x run e) (refl, refl, refl, refl) refl h tt tt refl

    statuses-Phase :
        (s : State A E) (rs : List Status) → Phase s → Phase (record s { statuses = rs })
    statuses-Phase s rs (reading p q r u) = reading p q r u
    statuses-Phase s rs (draining p q r u v) = draining p q r u v
    statuses-Phase s rs (flushing p q r u v w) = flushing p q r u v w

    count_status-Phase : (r : Status) (s : State A E) → Phase s → Phase (count_status r s)
    unfolding count_status
    count_status-Phase status_success s (reading p q r u) = reading p q r u
    count_status-Phase status_success s (draining p q r u v) = draining p q r u v
    count_status-Phase status_success s (flushing p q r u v w) = flushing p q r u v w
    count_status-Phase status_failure s (reading p q r u) = reading p q r u
    count_status-Phase status_failure s (draining p q r u v) = draining p q r u v
    count_status-Phase status_failure s (flushing p q r u v w) = flushing p q r u v w

    leave-Phase :
        (s : State A E) (i : ℕ)
        → get_elem? s.workers i ≡ some waiting
        → s.process_queue ≡ []
        → s.process_closed ≡ true
        → Phase s
        → Phase (record s { workers = set_elem i left s.workers })
    leave-Phase s i h k l (reading p q r u) = absurd cc
    leave-Phase s i h k l (draining p q r u v) = draining p q (inr k) u v
    leave-Phase s i h k l (flushing p q r u v w) =
        flushing p q r (All-set_elem HasLeft i left s.workers tt u) v w

    -- Some worker has left the queue empty, since there is one.
    emptied :
        (ws : List (Worker A E)) (queue : List A)
        → 0 < length ws
        → All HasLeft ws
        → All IsActive ws ⊎ (queue ≡ [])
        → queue ≡ []
    emptied [] queue pos h k = absurd (omega arith)
    emptied (v ∷ ws) queue pos (h, hs) (inl (k, ks)) = absurd (active-HasLeft v k h)
    emptied (v ∷ ws) queue pos h (inr k) = k

    close_output-Phase :
        (s : State A E)
        → 0 < length s.workers
        → s.process_closed ≡ true
        → All HasLeft s.workers
        → s.output_closed ≡ false
        → Phase s
        → Phase (record s { output_closed = true })
    close_output-Phase s pos h k l (reading p q r u) = absurd cc
    close_output-Phase s pos h k l (draining p q r u v) =
        flushing p q (emptied s.workers s.process_queue pos k r) k refl (inl v)
    close_output-Phase s pos h k l (flushing p q r u v w) = absurd cc

    write-Phase :
        (s : State A E) (e : E) (es written : List E)
        → s.output_queue ≡ e ∷ es
        → Phase s
        → Phase (record s { output_queue = es; written = written })
    write-Phase s e es written h (reading p q r u) = reading p q r u
    write-Phase s e es written h (draining p q r u v) = draining p q r u v
    write-Phase s e es written h (flushing p q r u v (inl w)) = flushing p q r u v (inl w)
    write-Phase s e es written h (flushing p q r u v (inr w)) = absurd cc

    return-Phase :
        (s : State A E)
        → s.output_closed ≡ true
        → s.output_queue ≡ []
        → Phase s
        → Phase (record s { returned = true })
    return-Phase s h k (reading p q r u) = absurd cc
    return-Phase s h k (draining p q r u v) = absurd cc
    return-Phase s h k (flushing p q r u v w) = flushing p q r u v (inr k)

    pub step-Phase : (s t : State A E) → 0 < scan.workers → IsConsistent s → Step scan s t → Phase t
    step-Phase s t pos c (decode x xs h k) =
        decode-Phase s x xs (s.process_queue ++ (x ∷ [])) h c.phase
    step-Phase s t pos c (close h k) = close-Phase s h k c.phase
    step-Phase s t pos c (receive i x xs h k) =
        active-Phase s t i waiting (busy x 0) (refl, refl, refl, refl) refl h tt tt
          (λ q. absurd (let e : x ∷ xs ≡ [] = sym k ∙ q in cc)) c.phase
    step-Phase s t pos c (handle i x run h k l) =
        hand_on-Phase (record s { statuses = s.statuses ++ to_list (scan.outcome x run).status }) i
          x run (scan.outcome x run).encoded h
          (statuses-Phase s (s.statuses ++ to_list (scan.outcome x run).status) c.phase)
    step-Phase s t pos c (send i x run e h k) =
        worker-Phase s t i (sending x run e) (busy x (suc run)) (refl, refl, refl, refl) refl h tt
          tt refl c.phase
    step-Phase s t pos c (next i x run h k) =
        worker-Phase s t i (busy x run) waiting (refl, refl, refl, refl) refl h tt tt refl c.phase
    step-Phase s t pos c (leave i h k l) = leave-Phase s i h k l c.phase
    step-Phase s t pos c (close_output h k l) =
        close_output-Phase s (omega (arith, c.size)) h k l c.phase
    step-Phase s t pos c (write e es h) = write-Phase s e es (s.written ++ (e ∷ [])) h c.phase
    step-Phase s t pos c (return h k l) = return-Phase s h k c.phase
    step-Phase s t pos c (count r rs h) =
        count_status-Phase r (record s { statuses = rs }) (statuses-Phase s rs c.phase)
