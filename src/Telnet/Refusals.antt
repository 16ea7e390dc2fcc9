-- ===== src/Telnet/Refusals.antt =====
-- `NegotiateOptions` against a server whose reads hold commands and text.
use tls_banner_grab_go.Base.{
  ℕ, zero, suc, ◌+◌, ◌≤◌, ◌<◌, ◌≡◌, ◌≢◌, refl, sym, ap, ◌∙◌, false, not, List, [], ◌∷◌, ◌++◌, none,
  length, drop, replicate, ◌==◌, arith, All, All-append, length-append, take-append, append_assoc,
  length-drop, length-replicate,
}
use tls_banner_grab_go.Base.Int.{pos, ◌-ℤ◌, int_laws}
use tls_banner_grab_go.Net.{ok, NetConn, fill, make}
use tls_banner_grab_go.Telnet.{
  iac, read_buffer_length, TelnetLog, Negotiation, handle_commands, start_commands,
  finished_negotiating, take_banner, negotiate_round, negotiate_options,
}
use tls_banner_grab_go.Telnet.Commands.{
  Segment, code, IsText, HasText, encode, replies, record_all, whole, after_segments,
  handle_commands-encode,
}

zeros-IsText : (n : ℕ) → IsText (replicate n 0)
unfolding replicate
zeros-IsText zero = tt
zeros-IsText (suc n) = (ground arith, zeros-IsText n)

pub drop-IsText : (k : ℕ) (xs : List ℕ) → IsText xs → IsText (drop k xs)
unfolding drop
drop-IsText zero xs h = h
drop-IsText (suc k) [] h = h
drop-IsText (suc k) (x ∷ xs) h = drop-IsText k xs h.1

-- What lies behind the read's bytes in the buffer.
abbrev pub unused : ℕ → List ℕ
unused k = drop k (make read_buffer_length)

pub unused-IsText : (k : ℕ) → IsText (unused k)
unfolding make
unused-IsText k = drop-IsText k _ (zeros-IsText read_buffer_length)

pub length-fill :
    (got : List ℕ)
    → length got ≤ read_buffer_length
    → length (fill got (make read_buffer_length)) ≡ read_buffer_length
unfolding fill make
length-fill got h = omega (
  arith,
  length-append got (unused (length got)),
  length-drop (length got) (make read_buffer_length),
  length-replicate {A = ℕ} read_buffer_length 0,
)

pub length-encode : (gs : List Segment) → length gs + length gs + length gs ≤ length (encode gs)
length-encode [] = omega arith
length-encode (g ∷ gs) =
    omega (arith, length-encode gs, length-append g.text (iac ∷ code g.verb ∷ g.option ∷ encode gs))

pub buffer-start :
    (gs : List Segment) (text : List ℕ) (log : TelnetLog)
    → length (encode gs ++ text) ≤ read_buffer_length
    → (start_commands log (encode gs ++ text)).read_buffer
      ≡ whole (encode gs ++ (text ++ unused (length (encode gs ++ text))))
unfolding start_commands
buffer-start gs text log h =
    let sent : List ℕ = encode gs ++ text in
    let cells : List ℕ = fill sent (make read_buffer_length) in
    ap (λ (k : ℕ). record { cells = cells; len = k }) (sym (length-fill sent h))
    ∙ ap whole (unfold fill in append_assoc (encode gs) text (unused (length sent)))

-- The commands in one read: all are handled, and the text behind them is at the buffer's front.
pub handle_commands-read :
    (gs : List Segment) (text : List ℕ) (log : TelnetLog)
    → All HasText gs
    → IsText text
    → length (encode gs ++ text) < read_buffer_length
    → handle_commands (suc read_buffer_length) (start_commands log (encode gs ++ text)) ≡ (
      ok tt,
      after_segments gs
          (text ++ unused (length (encode gs ++ text)))
          (start_commands log (encode gs ++ text)),
    )
unfolding start_commands fill
handle_commands-read gs text log hs ht h =
    let sent : List ℕ = encode gs ++ text in
    let n = start_commands log sent in
    handle_commands-encode gs (text ++ unused (length sent)) (suc read_buffer_length) n hs
      (All-append (λ b. b ≢ iac) text _ ht (unused-IsText (length sent)))
      (buffer-start gs text log (omega arith))
      (omega (arith, length-encode gs, length-append (encode gs) text))

lt→ne : (a b : ℕ) → a < b → (a == b) ≡ false
lt→ne a b h = ground arith

module _ {S : Type 0} (conn : NetConn S) where
  -- The server sends commands and text in one read, and takes the replies in one write.
  pub record Sends (gs : List Segment) (text : List ℕ) (s s' : S) : Type 0 where
    pub between : S
    pub count : ℕ
    pub reads :
        conn.read read_buffer_length s
        ≡ (record { bytes = encode gs ++ text; error = none }, between)
    pub writes : conn.write (replies gs) between ≡ (record { count = count; error = none }, s')
    pub segments : All HasText gs
    pub plain : IsText text
    pub fits : length (encode gs ++ text) < read_buffer_length

  pub round_replies :
      (bytes : List ℕ) (log : TelnetLog) (n : Negotiation) {s s₁ s₂ : S} (k : ℕ)
      → conn.read read_buffer_length s ≡ (record { bytes = bytes; error = none }, s₁)
      → length bytes < read_buffer_length
      → handle_commands (suc read_buffer_length) (start_commands log bytes) ≡ (ok tt, n)
      → conn.write n.ret_buffer s₁ ≡ (record { count = k; error = none }, s₂)
      → negotiate_round conn log s ≡ (ok n, n.log, s₂)
  unfolding negotiate_round
  round_replies bytes log n k r h c w = ground arith

  negotiate_round-Sends :
      (gs : List Segment) (text : List ℕ) (log : TelnetLog) {s s' : S}
      → Sends gs text s s'
      → negotiate_round conn log s ≡ (
        ok (
            after_segments gs
              (text ++ unused (length (encode gs ++ text)))
              (start_commands log (encode gs ++ text))),
        record_all gs log,
        s',
      )
  unfolding start_commands
  negotiate_round-Sends gs text log h =
      round_replies (encode gs ++ text) log _ h.count h.reads h.fits
        (handle_commands-read gs text log h.segments h.plain h.fits) h.writes

pub data_left :
    (gs : List Segment) (text : List ℕ)
    → pos (length (encode gs ++ text)) -ℤ pos (length (encode gs)) ≡ pos (length text)
data_left gs text = omega (int_laws, length-append (encode gs) text)

finished-pos :
    (total left : ℕ) (n : Negotiation)
    → n.num_bytes ≡ total
    → n.num_data_bytes ≡ pos left
    → finished_negotiating n ≡ not (left == 0)
unfolding finished_negotiating ◌-ℤ◌
finished-pos total left n e f = rw (e, f, finished_negotiating) (ground arith)

pub take_banner-pos :
    (text tail : List ℕ) (n : Negotiation)
    → n.read_buffer.cells ≡ text ++ tail
    → n.num_data_bytes ≡ pos (length text)
    → take_banner n ≡ (ok tt, record n.log { banner = text })
unfolding take_banner
take_banner-pos text tail n e f =
    rw (f, take_banner, e, take-append) (ground (arith, length-append text tail))

-- The variables at the end of a round.
round_end : List Segment → List ℕ → TelnetLog → Negotiation
round_end gs text log =
    after_segments gs (text ++ unused (length (encode gs ++ text)))
      (start_commands log (encode gs ++ text))

finished-round_end :
    (gs : List Segment) (text : List ℕ) (log : TelnetLog)
    → finished_negotiating (round_end gs text log) ≡ not (length text == 0)
unfolding round_end start_commands
finished-round_end gs text log =
    finished-pos (length (encode gs ++ text)) (length text) _ refl (data_left gs text)

take_banner-round_end :
    (gs : List Segment) (text : List ℕ) (log : TelnetLog)
    → take_banner (round_end gs text log) ≡ (ok tt, record (record_all gs log) { banner = text })
unfolding round_end start_commands
take_banner-round_end gs text log = take_banner-pos text _ _ refl (data_left gs text)

record_all-append :
    (gs hs : List Segment) (log : TelnetLog)
    → record_all (gs ++ hs) log ≡ record_all hs (record_all gs log)
record_all-append [] hs log = refl
record_all-append (g ∷ gs) hs log = record_all-append gs hs _

module _ {S : Type 0} (conn : NetConn S) where
  round-round_end :
      (gs : List Segment) (text : List ℕ) (log : TelnetLog) {s s' : S}
      → Sends conn gs text s s'
      → negotiate_round conn log s ≡ (ok (round_end gs text log), record_all gs log, s')
  unfolding round_end
  round-round_end gs text log h = negotiate_round-Sends conn gs text log h

  -- A round with no text behind its commands is followed by another one.
  pub negotiate_options-again :
      (gs : List Segment) (log : TelnetLog) (fuel : ℕ) {s s' : S}
      → Sends conn gs [] s s'
      → negotiate_options conn (suc fuel) log s ≡ negotiate_options conn fuel (record_all gs log) s'
  unfolding negotiate_options
  negotiate_options-again gs log fuel h =
      ground (arith, round-round_end gs [] log h, finished-round_end gs [] log)

  pub negotiate_options-text :
      (gs : List Segment) (text : List ℕ) (log : TelnetLog) (fuel : ℕ) {s s' : S}
      → 0 < length text
      → Sends conn gs text s s'
      → negotiate_options conn (suc fuel) log s
        ≡ (ok tt, record (record_all gs log) { banner = text }, s')
  unfolding negotiate_options
  negotiate_options-text gs text log fuel p h = ground (
    arith,
    round-round_end gs text log h,
    finished-round_end gs text log,
    take_banner-round_end gs text log,
  )

  -- A server's side of the whole negotiation: rounds of commands alone, then one with text.
  pub data Dialogue : List Segment → List ℕ → ℕ → S → S → Type 0 where
    last :
        {gs : List Segment} {text : List ℕ} {s s' : S}
        → 0 < length text
        → Sends conn gs text s s'
        → Dialogue gs text 1 s s'
    round :
        {gs hs : List Segment} {text : List ℕ} {k : ℕ} {s t s' : S}
        → Sends conn gs [] s t
        → Dialogue hs text k t s'
        → Dialogue (gs ++ hs) text (suc k) s s'

  -- A server that sends commands in any number of reads, each read in front of the last ending
  -- with a command, and that takes a write of DONT for each WILL or WONT and of WONT for each DO
  -- or DONT, is negotiated with to the end, with fuel for the rounds: the log has every option in
  -- the list of its verb, in order, and the text behind the last command as the banner.
  pub negotiate_options-Dialogue :
      (log : TelnetLog) (fuel : ℕ) {gs : List Segment} {text : List ℕ} {k : ℕ} {s s' : S}
      → Dialogue gs text k s s'
      → k ≤ fuel
      → negotiate_options conn fuel log s
        ≡ (ok tt, record (record_all gs log) { banner = text }, s')
  negotiate_options-Dialogue log zero (last p h) hf = absurd (omega arith)
  negotiate_options-Dialogue log (suc fuel) (last {gs = gs} {text = text} p h) hf =
      negotiate_options-text gs text log fuel p h
  negotiate_options-Dialogue log zero (round h d) hf = absurd (omega arith)
  negotiate_options-Dialogue log (suc fuel) (round {gs = gs} {hs = hs} h d) hf =
      negotiate_options-again gs log fuel h
      ∙ negotiate_options-Dialogue (record_all gs log) fuel d (omega arith)
      ∙ rw record_all-append
