-- ===== src/Telnet/Edges.antt =====
-- Reads that `NegotiateOptions` does not handle as it means to.
use tls_banner_grab_go.Base.{
  ℕ, suc, ◌+◌, ◌-◌, ◌≤◌, ◌≡◌, refl, sym, ap, ◌∙◌, List, [], ◌∷◌, ◌++◌, none, some, length, arith,
  length-append, drop-replicate, replicate, append_assoc,
}
use tls_banner_grab_go.Net.{panic, NetConn, fill, make}
use tls_banner_grab_go.Telnet.{
  iac, read_buffer_length, TelnetLog, Negotiation, byte_at, continue_with, send_replies,
  after_round, panicked, handle_command, handle_commands, start_commands, negotiate_round,
  negotiate_options,
}
use tls_banner_grab_go.Telnet.Commands.{
  IsText, index_byte-append, index_byte-whole, byte_at-whole, get_elem?-append_suc, whole,
}
use tls_banner_grab_go.Telnet.Refusals.{length-fill, unused}

-- The buffer after a read that ends with an IAC in its last byte but one.
last_unused : (k : ℕ) → k + 1 ≡ read_buffer_length → unused k ≡ 0 ∷ []
unfolding make replicate
last_unused k h =
    let one : read_buffer_length - k ≡ 1 = omega arith in
    drop-replicate k read_buffer_length 0 ∙ ap (λ (m : ℕ). replicate m 0) one

last_iac_buffer :
    (text : List ℕ) (log : TelnetLog)
    → length text + 2 ≡ read_buffer_length
    → (start_commands log (text ++ (iac ∷ []))).read_buffer ≡ whole (text ++ (iac ∷ 0 ∷ []))
unfolding start_commands
last_iac_buffer text log h =
    let sent : List ℕ = text ++ (iac ∷ []) in
    let long = length-append text (iac ∷ []) in
    let cells : fill sent (make read_buffer_length) ≡ text ++ (iac ∷ 0 ∷ []) =
      unfold fill in
      (ap (λ t. sent ++ t) (last_unused (length sent) (omega arith))
        ∙ append_assoc text (iac ∷ []) (0 ∷ [])) in
    ap (λ (k : ℕ). record { cells = fill sent (make read_buffer_length); len = k })
      (sym (length-fill sent (omega arith)))
    ∙ ap whole cells

beyond : (cells : List ℕ) (i : ℕ) → length cells ≤ i → byte_at (whole cells) i ≡ none
unfolding byte_at
beyond cells i h = ground arith

last_iac_panics :
    (text : List ℕ) (n : Negotiation)
    → n.read_buffer ≡ whole (text ++ (iac ∷ 0 ∷ []))
    → handle_command (length text) n ≡ (panicked, n)
unfolding handle_command
last_iac_panics text n e =
    let long = length-append text (iac ∷ 0 ∷ []) in
    let p : byte_at n.read_buffer (length text + 1) ≡ some 0 = rw e (
      byte_at-whole (text ++ (iac ∷ 0 ∷ [])) _ (omega arith)
      ∙ get_elem?-append_suc text iac 0 []) in
    let q : byte_at n.read_buffer (length text + 2) ≡ none =
      rw e (beyond (text ++ (iac ∷ 0 ∷ [])) _ (omega arith)) in
    rw (handle_command, p, q)

handle_commands-last_iac :
    (text : List ℕ) (fuel : ℕ) (n : Negotiation)
    → IsText text
    → n.read_buffer ≡ whole (text ++ (iac ∷ 0 ∷ []))
    → handle_commands (suc fuel) n ≡ (panic, n)
unfolding handle_commands continue_with
handle_commands-last_iac text fuel n ht e = rw (
  handle_commands,
  index_byte-whole _ _ e,
  index_byte-append text (0 ∷ []) ht,
  last_iac_panics text n e,
)

log-start : (log : TelnetLog) (bytes : List ℕ) → (start_commands log bytes).log ≡ log
unfolding start_commands
log-start log bytes = refl

module _ {S : Type 0} (conn : NetConn S) where
  -- Where a read without an error brings 8191 bytes, of which the last is the only IAC, the
  -- negotiation panics.
  pub negotiate_options-last_iac :
      (text : List ℕ) (log : TelnetLog) (fuel : ℕ) {s s' : S}
      → IsText text
      → length text + 2 ≡ read_buffer_length
      → conn.read read_buffer_length s ≡ (record { bytes = text ++ (iac ∷ []); error = none }, s')
      → negotiate_options conn (suc fuel) log s ≡ (panic, log, s')
  unfolding negotiate_options negotiate_round send_replies after_round
  negotiate_options-last_iac text log fuel ht h r = ground (
    arith,
    handle_commands-last_iac text read_buffer_length (start_commands log (text ++ (iac ∷ []))) ht
        (last_iac_buffer text log h),
    length-append text (iac ∷ []),
    log-start log (text ++ (iac ∷ [])),
  )
