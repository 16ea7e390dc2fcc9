-- ===== src/Telnet/GoAhead.antt =====
-- A GO AHEAD among the commands of a read.
use tls_banner_grab_go.Base.{
  ℕ, suc, ◌+◌, ◌-◌, ◌<◌, ◌≡◌, refl, ap, ◌∙◌, true, List, [], ◌∷◌, ◌++◌, none, some, length, arith,
  length-append, drop-replicate, replicate, append_assoc, All,
}
use tls_banner_grab_go.Base.Int.{pos, ◌-ℤ◌}
use tls_banner_grab_go.Net.{ok, NetConn, make}
use tls_banner_grab_go.Telnet.{
  iac, read_buffer_length, TelnetLog, Negotiation, byte_at, go_ahead, continue_with, after_round,
  break, handle_command, handle_commands, start_commands, take_banner, finished_negotiating,
  negotiate_options,
}
use tls_banner_grab_go.Telnet.Commands.{
  Segment, HasText, encode, replies, record_all, handle_commands-segments, IsText,
  index_byte-append, index_byte-whole, byte_at-whole, get_elem?-append_suc, get_elem?-append_two,
  whole,
}
use tls_banner_grab_go.Telnet.Refusals.{
  unused, data_left, buffer-start, length-encode, round_replies, take_banner-pos,
}

-- The iteration that meets a GO AHEAD.
handle_command-go_ahead :
    (text rest : List ℕ) (b : ℕ) (n : Negotiation)
    → n.read_buffer ≡ whole (text ++ (iac ∷ go_ahead ∷ b ∷ rest))
    → handle_command (length text) n ≡ (
      break,
      record n {
        read_buffer = record { cells = n.read_buffer.cells; len = length text };
        num_bytes = length text;
      },
    )
unfolding handle_command
handle_command-go_ahead text rest b n e =
    let long = length-append text (iac ∷ go_ahead ∷ b ∷ rest) in
    let p : byte_at n.read_buffer (length text + 1) ≡ some go_ahead =
      rw e (byte_at-whole _ _ (omega arith) ∙ get_elem?-append_suc text iac go_ahead (b ∷ rest)) in
    let q : byte_at n.read_buffer (length text + 2) ≡ some b =
      rw e (byte_at-whole _ _ (omega arith) ∙ get_elem?-append_two text iac go_ahead b rest) in
    rw (handle_command, p, q)

handle_commands-go_ahead :
    (text rest : List ℕ) (b fuel : ℕ) (n : Negotiation)
    → IsText text
    → n.read_buffer ≡ whole (text ++ (iac ∷ go_ahead ∷ b ∷ rest))
    → handle_commands (suc fuel) n ≡ (
      ok tt,
      record n {
        read_buffer = record { cells = n.read_buffer.cells; len = length text };
        num_bytes = length text;
      },
    )
unfolding handle_commands continue_with
handle_commands-go_ahead text rest b fuel n ht e = rw (
  handle_commands,
  index_byte-whole _ _ e,
  index_byte-append text (go_ahead ∷ b ∷ rest) ht,
  handle_command-go_ahead text rest b n e,
)

unused-cons : (k : ℕ) → k < read_buffer_length → (xs : List ℕ) × (unused k ≡ 0 ∷ xs)
unfolding make replicate
unused-cons k h =
    let left : read_buffer_length - k ≡ suc (read_buffer_length - k - 1) = omega arith in
    (
      replicate (read_buffer_length - k - 1) 0,
      drop-replicate k read_buffer_length 0 ∙ ap (λ (m : ℕ). replicate m 0) left,
    )

-- The buffer has a byte behind the GO AHEAD.
behind :
    (rest : List ℕ) (k : ℕ)
    → k < read_buffer_length
    → (b : ℕ) × (xs : List ℕ) × (rest ++ unused k ≡ b ∷ xs)
behind [] k h = let (xs, e) = unused-cons k h in (0, xs, e)
behind (b ∷ bs) k h = (b, bs ++ unused k, refl)

module _ (gs : List Segment) (text rest : List ℕ) (log : TelnetLog) where
  abbrev with_go_ahead : List ℕ
  with_go_ahead = text ++ (iac ∷ go_ahead ∷ rest)

  abbrev sent : List ℕ
  sent = encode gs ++ with_go_ahead

  go_ahead_end : Negotiation
  go_ahead_end = record {
    read_buffer = record { cells = with_go_ahead ++ unused (length sent); len = length text };
    num_bytes = length text;
    num_data_bytes = pos (length with_go_ahead);
    ret_buffer = replies gs;
    log = record_all gs log;
  }

  module _ (hs : All HasText gs) (ht : IsText text) (fits : length sent < read_buffer_length) where
    handle_commands-go_ahead_end :
        handle_commands (suc read_buffer_length) (start_commands log sent) ≡ (ok tt, go_ahead_end)
    unfolding go_ahead_end start_commands
    handle_commands-go_ahead_end =
        let (b, xs, e) = behind rest (length sent) fits in
        let cells : with_go_ahead ++ unused (length sent) ≡ text ++ (iac ∷ go_ahead ∷ b ∷ xs) =
          append_assoc text (iac ∷ go_ahead ∷ rest) (unused (length sent))
          ∙ ap (λ t. text ++ (iac ∷ go_ahead ∷ t)) e in
        let fuel = suc read_buffer_length - length gs - 1 in
        handle_commands-segments gs (with_go_ahead ++ unused (length sent)) (suc read_buffer_length)
          (suc fuel) (start_commands log sent) hs (buffer-start gs with_go_ahead log (omega arith))
          (omega (arith, length-encode gs, length-append (encode gs) with_go_ahead))
        ∙ handle_commands-go_ahead text xs b fuel _ ht (ap whole cells)
        ∙ rw (data_left gs with_go_ahead)

    finished-go_ahead_end : finished_negotiating go_ahead_end ≡ true
    unfolding finished_negotiating go_ahead_end ◌-ℤ◌
    finished-go_ahead_end = ground (arith, length-append text (iac ∷ go_ahead ∷ rest))

    take_banner-go_ahead_end :
        take_banner go_ahead_end ≡ (ok tt, record (record_all gs log) { banner = with_go_ahead })
    unfolding go_ahead_end
    take_banner-go_ahead_end = take_banner-pos with_go_ahead _ _ refl refl

    log-go_ahead_end :
        (go_ahead_end.log ≡ record_all gs log) × (go_ahead_end.ret_buffer ≡ replies gs)
    unfolding go_ahead_end
    log-go_ahead_end = (refl, refl)

    -- A read with commands, text and a GO AHEAD ends the negotiation, and the banner holds the
    -- text, the two bytes of the GO AHEAD and all that follows them.
    pub negotiate_options-go_ahead :
        {S : Type 0} (conn : NetConn S) (fuel k : ℕ) {s₀ s₁ s₂ : S}
        → conn.read read_buffer_length s₀ ≡ (record { bytes = sent; error = none }, s₁)
        → conn.write (replies gs) s₁ ≡ (record { count = k; error = none }, s₂)
        → negotiate_options conn (suc fuel) log s₀
          ≡ (ok tt, record (record_all gs log) { banner = with_go_ahead }, s₂)
    unfolding negotiate_options after_round
    negotiate_options-go_ahead conn fuel k {s₀} {s₁} {s₂} r w = ground (
      arith,
      round_replies conn sent log go_ahead_end {s = s₀} {s₁ = s₁} {s₂ = s₂} k r fits
          handle_commands-go_ahead_end (rw (log-go_ahead_end.1) w),
      finished-go_ahead_end,
      take_banner-go_ahead_end,
      log-go_ahead_end,
    )
