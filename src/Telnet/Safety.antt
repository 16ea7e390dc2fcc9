-- ===== src/Telnet/Safety.antt =====
-- When `NegotiateOptions` indexes its buffer out of range.
use tls_banner_grab_go.Base.{
  ℕ, zero, suc, ◌+◌, ◌-◌, ◌≤◌, ◌<◌, ◌≡◌, ◌≢◌, refl, sym, ap, false, List, [], ◌∷◌, some, ◌⊎◌,
  length, take, drop, arith, length-drop, drop-append, get_elem?-IsSome, inl, inr, Option-cases,
  Bool-cases, leb, ◌==◌, if◌then◌else◌,
}
use tls_banner_grab_go.Base.Int.{ℤ, pos, negsuc, ◌-ℤ◌, ◌≤ℤ◌, int_laws}
use tls_banner_grab_go.Net.{ok, err, panic, stuck, Result, NetConn, fill, make}
use tls_banner_grab_go.Telnet.{
  iac, read_buffer_length, TelnetLog, Negotiation, Slice, index_byte, byte_at, Flow, go_ahead,
  answer, continue_with, send_replies, after_round, record_option, next, break, panicked, fail,
  handle_command, handle_commands, return_option_type, start_commands, take_banner,
  finished_negotiating, negotiate_round, negotiate_options,
}
use tls_banner_grab_go.Telnet.Commands.{IsText, index_byte-IsText, index_byte-whole, whole}
use tls_banner_grab_go.Telnet.Refusals.{length-fill, unused-IsText, drop-IsText}

-- `unread` bytes of the last read are still in the buffer, and two more behind them if there are
-- any.
record HasRoom (unread : ℕ) (n : Negotiation) : Type 0 where
  same : n.read_buffer ≡ whole n.read_buffer.cells
  zeros : IsText (drop unread n.read_buffer.cells)
  room : 0 < unread → unread + 2 ≤ length n.read_buffer.cells
  counted : n.num_data_bytes ≤ℤ pos (length n.read_buffer.cells)

index_byte-lt : (xs : List ℕ) (r i : ℕ) → index_byte iac xs ≡ some i → IsText (drop r xs) → i < r
unfolding index_byte drop
index_byte-lt [] r i e h = cc
index_byte-lt (x ∷ xs) zero i e h = cc (e, index_byte-IsText (x ∷ xs) h)
index_byte-lt (x ∷ xs) (suc r) zero e h = omega arith
index_byte-lt (x ∷ xs) (suc r) (suc i) e h = ground (arith, index_byte-lt xs r i)

sub_none : (r : ℕ) → r - 0 ≡ r
sub_none r = omega arith

none_sub : (k : ℕ) → 0 - k ≡ 0
none_sub k = omega arith

sub_suc : (r k : ℕ) → suc r - suc k ≡ r - k
sub_suc r k = omega arith

drop-nil_IsText : (k : ℕ) → IsText (drop k [])
unfolding drop
drop-nil_IsText zero = tt
drop-nil_IsText (suc k) = tt

drop-IsText_drop : (k r : ℕ) (xs : List ℕ) → IsText (drop r xs) → IsText (drop (r - k) (drop k xs))
unfolding drop
drop-IsText_drop zero r xs h = rw (sub_none r) h
drop-IsText_drop (suc k) r [] h = drop-nil_IsText (r - suc k)
drop-IsText_drop (suc k) zero (x ∷ xs) h = rw (none_sub (suc k)) (drop-IsText k xs h.1)
drop-IsText_drop (suc k) (suc r) (x ∷ xs) h = rw (sub_suc r k) (drop-IsText_drop k r xs h)

HasRoom-drop :
    (r i : ℕ) (n : Negotiation) (ret : List ℕ) (log : TelnetLog)
    → HasRoom r n
    → i < r
    → HasRoom (r - (i + 3)) (record {
      read_buffer = record {
        cells = drop (i + 3) n.read_buffer.cells;
        len = n.read_buffer.len - (i + 3);
      };
      num_bytes = n.num_bytes;
      num_data_bytes = n.num_data_bytes -ℤ pos (i + 3);
      ret_buffer = ret;
      log = log;
    })
HasRoom-drop r i n ret log h lt =
    let long = length-drop (i + 3) n.read_buffer.cells in
    let len : n.read_buffer.len ≡ length n.read_buffer.cells = ap (λ (s : Slice). s.len) h.same in
    let room : r + 2 ≤ length n.read_buffer.cells = h.room (omega arith) in
    record {
      same =
          ap (λ (k : ℕ). record { cells = drop (i + 3) n.read_buffer.cells; len = k })
            (omega arith);
      zeros = drop-IsText_drop (i + 3) r n.read_buffer.cells h.zeros;
      room = λ p. omega arith;
      counted = omega (int_laws, h.counted);
    }

-- What an iteration leaves: no panic, and a count of data that the buffer's capacity covers.
abbrev IsCovered : Negotiation → Type 0
IsCovered n = n.num_data_bytes ≤ℤ pos (length n.read_buffer.cells)

abbrev Continues : ℕ → Flow × Negotiation → Type 0
Continues r (next, n) = HasRoom r n
Continues r (break, n) = IsCovered n
Continues r (panicked, n) = ⊥
Continues r (fail e, n) = Unit

in_buffer :
    (s : Slice) (i : ℕ) → s ≡ whole s.cells → i < length s.cells → (b : ℕ) × (byte_at s i ≡ some b)
unfolding byte_at
in_buffer s i e h =
    let (b, p) = get_elem?-IsSome s.cells i h in (b, ground (arith, ap (λ (t : Slice). t.len) e))

handle_command_bytes :
    (i a b : ℕ) (n : Negotiation)
    → byte_at n.read_buffer (i + 1) ≡ some a
    → byte_at n.read_buffer (i + 2) ≡ some b
    → handle_command i n ≡ (
        if a == go_ahead
        then (
          break,
          record n { read_buffer = record { cells = n.read_buffer.cells; len = i }; num_bytes = i },
        )
        else answer a b i (record n { log = record_option a b n.log }))
unfolding handle_command
handle_command_bytes i a b n p q = rw (handle_command, p, q)

answer-Continues :
    (r i a b : ℕ) (n : Negotiation) → HasRoom r n → i < r → Continues (r - (i + 3)) (answer a b i n)
unfolding answer
answer-Continues r i a b n h lt = elim (Option-cases (return_option_type a)) [
  | inl e ↦ rw (answer, e) tt
  | inr (t, e) ↦ rw (answer, e) (HasRoom-drop r i n _ _ h lt)
]

handle_command-Continues :
    (r i : ℕ) (n : Negotiation) → HasRoom r n → i < r → Continues (r - (i + 3)) (handle_command i n)
handle_command-Continues r i n h lt =
    let (a, p) = in_buffer n.read_buffer (i + 1) h.same (omega (arith, h.room (omega arith))) in
    let (b, q) = in_buffer n.read_buffer (i + 2) h.same (omega (arith, h.room (omega arith))) in
    rw (handle_command_bytes i a b n p q) (elim (Bool-cases (a == go_ahead)) [
      | inl e ↦ rw e h.counted
      | inr e ↦ rw e (
          answer-Continues r i a b _
            (record { same = h.same; zeros = h.zeros; room = h.room; counted = h.counted }) lt)
    ])

-- After all commands.
abbrev Settled : Result (Unit {0}) × Negotiation → Type 0
Settled (ok _, n) = IsCovered n
Settled (err e, n) = Unit
Settled (panic, n) = ⊥
Settled (stuck, n) = Unit

after_command :
    (rest : Negotiation → Result (Unit {0}) × Negotiation) (r : ℕ) (c : Flow × Negotiation)
    → ((n : Negotiation) → HasRoom r n → Settled (rest n))
    → Continues r c
    → Settled (continue_with rest c)
unfolding continue_with
after_command rest r (next, n) k h = k n h
after_command rest r (break, n) k h = h
after_command rest r (panicked, n) k h = absurd h
after_command rest r (fail e, n) k h = tt

handle_commands-Settled :
    (fuel r : ℕ) (n : Negotiation) → HasRoom r n → Settled (handle_commands fuel n)
unfolding handle_commands
handle_commands-Settled zero r n h = tt
handle_commands-Settled (suc fuel) r n h =
    let found = index_byte-whole n.read_buffer.cells n.read_buffer h.same in
    elim (Option-cases (index_byte iac n.read_buffer.cells)) [
      | inl e ↦ rw (handle_commands, found, e) h.counted
      | inr (i, e) ↦
          let lt = index_byte-lt n.read_buffer.cells r i e h.zeros in
          rw (handle_commands, found, e)
            (after_command (handle_commands fuel) (r - (i + 3)) (handle_command i n)
              (λ m hm. handle_commands-Settled fuel (r - (i + 3)) m hm)
              (handle_command-Continues r i n h lt))
    ]

start-HasRoom :
    (log : TelnetLog) (bytes : List ℕ)
    → length bytes + 2 ≤ read_buffer_length
    → HasRoom (length bytes) (start_commands log bytes)
unfolding start_commands
start-HasRoom log bytes h = record {
  same =
      ap (λ (k : ℕ). record { cells = fill bytes (make read_buffer_length); len = k })
        (sym (length-fill bytes (omega arith)));
  zeros = unfold fill in rw drop-append (unused-IsText (length bytes));
  room = λ p. omega (arith, length-fill bytes (omega arith));
  counted = omega (arith, length-fill bytes (omega arith));
}

-- Neither a panic, nor `ok` with a value outside `P`.
abbrev Ends {ℓ} : {A : Type ℓ} → (A → Type 0) → Result A → Type 0
Ends P (ok a) = P a
Ends P (err e) = Unit
Ends P panic = ⊥
Ends P stuck = Unit

Ends-ne-panic {ℓ} : {A : Type ℓ} (P : A → Type 0) (r : Result A) → Ends P r → r ≢ panic
Ends-ne-panic P (ok a) h e = cc
Ends-ne-panic P (err x) h e = cc
Ends-ne-panic P panic h e = absurd h
Ends-ne-panic P stuck h e = cc

ℤ-cases : (d : ℤ) → ((k : ℕ) × (d ≡ pos k)) ⊎ ((k : ℕ) × (d ≡ negsuc k))
ℤ-cases (pos k) = inl (k, refl)
ℤ-cases (negsuc k) = inr (k, refl)

banner-fits :
    (k : ℕ) (n : Negotiation)
    → pos k ≤ℤ pos (length n.read_buffer.cells)
    → Ends
        (λ u. Unit)
        (if◌then◌else◌ {A = Result (Unit {0}) × TelnetLog}
          (leb k (length n.read_buffer.cells))
          (ok tt, record n.log { banner = take k n.read_buffer.cells })
          (panic, n.log)).0
banner-fits k n h = elim (Bool-cases (leb k (length n.read_buffer.cells))) [
  | inl e ↦ rw e tt
  | inr e ↦ absurd (ground arith)
]

take_banner-Ends : (n : Negotiation) → IsCovered n → Ends (λ u. Unit) (take_banner n).0
unfolding take_banner
take_banner-Ends n h = elim (ℤ-cases n.num_data_bytes) [
  | inl (k, e) ↦ rw (take_banner, e) (banner-fits k n (rw e at h))
  | inr (k, e) ↦ rw (take_banner, e) tt
]

short→ne : (a : ℕ) → a + 2 ≤ read_buffer_length → (a == read_buffer_length) ≡ false
short→ne a h = ground arith

module _ {S : Type 0} (conn : NetConn S) where
  send_replies-Ends :
      (c : Result (Unit {0}) × Negotiation) (s : S)
      → Settled c
      → Ends IsCovered (send_replies conn c s).0
  unfolding send_replies
  send_replies-Ends (ok u, n) s h = elim (Option-cases (conn.write n.ret_buffer s).0.error) [
    | inl e ↦ rw (send_replies, e) h
    | inr (x, e) ↦ rw (send_replies, e) tt
  ]
  send_replies-Ends (err e, n) s h = tt
  send_replies-Ends (panic, n) s h = absurd h
  send_replies-Ends (stuck, n) s h = tt

  negotiate_round-Ends :
      (log : TelnetLog) (s : S)
      → length (conn.read read_buffer_length s).0.bytes + 2 ≤ read_buffer_length
      → Ends IsCovered (negotiate_round conn log s).0
  unfolding negotiate_round
  negotiate_round-Ends log s h = elim (Option-cases (conn.read read_buffer_length s).0.error) [
    | inl e ↦
        rw (negotiate_round, e, short→ne _ h)
          (send_replies-Ends _ _
            (handle_commands-Settled (suc read_buffer_length) _ _ (start-HasRoom log _ h)))
    | inr (x, e) ↦ rw (negotiate_round, e) tt
  ]

  after_round-Ends :
      (again : TelnetLog → S → Result (Unit {0}) × TelnetLog × S)
      (c : Result Negotiation × TelnetLog × S)
      → Ends IsCovered c.0
      → ((log : TelnetLog) (s : S) → Ends (λ u. Unit) (again log s).0)
      → Ends (λ u. Unit) (after_round conn again c).0
  unfolding after_round
  after_round-Ends again (ok n, log, s) h k = elim (Bool-cases (finished_negotiating n)) [
    | inl e ↦ rw e (take_banner-Ends n h)
    | inr e ↦ rw e (k log s)
  ]
  after_round-Ends again (err e, log, s) h k = tt
  after_round-Ends again (panic, log, s) h k = absurd h
  after_round-Ends again (stuck, log, s) h k = tt

  negotiate_options-Ends :
      ((s : S) → length (conn.read read_buffer_length s).0.bytes + 2 ≤ read_buffer_length)
      → (fuel : ℕ) (log : TelnetLog) (s : S)
      → Ends (λ u. Unit) (negotiate_options conn fuel log s).0
  unfolding negotiate_options
  negotiate_options-Ends short zero log s = tt
  negotiate_options-Ends short (suc fuel) log s =
      after_round-Ends (negotiate_options conn fuel) (negotiate_round conn log s)
        (negotiate_round-Ends log s (short s)) (negotiate_options-Ends short fuel)

  -- If no read of the connection brings more than 8190 bytes, the negotiation does not panic,
  -- whatever the server sends and however many rounds it takes.
  pub negotiate_options-ne-panic :
      ((s : S) → length (conn.read read_buffer_length s).0.bytes + 2 ≤ read_buffer_length)
      → (fuel : ℕ) (log : TelnetLog) (s : S) → (negotiate_options conn fuel log s).0 ≢ panic
  negotiate_options-ne-panic short fuel log s =
      Ends-ne-panic (λ u. Unit) _ (negotiate_options-Ends short fuel log s)
