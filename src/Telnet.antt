-- ===== src/Telnet.antt =====
-- ztools/telnet/telnet.go and log.go: option negotiation and the banner of a telnet server.
-- A byte slice that the code re-slices is kept with the bytes up to its capacity.
pub mod Options
pub mod Json
pub mod Commands
pub mod Refusals
pub mod Safety
pub mod Edges
pub mod GoAhead
pub mod Banner
mod Tests
use tls_banner_grab_go.Base.{
  ℕ, zero, suc, ◌+◌, ◌-◌, ◌/◌, ◌%◌, Bool, true, false, not, ◌&&◌, ◌||◌, List, [], ◌∷◌, ◌++◌, Option,
  none, some, length, get_elem?, take, drop, ltb, leb, ◌==◌, if◌then◌else◌,
}
use tls_banner_grab_go.Base.Int.{ℤ, pos, negsuc, ◌-ℤ◌, eqb_ℤ}
use tls_banner_grab_go.Net.{
  NetError, eof, timeout, other, Error, net, new, newf, Result, ok, err, panic, stuck, NetConn,
  ReadResult, WriteResult, fill, make,
}
pub use tls_banner_grab_go.Net.Slices.{Slice}
unfoldable pub use tls_banner_grab_go.Net.Slices.{byte_at}

abbrev pub iac : ℕ
iac = 255

abbrev pub dont : ℕ
dont = 254

abbrev pub do_code : ℕ
do_code = 253

abbrev pub wont : ℕ
wont = 252

abbrev pub will : ℕ
will = 251

abbrev pub go_ahead : ℕ
go_ahead = 249

abbrev pub iac_cmd_length : ℕ
iac_cmd_length = 3

abbrev pub read_buffer_length : ℕ
read_buffer_length = 8192

pub record TelnetLog : Type 0 where
  pub banner : List ℕ
  pub will_options : List ℕ
  pub do_options : List ℕ
  pub wont_options : List ℕ
  pub dont_options : List ℕ

pub record Negotiation : Type 0 where
  pub read_buffer : Slice
  pub num_bytes : ℕ
  pub num_data_bytes : ℤ
  pub ret_buffer : List ℕ
  pub log : TelnetLog

-- `bytes.IndexByte`
pub index_byte : ℕ → List ℕ → Option ℕ
index_byte c [] = none
index_byte c (b ∷ bs) =
    if b == c then some 0 else elim (index_byte c bs) [ none ↦ none | some i ↦ some (suc i) ]

pub contains_iac : List ℕ → Bool
contains_iac buffer = elim (index_byte iac buffer) [ none ↦ false | some i ↦ true ]

-- record all offered options
pub record_option : ℕ → ℕ → TelnetLog → TelnetLog
record_option option_type opt log =
    if option_type == will
    then record log { will_options = log.will_options ++ (opt ∷ []) }
    else if option_type == do_code
    then record log { do_options = log.do_options ++ (opt ∷ []) }
    else if option_type == wont
    then record log { wont_options = log.wont_options ++ (opt ∷ []) }
    else if option_type == dont
    then record log { dont_options = log.dont_options ++ (opt ∷ []) }
    else log

-- reject all offered options; `none` is an option type that is not supported
pub return_option_type : ℕ → Option ℕ
return_option_type option_type =
    if option_type == will || option_type == wont
    then some dont
    else if option_type == do_code || option_type == dont
    then some wont
    else none

-- How an iteration of the loop over the commands ends.
pub data Flow : Type 0 where
  next break panicked : Flow
  fail : Error → Flow

answer : ℕ → ℕ → ℕ → Negotiation → Flow × Negotiation
unfolding return_option_type
answer option_type option iac_index n = elim (return_option_type option_type) [
  | none ↦ (fail (newf "Unsupported telnet IAC option type" option_type), n)
  | some return_type ↦ (
    next,
    record n {
      read_buffer = record {
        cells = drop (iac_index + iac_cmd_length) n.read_buffer.cells;
        len = n.read_buffer.len - (iac_index + iac_cmd_length);
      };
      num_data_bytes = n.num_data_bytes -ℤ pos (iac_index + iac_cmd_length);
      ret_buffer = n.ret_buffer ++ (iac ∷ return_type ∷ option ∷ []);
    },
  )
]

-- The body of the loop over the commands, for the IAC at `iac_index`.
pub handle_command : ℕ → Negotiation → Flow × Negotiation
unfolding record_option answer
handle_command iac_index n = elim (byte_at n.read_buffer (iac_index + 1)) [
  | none ↦ (panicked, n)
  | some option_type ↦ elim (byte_at n.read_buffer (iac_index + 2)) [
    | none ↦ (panicked, n)
    | some option ↦
        if option_type == go_ahead
        then (
          break,
          record n {
            read_buffer = record { cells = n.read_buffer.cells; len = iac_index };
            num_bytes = iac_index;
          },
        )
        else answer option_type option iac_index
            (record n { log = record_option option_type option n.log })
  ]
]

continue_with :
    (Negotiation → Result (Unit {0}) × Negotiation)
    → Flow × Negotiation
    → Result (Unit {0}) × Negotiation
continue_with rest (next, n) = rest n
continue_with rest (break, n) = (ok tt, n)
continue_with rest (panicked, n) = (panic, n)
continue_with rest (fail e, n) = (err e, n)

-- The loop over the commands of one read. Each round drops three bytes, so that as much fuel as
-- the buffer is long is enough.
pub handle_commands : ℕ → Negotiation → Result (Unit {0}) × Negotiation
unfolding continue_with
handle_commands zero n = (stuck, n)
handle_commands (suc fuel) n = elim (index_byte iac (take n.read_buffer.len n.read_buffer.cells)) [
  | none ↦ (ok tt, n)
  | some i ↦ continue_with (handle_commands fuel) (handle_command i n)
]

-- The variables at the head of the loop over the commands, after a read of `bytes`.
pub start_commands : TelnetLog → List ℕ → Negotiation
start_commands log bytes = record {
  read_buffer = record { cells = fill bytes (make read_buffer_length); len = read_buffer_length };
  num_bytes = length bytes;
  num_data_bytes = pos (length bytes);
  ret_buffer = [];
  log = log;
}

pub finished_negotiating : Negotiation → Bool
finished_negotiating n = not (eqb_ℤ (pos n.num_bytes) (pos n.num_bytes -ℤ n.num_data_bytes))

-- no more IAC commands, just read the resulting data
pub take_banner : Negotiation → Result (Unit {0}) × TelnetLog
take_banner n = elim n.num_data_bytes [
  | pos k ↦
      if leb k (length n.read_buffer.cells)
      then (ok tt, record n.log { banner = take k n.read_buffer.cells })
      else (panic, n.log)
  | negsuc k ↦ (ok tt, n.log)
]

module _ {S : Type 0} (conn : NetConn S) where
  -- The end of a round: the replies go out in one write.
  send_replies : Result (Unit {0}) × Negotiation → S → Result Negotiation × TelnetLog × S
  send_replies (ok _, n) s =
      let (w, s') = conn.write n.ret_buffer s in
      elim w.error [ none ↦ (ok n, n.log, s') | some e ↦ (err (net e), n.log, s') ]
  send_replies (err e, n) s = (err e, n.log, s)
  send_replies (panic, n) s = (panic, n.log, s)
  send_replies (stuck, n) s = (stuck, n.log, s)

  -- One round of the outer loop: a read, the commands in it, and the replies.
  pub negotiate_round : TelnetLog → S → Result Negotiation × TelnetLog × S
  unfolding send_replies
  negotiate_round log s =
      let (r, s') = conn.read read_buffer_length s in
      elim r.error [
        | some e ↦ (err (net e), log, s')
        | none ↦
            if length r.bytes == read_buffer_length
            then (err (new "Not enough buffer space for telnet options"), log, s')
            else send_replies
                (handle_commands (suc read_buffer_length) (start_commands log r.bytes)) s'
      ]

  after_round :
      (TelnetLog → S → Result (Unit {0}) × TelnetLog × S)
      → Result Negotiation × TelnetLog × S
      → Result (Unit {0}) × TelnetLog × S
  after_round again (ok n, log, s) =
      let more = again log s in
      let (r, log') = take_banner n in if finished_negotiating n then (r, log', s) else more
  after_round again (err e, log, s) = (err e, log, s)
  after_round again (panic, log, s) = (panic, log, s)
  after_round again (stuck, log, s) = (stuck, log, s)

  -- `NegotiateOptions`; the fuel bounds the reads, since a server may send commands for ever.
  pub negotiate_options : ℕ → TelnetLog → S → Result (Unit {0}) × TelnetLog × S
  unfolding after_round
  negotiate_options zero log s = (stuck, log, s)
  negotiate_options (suc fuel) log s = after_round (negotiate_options fuel) (negotiate_round log s)
