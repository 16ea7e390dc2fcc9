-- ===== src/Targets.antt =====
-- The decoders of zlib/grabber.go, which make targets of the input, and the loop of `Process` in
-- ztools/processing/input.go that reads them to the end.
pub mod Lines
pub mod Records
mod Tests
use tls_banner_grab_go.Base.{
  ℕ, zero, suc, List, [], ◌∷◌, ◌++◌, Option, none, some, String, length, ◌==◌, if◌then◌else◌,
}
use tls_banner_grab_go.Net.{
  Error, net, new, newf, newi, wrap, eof, timeout, other, Result, ok, err, panic, stuck, ◌>>=◌,
}
use tls_banner_grab_go.Grabber.Steps.{GrabTarget}

-- `bufio.Reader.ReadBytes` on the rest of the input: the bytes up to the delimiter, with it, and
-- whether it was found; and what is left.
unfoldable pub read_bytes : ℕ → List ℕ → (List ℕ × Option Error) × List ℕ
read_bytes delim [] = (([], some (net eof)), [])
read_bytes delim (b ∷ bs) =
    let ((record_, e), rest) = read_bytes delim bs in
    if b == delim then ((b ∷ [], none), bs) else ((b ∷ record_, e), rest)

-- `record[:len(record)-1]`; an empty record is a panic.
unfoldable pub without_last : List ℕ → Result (List ℕ)
without_last [] = panic
without_last (b ∷ []) = ok []
without_last (b ∷ c ∷ bs) = elim (without_last (c ∷ bs)) [
  | ok text ↦ ok (b ∷ text)
  | err e ↦ err e
  | panic ↦ panic
  | stuck ↦ stuck
]

abbrev named : Result (List ℕ) → Result GrabTarget
named (ok domain) = ok (record { addr = []; domain = domain })
named (err e) = err e
named panic = panic
named stuck = stuck

abbrev after_bytes : (List ℕ × Option Error) × List ℕ → Result GrabTarget × List ℕ
after_bytes ((text, some e), rest) = (err e, rest)
after_bytes ((text, none), rest) = (named (without_last text), rest)

-- `grabDomainDecoder.DecodeNext`
unfoldable pub decode_domain : List ℕ → Result GrabTarget × List ℕ
decode_domain input = after_bytes (read_bytes 10 input)

-- `csv.Reader.Read`: a record, an error, or the end of the input.
pub data Row : Type 0 where
  row : List (List ℕ) → Row
  bad_row : String → Row
  no_row : Row

-- `grabTargetDecoder.DecodeNext` over the reader's next record; `parse_ip` is `net.ParseIP`.
module _ (parse_ip : List ℕ → Option (List ℕ)) where
  abbrev pub with_addr : List ℕ → Option (List ℕ) → Result GrabTarget
  with_addr domain none = err (new "Invalid IP address")
  with_addr domain (some ip) = ok (record { addr = ip; domain = domain })

  unfoldable pub decode_target : Row → Result GrabTarget
  decode_target no_row = err (net eof)
  decode_target (bad_row message) = err (new message)
  decode_target (row []) = err (new "Invalid grab target (no fields)")
  decode_target (row (addr ∷ [])) = with_addr [] (parse_ip addr)
  decode_target (row (addr ∷ domain ∷ fields)) = with_addr domain (parse_ip addr)

-- The objects that the loop of `Process` sends on, of which `none` is nil.
abbrev pub Objects : Type 0
Objects = List (Option GrabTarget)

abbrev pub with_first : Option GrabTarget → Result Objects → Result Objects
with_first object rest = rest >>= λ objects. ok (object ∷ objects)

-- The object of a call, and the loop's rest: the end of the input ends it, and behind any other error
-- nil is sent.
unfoldable pub send_on :
    {S : Type 0} → Result GrabTarget × S → (S → Result Objects) → Result Objects
send_on (ok target, s) rest = with_first (some target) (rest s)
send_on (err (net eof), s) rest = ok []
send_on (err (net timeout), s) rest = with_first none (rest s)
send_on (err (net (other n)), s) rest = with_first none (rest s)
send_on (err (new message), s) rest = with_first none (rest s)
send_on (err (newf message n), s) rest = with_first none (rest s)
send_on (err (newi message n), s) rest = with_first none (rest s)
send_on (err (wrap message e), s) rest = with_first none (rest s)
send_on (panic, s) rest = panic
send_on (stuck, s) rest = stuck

-- The loop over a decoder. The fuel bounds the calls.
unfoldable pub read_input : {S : Type 0} → (S → Result GrabTarget × S) → ℕ → S → Result Objects
read_input decode_next zero s = stuck
read_input decode_next (suc fuel) s = send_on (decode_next s) (λ s'. read_input decode_next fuel s')
