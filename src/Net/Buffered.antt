-- ===== src/Net/Buffered.antt =====
-- `bufio.Reader` with its default buffer over a connection, and `io.ReadFull`.
pub mod Serves
use tls_banner_grab_go.Base.{
  ℕ, zero, suc, ◌-◌, List, [], ◌∷◌, ◌++◌, Option, none, some, length, take, drop, ltb, leb,
  if◌then◌else◌,
}
use tls_banner_grab_go.Net.{
  NetError, eof, timeout, other, Error, net, new, Result, ok, err, stuck, NetConn, ReadResult,
}

-- The bytes read ahead, and the error of the last read of the connection if it is not returned yet.
pub record Reader : Type 0 where
  pub ahead : List ℕ
  pub pending : Option NetError

-- `bufio.NewReader`
abbrev pub new_reader : Reader
new_reader = record { ahead = []; pending = none }

abbrev pub buffer_size : ℕ
buffer_size = 4096

-- The bytes that a read of up to `n` bytes takes from those read ahead.
abbrev pub serve : ℕ → Reader → List ℕ × Option NetError × Reader
serve n reader = (take n reader.ahead, none, record reader { ahead = drop n reader.ahead })

-- `b.readErr()`
abbrev pub read_err : Reader → List ℕ × Option NetError × Reader
read_err reader = ([], reader.pending, record reader { pending = none })

-- Behind a read of the connection into the empty buffer.
unfoldable pub filled : ℕ → ReadResult → List ℕ × Option NetError × Reader
filled n r = elim r.bytes [
  | [] ↦ ([], r.error, new_reader)
  | b ∷ bs ↦ serve n (record { ahead = b ∷ bs; pending = r.error })
]

-- How `io.ReadFull` ends with too few bytes.
unfoldable pub short : List ℕ → NetError → Error
short [] e = net e
short (b ∷ bs) eof = new "unexpected EOF"
short (b ∷ bs) timeout = net timeout
short (b ∷ bs) (other n) = net (other n)

module _ {S : Type 0} (conn : NetConn S) where
  -- Into an empty buffer, or past it where the bytes wanted fill it.
  unfoldable pub read_on : ℕ → S → (List ℕ × Option NetError × Reader) × S
  read_on n s =
      let (past, s₁) = conn.read n s in
      let (r, s₂) = conn.read buffer_size s in
      if leb buffer_size n then ((past.bytes, past.error, new_reader), s₁) else (filled n r, s₂)

  -- `Reader.Read` with room for `n` bytes, at least one.
  unfoldable pub read : ℕ → Reader → S → (List ℕ × Option NetError × Reader) × S
  read n reader s = elim reader.ahead [
    | b ∷ bs ↦ (serve n reader, s)
    | [] ↦ elim reader.pending [ some e ↦ (read_err reader, s) | none ↦ read_on n s ]
  ]

  -- `io.ReadFull` of `want` bytes, with those read so far. The fuel bounds the reads.
  unfoldable pub read_full : ℕ → ℕ → List ℕ → Reader → S → Result (List ℕ) × Reader × S
  read_full zero want got reader s = (stuck, reader, s)
  read_full (suc fuel) want got reader s =
      let ((more, e, reader'), s') = read (want - length got) reader s in
      let now = got ++ more in
      let rest = read_full fuel want now reader' s' in
      if leb want (length got)
      then (ok got, reader, s)
      else if leb want (length now)
      then (ok now, reader', s')
      else elim e [ none ↦ rest | some e ↦ (err (short now e), reader', s') ]
