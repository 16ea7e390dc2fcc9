-- ===== src/Telnet/Banner.antt =====
-- `GetTelnetBanner`: the negotiation, then full buffers until a short read or the last round.
pub mod Limit
use tls_banner_grab_go.Base.{
  ℕ, zero, suc, ◌+◌, ◌-◌, ◌*◌, ◌/◌, ◌%◌, ◌≤◌, ◌<◌, ◌≡◌, refl, ◌∙◌, Bool, true, false, not, ◌&&◌,
  ◌||◌, List, [], ◌∷◌, ◌++◌, Option, none, some, length, take, ltb, leb, ◌==◌, if◌then◌else◌, min,
  arith, length-append, length-take,
}
use tls_banner_grab_go.Net.{
  NetError, eof, timeout, other, Error, net, Result, ok, err, panic, stuck, NetConn, ReadResult,
  fill, make,
}
use tls_banner_grab_go.Telnet.{TelnetLog, read_buffer_length, contains_iac, negotiate_options}

-- The variables of the loop.
pub record Reading : Type 0 where
  pub banner_slice : List ℕ
  pub buffer : List ℕ
  pub num_bytes : ℕ
  pub count : ℕ

-- How a round goes on: with the loop, out of it, or out of the function.
pub data Step : Type 0 where
  again done : Reading → Step
  fail : Error → Step

-- `int(math.Ceil(float64(maxReadSize) / READ_BUFFER_LENGTH))`
unfoldable pub rounds : ℕ → ℕ
rounds max_read_size = (max_read_size + 8191) / 8192

-- The end of a round, with the read's bytes in the buffer.
unfoldable pub keep_bytes : ℕ → Reading → Reading
unfolding rounds
keep_bytes max_read_size v =
    if contains_iac v.buffer
    then v
    else if v.count + 1 == rounds max_read_size
    then record v {
      banner_slice = v.banner_slice ++ take (max_read_size % 8192) v.buffer;
      count = v.count + 1;
    }
    else record v {
      banner_slice = v.banner_slice ++ take v.num_bytes v.buffer;
      count = v.count + 1;
    }

-- What follows the read. A timeout is an error only while the log has no banner.
unfoldable pub after_read : ℕ → TelnetLog → Reading → Option NetError → Step
unfolding keep_bytes
after_read max_read_size log v (some timeout) =
    if length log.banner == 0 then fail (net timeout) else done v
after_read max_read_size log v (some (other k)) = fail (net (other k))
after_read max_read_size log v (some eof) = again (keep_bytes max_read_size v)
after_read max_read_size log v none = again (keep_bytes max_read_size v)

unfoldable pub banner_round : ℕ → TelnetLog → Reading → ReadResult → Step
unfolding after_read
banner_round max_read_size log v r =
    after_read max_read_size log
      (record v { buffer = fill r.bytes v.buffer; num_bytes = length r.bytes }) r.error

unfoldable pub goes_on : ℕ → Reading → Bool
unfolding rounds
goes_on max_read_size v =
    not (v.num_bytes == 0)
    && ltb v.count (rounds max_read_size)
    && v.num_bytes == read_buffer_length

continue_reading : {S : Type 0} → (Reading → S → Result Reading × S) → Step → S → Result Reading × S
continue_reading rest (again v) s = rest v s
continue_reading rest (done v) s = (ok v, s)
continue_reading rest (fail e) s = (err e, s)

abbrev pub first_reading : Reading
first_reading = record {
  banner_slice = [];
  buffer = make read_buffer_length;
  num_bytes = read_buffer_length;
  count = 0;
}

module _ {S : Type 0} (conn : NetConn S) where
  -- The loop; the fuel bounds the reads, since full buffers that hold an IAC are not counted.
  unfoldable pub read_banner : ℕ → ℕ → TelnetLog → Reading → S → Result Reading × S
  unfolding continue_reading
  read_banner zero max_read_size log v s = (stuck, s)
  read_banner (suc fuel) max_read_size log v s =
      if goes_on max_read_size v
      then (let (r, s') = conn.read read_buffer_length s in
          continue_reading (read_banner fuel max_read_size log) (banner_round max_read_size log v r)
            s')
      else (ok v, s)

  add_banner : TelnetLog → Result Reading × S → Result (Unit {0}) × TelnetLog × S
  add_banner log (ok v, s) = (ok tt, record log { banner = log.banner ++ v.banner_slice }, s)
  add_banner log (err e, s) = (err e, log, s)
  add_banner log (panic, s) = (panic, log, s)
  add_banner log (stuck, s) = (stuck, log, s)

  after_negotiation : ℕ → ℕ → Result (Unit {0}) × TelnetLog × S → Result (Unit {0}) × TelnetLog × S
  unfolding add_banner
  after_negotiation fuel max_read_size (ok u, log, s) =
      add_banner log (read_banner fuel max_read_size log first_reading s)
  after_negotiation fuel max_read_size (err e, log, s) = (err e, log, s)
  after_negotiation fuel max_read_size (panic, log, s) = (panic, log, s)
  after_negotiation fuel max_read_size (stuck, log, s) = (stuck, log, s)

  -- `GetTelnetBanner`
  unfoldable pub get_telnet_banner : ℕ → ℕ → TelnetLog → S → Result (Unit {0}) × TelnetLog × S
  unfolding after_negotiation
  get_telnet_banner fuel max_read_size log s =
      after_negotiation fuel max_read_size (negotiate_options conn fuel log s)
