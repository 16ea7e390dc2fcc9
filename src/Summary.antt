-- ===== src/Summary.antt =====
-- summary.go and the end of `main` of main.go: the summary of a scan, and its JSON. Durations are in
-- nanoseconds and have 64 bits; the times, their text and encoding/json are parameters.
pub mod Roundtrip
mod Tests
use tls_banner_grab_go.Base.{
  ◌⊎◌, inl, inr, ℕ, ◌+◌, ◌-◌, ◌*◌, ◌^◌, ◌%◌, ◌/◌, ◌<◌, ◌≡◌, refl, Bool, true, false, not, List, [],
  ◌∷◌, Option, none, some, if◌then◌else◌, ltb, arith,
}
use tls_banner_grab_go.Base.Int.{ℤ, pos, negsuc}
use tls_banner_grab_go.Net.{Error, Result, ok, err, panic, stuck}
use tls_banner_grab_go.Config.{Config}
use tls_banner_grab_go.Workers.{State}
use tls_banner_grab_go.Workers.Counts.{total_count}

-- `Summary`
pub record Summary (T : Type 0) : Type 0 where
  pub port : ℕ
  pub success : ℕ
  pub failure : ℕ
  pub total : ℕ
  pub start_time : T
  pub end_time : T
  pub duration : ℤ
  pub senders : ℕ
  pub timeout : ℤ
  pub tls_version : List ℕ
  pub mail_type : List ℕ
  pub ca_file : List ℕ
  pub sni_support : Bool
  pub flags : List (List ℕ)

-- `encodedSummary`
pub record EncodedSummary : Type 0 where
  pub port : ℕ
  pub success : ℕ
  pub failure : ℕ
  pub total : ℕ
  pub start_time : List ℕ
  pub end_time : List ℕ
  pub duration : ℤ
  pub senders : ℕ
  pub timeout : ℕ
  pub tls_version : Option (List ℕ)
  pub mail_type : Option (List ℕ)
  pub ca_file : Option (List ℕ)
  pub sni_support : Bool
  pub flags : List (List ℕ)

-- `time.Time` with RFC 3339, whose text has whole seconds.
pub record Clock (T : Type 0) : Type 0 where
  pub zero_time : T
  pub sub : T → T → ℤ
  pub format : T → List ℕ
  pub parse : List ℕ → Error ⊎ T
  pub to_second : T → T
  pub parse-format : (t : T) → parse (format t) ≡ inr (to_second t)

pub record SummaryJson : Type 0 where
  pub marshal : EncodedSummary → Result (List ℕ)
  pub unmarshal : List ℕ → Error ⊎ EncodedSummary

abbrev pub second : ℕ
second = 1000000000

-- `d / time.Second`, towards zero.
unfoldable pub in_seconds : ℤ → ℤ
in_seconds (pos n) = pos (n / second)
in_seconds (negsuc n) = let q = (n + 1) / second in if ltb 0 q then negsuc (q - 1) else pos 0

-- `uint(d)`
unfoldable pub to_uint : ℤ → ℕ
to_uint (pos n) = n % 2 ^ 64
to_uint (negsuc n) = 2 ^ 64 - 1 - n % 2 ^ 64

-- `time.Duration(n) * time.Second`
unfoldable pub of_seconds : ℕ → ℤ
of_seconds n =
    let d = n * second % 2 ^ 64 in if ltb d (2 ^ 63) then pos d else negsuc (2 ^ 64 - d - 1)

-- A pointer to a text, unless it is empty.
unfoldable pub non_empty : List ℕ → Option (List ℕ)
non_empty [] = none
non_empty (b ∷ bs) = some (b ∷ bs)

-- What a pointer points to, or the text that stands there.
unfoldable pub or_old : List ℕ → Option (List ℕ) → List ℕ
or_old old none = old
or_old old (some bs) = bs

module _ {T : Type 0} (clock : Clock T) where
  abbrev pub no_summary : Summary T
  no_summary = record {
    port = 0;
    success = 0;
    failure = 0;
    total = 0;
    start_time = clock.zero_time;
    end_time = clock.zero_time;
    duration = pos 0;
    senders = 0;
    timeout = pos 0;
    tls_version = [];
    mail_type = [];
    ca_file = [];
    sni_support = false;
    flags = [];
  }

  -- The summary of `main`, from the texts of the flags and the arguments of the program.
  abbrev pub main_summary :
      {A E : Type 0} → Config → State A E → T → T → List ℕ → List ℕ → List (List ℕ) → Summary T
  main_summary config u start end tls_version mail_type args = record {
    port = config.port;
    success = u.success;
    failure = u.failure;
    total = total_count u;
    start_time = start;
    end_time = end;
    duration = clock.sub end start;
    senders = config.senders;
    timeout = of_seconds config.timeout;
    tls_version = tls_version;
    mail_type = mail_type;
    ca_file = [];
    sni_support = not config.no_sni;
    flags = args;
  }

  unfoldable pub encode_summary : Summary T → EncodedSummary
  encode_summary s = record {
    port = s.port;
    success = s.success;
    failure = s.failure;
    total = s.total;
    start_time = clock.format s.start_time;
    end_time = clock.format s.end_time;
    duration = in_seconds (clock.sub s.end_time s.start_time);
    senders = s.senders;
    timeout = to_uint (in_seconds s.timeout);
    tls_version = non_empty s.tls_version;
    mail_type = non_empty s.mail_type;
    ca_file = non_empty s.ca_file;
    sni_support = s.sni_support;
    flags = s.flags;
  }

  -- What `UnmarshalJSON` sets in front of the times.
  abbrev pub counts_of : EncodedSummary → Summary T → Summary T
  counts_of e s = record s {
    port = e.port;
    success = e.success;
    failure = e.failure;
    total = e.total;
  }

  -- What it sets behind them.
  abbrev pub rest_of : EncodedSummary → T → T → Summary T → Summary T
  rest_of e start end s = record s {
    start_time = start;
    end_time = end;
    duration = clock.sub end start;
    senders = e.senders;
    timeout = of_seconds e.timeout;
    tls_version = or_old s.tls_version e.tls_version;
    mail_type = or_old s.mail_type e.mail_type;
    ca_file = or_old s.ca_file e.ca_file;
  }

  unfoldable pub after_end :
      EncodedSummary → T → Error ⊎ T → Summary T → Result (Unit {0}) × Summary T
  after_end e start (inl x) s = (err x, record s { start_time = start; end_time = clock.zero_time })
  after_end e start (inr end) s = (ok tt, rest_of e start end s)

  unfoldable pub after_start :
      EncodedSummary → Error ⊎ T → Summary T → Result (Unit {0}) × Summary T
  after_start e (inl x) s = (err x, record s { start_time = clock.zero_time })
  after_start e (inr start) s = after_end e start (clock.parse e.end_time) s

  unfoldable pub after_json : Error ⊎ EncodedSummary → Summary T → Result (Unit {0}) × Summary T
  after_json (inl x) s = (err x, s)
  after_json (inr e) s = after_start e (clock.parse e.start_time) (counts_of e s)

  module _ (json : SummaryJson) where
    -- `Summary.MarshalJSON`
    unfoldable pub marshal_summary : Summary T → Result (List ℕ)
    marshal_summary s = json.marshal (encode_summary s)

    -- `Summary.UnmarshalJSON`
    unfoldable pub unmarshal_summary : List ℕ → Summary T → Result (Unit {0}) × Summary T
    unmarshal_summary b s = after_json (json.unmarshal b) s
