-- ===== src/Grabber/Handler.antt =====
-- `MakeHandler` and the marshaler of zlib/processing.go over `GrabBanner`, and `MarshalJSON` of
-- zlib/zgrab.go, with encoding/json as what it makes of the encoded grab, and of the nil of an object
-- that is no target.
use tls_banner_grab_go.Base.{
  ℕ, ◌≡◌, refl, true, false, List, Option, none, some, String, length, ◌<◌,
}
use mathlib.Core.Option.{map}
use tls_banner_grab_go.Net.{Error, Result, ok, err, panic, stuck}
use tls_banner_grab_go.Config.{Config}
use tls_banner_grab_go.Conn.{GrabData}
use tls_banner_grab_go.Http.Grab.{is_method}
use tls_banner_grab_go.Grabber.Steps.{World, GrabTarget, Grab, status, grab_banner}
use tls_banner_grab_go.Grabber.Steps.Fetched.{IsFetched, Fetched, grab_banner-Fetched}
use tls_banner_grab_go.Workers.{Outcome}

-- `encodedGrab`, without the time.
pub record EncodedGrab : Type 0 where
  pub ip : List ℕ
  pub domain : List ℕ
  pub grab_data : GrabData
  pub error : Option (List ℕ)
  pub error_component : String

-- `Error()`, and `json.Marshal`, which is none where it fails.
pub record Encoder : Type 0 where
  pub error_text : Error → List ℕ
  pub marshal : Option EncodedGrab → Option (List ℕ)

module _ {S : Type 0} (w : World S) (config : Config) (encoder : Encoder) where
  -- `Grab.MarshalJSON`
  unfoldable pub encode_grab : Grab → EncodedGrab
  encode_grab g = record {
    ip = w.ip_string g.ip;
    domain = g.domain;
    grab_data = g.grab_data;
    error = map encoder.error_text g.error;
    error_component = g.error_component;
  }

  -- The outcome of a run that grabbed.
  unfoldable pub grab_outcome : Grab → Outcome (List ℕ)
  grab_outcome g = record {
    status = some (status g);
    encoded = encoder.marshal (some (encode_grab g));
  }

  unfoldable pub after_grab : Result Grab × S → Result (Outcome (List ℕ)) × S
  after_grab (ok g, s) = (ok (grab_outcome g), s)
  after_grab (err e, s) = (err e, s)
  after_grab (panic, s) = (panic, s)
  after_grab (stuck, s) = (stuck, s)

  abbrev pub nil_outcome : Outcome (List ℕ)
  nil_outcome = record { status = none; encoded = encoder.marshal none }

  -- A run of the handler and of the marshaler on its result.
  unfoldable pub run_handler : Option GrabTarget → S → Result (Outcome (List ℕ)) × S
  run_handler none s = (ok nil_outcome, s)
  run_handler (some target) s = after_grab (grab_banner w config target s)

  -- What a run over HTTP comes to: nil for what is no target, and a grab within the limits.
  abbrev pub Handled : Option GrabTarget → Outcome (List ℕ) → Type 0
  Handled none o = o ≡ nil_outcome
  Handled (some target) o = (g : Grab) × IsFetched w config target g × (o ≡ grab_outcome g)

  after_grab-Handled :
      (target : GrabTarget) (r : Result Grab × S)
      → is_method config.http.method ≡ true
      → Fetched w config target r
      → (o : Outcome (List ℕ)) × (s : S) × (after_grab r ≡ (ok o, s)) × Handled (some target) o
  unfolding after_grab
  after_grab-Handled target (ok g, s) m h = (grab_outcome g, s, refl, (g, h, refl))
  after_grab-Handled target (err e, s) m h = elim h [ ]
  after_grab-Handled target (panic, s) m h = absurd cc
  after_grab-Handled target (stuck, s) m h = elim h [ ]

  pub run_handler-Handled :
      (object : Option GrabTarget) (s : S)
      → config.xssh ≡ false
      → 0 < length config.http.endpoint
      → is_method config.http.method ≡ true
      → (o : Outcome (List ℕ)) × (s' : S) × (run_handler object s ≡ (ok o, s')) × Handled object o
  unfolding run_handler
  run_handler-Handled none s x e m = (nil_outcome, s, refl, refl)
  run_handler-Handled (some target) s x e m =
      after_grab-Handled target (grab_banner w config target s) m
        (grab_banner-Fetched w config target s x e)
