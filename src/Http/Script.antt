-- ===== src/Http/Script.antt =====
-- A client that plays a list of turns, each with the body of its response. It shows that the contract
-- of `Client` can be met, and runs the grabber in tests.
use tls_banner_grab_go.Base.{
  inr, ℕ, ◌≤◌, ◌≡◌, refl, List, [], ◌∷◌, none, length, take, drop, arith, length-take,
}
use tls_banner_grab_go.Net.{new}
use tls_banner_grab_go.Net.Gives.{take-nil}
use tls_banner_grab_go.Grabber.{Suites}
use tls_banner_grab_go.Http.Host.{Resolver}
use tls_banner_grab_go.Http.Grab.{Client, Url, Turn, failed}

abbrev pub suites : Suites
suites = record {
  dhe = 51 ∷ [];
  ecdhe = 49171 ∷ [];
  rsa512_export = 3 ∷ [];
  dhe_export = 20 ∷ [];
  chrome = 49195 ∷ [];
  chrome_no_dhe = 49196 ∷ [];
  firefox = 49199 ∷ [];
  firefox_no_dhe = 49200 ∷ [];
  safari = 49188 ∷ [];
  safari_no_dhe = 49187 ∷ [];
}

-- The turns to come, and the body at hand.
pub record Play : Type 0 where
  pub turns : List (Turn × List ℕ)
  pub body : List ℕ

-- The next turn; the client fails where none is left.
unfoldable pub turn : Play → Turn × Play
turn p = elim p.turns [
  | [] ↦ (failed (new "no more turns"), record { turns = []; body = [] })
  | (t, body) ∷ turns ↦ (t, record { turns = turns; body = body })
]

unfoldable pub take_body : ℕ → Play → List ℕ × Play
take_body n p = (take n p.body, record p { body = drop n p.body })

pub take_body-le : (n : ℕ) (p : Play) → length (take_body n p).0 ≤ n
unfolding take_body
take_body-le n p = omega (arith, length-take n p.body)

abbrev pub close_body : Play → Play
close_body p = record p { body = [] }

pub take_body-close_body : (n : ℕ) (p : Play) → (take_body n (close_body p)).0 ≡ []
unfolding take_body
take_body-close_body n p = take-nil n

-- No name is an address, and none is found.
abbrev pub resolver : {S : Type 0} → Resolver S
resolver = record { parse_ip = λ text. none; lookup_host = λ host s. (none, s) }

-- Every address parses to `url`.
unfoldable pub play : Url → Client Play
play url = record {
  resolver = resolver;
  suites = suites;
  parse_url = λ text. inr url;
  split_host_port = λ host. inr host;
  sha256 = λ text. length text ∷ [];
  read_body = take_body;
  begin = λ tls request s. turn s;
  proceed = λ tls url s. turn s;
  close_body = close_body;
  read_body-close_body = take_body-close_body;
  read_body-le = take_body-le;
}

-- A client to which no host answers.
unfoldable pub silent : {S : Type 0} → Url → Client S
silent url = record {
  resolver = resolver;
  suites = suites;
  parse_url = λ text. inr url;
  split_host_port = λ host. inr host;
  sha256 = λ text. [];
  read_body = λ n s. ([], s);
  begin = λ tls request s. (failed (new "no answer"), s);
  proceed = λ tls url s. (failed (new "no answer"), s);
  close_body = λ s. s;
  read_body-close_body = λ n s. refl;
  read_body-le = λ n s. omega arith;
}
