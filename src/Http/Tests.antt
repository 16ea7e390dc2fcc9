-- ===== src/Http/Tests.antt =====
-- Scans of a host that redirects: to another, past the limit, one that is negative too, and to the
-- scanner's own host.
use tls_banner_grab_go.Base.{
  ℕ, ◌-◌, ◌^◌, ◌≡◌, refl, ap, Bool-cases, if◌then◌else◌, inl, inr, true, false, List, [], ◌∷◌,
  Option, none, some, take, drop,
}
use tls_banner_grab_go.Base.Int.{pos, negsuc, signed, int64, scale}
use tls_banner_grab_go.Net.{newi, ok, err}
use tls_banner_grab_go.Config.{Config}
use tls_banner_grab_go.Config.Defaults.{defaults}
use tls_banner_grab_go.Conn.{TlsConfig}
use tls_banner_grab_go.Http.{Response}
use tls_banner_grab_go.Net.Text.{same_bytes}
use tls_banner_grab_go.Http.Host.{
  localhost, http, contains_port, last_index, using_default_port, redirects_to_localhost,
}
use tls_banner_grab_go.Http.Grab.{
  Url, Turn, answered, redirected, Request, get_method, http_grab, run_client, after_host,
  request_host, after_parse, is_method, settle, follow, after_check, check_redirect, is_refused,
  keep_response, hash_of, read_len, with_tls,
}
use tls_banner_grab_go.Http.Limits.{Ends, run_client-Ends}
use tls_banner_grab_go.Http.Localhost.{Agree, changed, http_grab-changed}
use tls_banner_grab_go.Http.Script.{Play, turn, play, take_body}

-- One redirect is followed, and none to the own host; a body has up to one kilobyte.
abbrev config : Config
config = record defaults {
  port = 80;
  http = record defaults.http {
    max_size = pos 1;
    max_redirects = pos 1;
    follow_localhost_redirects = false;
  };
}

abbrev below : Config
below = record config { http = record config.http { max_redirects = negsuc 0 } }

abbrev url : List ℕ → Url
url host = record { scheme = http; host = host; hostname = host }

abbrev there : Url
there = url (b't' ∷ [])

abbrev res : Response
res = record { head = []; content_length = some 2; body_text = []; body_sha256 = none }

-- A redirect whose body has three bytes, of which it announces two; then one to the own host.
abbrev moves : Play
moves = record {
  turns =
      (redirected there res, 1 ∷ 2 ∷ 3 ∷ [])
      ∷ (redirected (url localhost) res, 4 ∷ [])
      ∷ (answered res, 5 ∷ [])
      ∷ [];
  body = [];
}

-- Two redirects, one more than the limit.
abbrev loops : Play
loops = record {
  turns = (redirected there res, 1 ∷ []) ∷ (redirected there res, 2 ∷ 3 ∷ []) ∷ [];
  body = [];
}

abbrev request : Request
request = record { method = get_method; url = []; host = b'h' ∷ [] }

run_client-Ends_example :
    Ends (play there) config (run_client (play there) config none request loops)
run_client-Ends_example = run_client-Ends (play there) config none request loops

-- A way to follow redirects on which the own host answers at once.
abbrev astray : Option TlsConfig → Url → Play → Turn × Play
astray tls to p = if same_bytes to.hostname localhost then (answered res, p) else turn p

astray-Agree : Agree (play there) config astray
unfolding play redirects_to_localhost
astray-Agree to s s' e tls s₁ = elim (Bool-cases (same_bytes to.hostname localhost)) [
  | inl b ↦ let clash : true ≡ false = ap (λ c. c.0) (rw b at e) in cc
  | inr b ↦ rw b refl
]

http_grab-changed_example :
    http_grab (play there) config (b'h' ∷ []) (b'/' ∷ []) [] moves
    ≡ http_grab (changed (play there) config astray) config (b'h' ∷ []) (b'/' ∷ []) [] moves
http_grab-changed_example =
    http_grab-changed (play there) config astray refl astray-Agree (b'h' ∷ []) (b'/' ∷ []) [] moves

-- The last redirect is answered by no error, and its body is closed.
moves_run : http_grab (play there) config (b'h' ∷ []) (b'/' ∷ []) [] moves ≡ (
  ok tt,
  record {
    response = some (record res { body_text = []; body_sha256 = none });
    redirect_response_chain =
        record res { body_text = 1 ∷ 2 ∷ []; body_sha256 = some (2 ∷ []) } ∷ [];
  },
  record { turns = (answered res, 5 ∷ []) ∷ []; body = [] },
)
unfolding play http_grab after_host after_parse request_host contains_port last_index is_method
    same_bytes settle run_client follow turn after_check check_redirect is_refused
    redirects_to_localhost keep_response take_body take drop hash_of read_len with_tls
    using_default_port int64 scale signed
moves_run = refl

-- A negative limit of redirects stops the client at the first, whose body is kept.
below_run : http_grab (play there) below (b'h' ∷ []) (b'/' ∷ []) [] moves ≡ (
  err (newi "stopped after redirects" (negsuc 0)),
  record {
    response = some (record res { body_text = 1 ∷ 2 ∷ []; body_sha256 = some (2 ∷ []) });
    redirect_response_chain =
        record res { body_text = 1 ∷ 2 ∷ []; body_sha256 = some (2 ∷ []) } ∷ [];
  },
  record {
    turns = (redirected (url localhost) res, 4 ∷ []) ∷ (answered res, 5 ∷ []) ∷ [];
    body = [];
  },
)
unfolding play http_grab after_host after_parse request_host contains_port last_index is_method
    same_bytes settle run_client follow turn after_check check_redirect is_refused
    redirects_to_localhost keep_response take_body take drop hash_of read_len with_tls
    using_default_port int64 scale signed
below_run = refl

-- A size of 2^53 kilobytes wraps, and nothing of a body is kept.
wraps_run :
    read_len (record config { http = record config.http { max_size = pos (2 ^ 53) } }) (some 2)
    ≡ negsuc (2 ^ 63 - 1)
unfolding read_len int64 scale signed
wraps_run = refl
