-- ===== src/Http/Grab.antt =====
-- The grabber that `makeHTTPGrabber` of zlib/grabber.go makes. The client of ztools/http is what it
-- does between two calls of `CheckRedirect`.
use tls_banner_grab_go.Base.{
  ◌⊎◌, inl, inr, ℕ, zero, suc, ◌≤◌, ◌≡◌, Bool, true, false, ◌&&◌, ◌||◌, List, [], ◌∷◌, ◌++◌, Option,
  none, some, length, ◌==◌, if◌then◌else◌,
}
use tls_banner_grab_go.Base.Int.{ℤ, pos, pos_part, ltb_ℤ, scale, int64}
use tls_banner_grab_go.Net.{Error, newi, Result, ok, err, panic, stuck}
use tls_banner_grab_go.Config.{Config}
use tls_banner_grab_go.Conn.{TlsConfig}
use tls_banner_grab_go.Grabber.{Suites, make_tls_config}
use tls_banner_grab_go.Http.{Response, HttpLog, new_http_log}
use tls_banner_grab_go.Net.Text.{same_bytes}
use tls_banner_grab_go.Http.Host.{
  Resolver, contains_port, using_default_port, redirects_to_localhost, https, http,
}

-- `url.URL`, as far as the grabber reads it; `hostname` is what `Hostname` gives.
pub record Url : Type 0 where
  pub scheme : List ℕ
  pub host : List ℕ
  pub hostname : List ℕ

-- What `NewRequestWithHost` is given.
pub record Request : Type 0 where
  pub method : List ℕ
  pub url : List ℕ
  pub host : List ℕ

-- What the client does next: it has its last response, or an error, or it is about to follow a
-- response to an address.
pub data Turn : Type 0 where
  answered : Response → Turn
  failed : Error → Turn
  redirected : Url → Response → Turn

-- The libraries and the network of the scan, over the states of the latter. `begin` sends the request,
-- or fails to make it; `proceed` follows a redirect. Both have the transport's TLS configuration.
-- `read_body` is `io.CopyN` from the body of the response at hand, which the client closes where
-- `CheckRedirect` stops it; the laws are their contract.
pub record Client (S : Type 0) : Type 0 where
  pub resolver : Resolver S
  pub suites : Suites
  pub parse_url : List ℕ → Error ⊎ Url
  pub split_host_port : List ℕ → Error ⊎ List ℕ
  pub sha256 : List ℕ → List ℕ
  pub read_body : ℕ → S → List ℕ × S
  pub begin : Option TlsConfig → Request → S → Turn × S
  pub proceed : Option TlsConfig → Url → S → Turn × S
  pub close_body : S → S
  pub read_body-close_body : (n : ℕ) (s : S) → (read_body n (close_body s)).0 ≡ []
  pub read_body-le : (n : ℕ) (s : S) → length (read_body n s).0 ≤ n

-- Why `CheckRedirect` stops the client: `ErrRedirLocalhost`, or the limit.
pub data Refusal : Type 0 where
  redir_localhost too_many : Refusal

-- What the grabber keeps while the client runs: the transport's TLS configuration and the responses
-- that redirect.
pub record Hops : Type 0 where
  pub tls : Option TlsConfig
  pub chain : List Response

-- What `client.Do` returns: a response, and an error of the client or of `CheckRedirect`.
pub data Done : Type 0 where
  response : Response → Done
  refused : Response → Refusal → Done
  no_response : Error → Done

-- The redirects that the limit lets pass; none where it is negative.
abbrev pub redirect_limit : Config → ℕ
redirect_limit config = pos_part config.http.max_redirects

-- `maxReadLen` and `readLen`, in 64 bits with a sign.
abbrev pub max_read_len : Config → ℤ
max_read_len config = int64 (scale 1024 config.http.max_size)

unfoldable pub read_len : Config → Option ℕ → ℤ
read_len config none = max_read_len config
read_len config (some n) =
    if ltb_ℤ (pos n) (max_read_len config) then pos n else max_read_len config

module _ {S : Type 0} (client : Client S) (config : Config) where
  unfoldable pub hash_of : List ℕ → Option (List ℕ)
  hash_of [] = none
  hash_of (b ∷ bs) = some (client.sha256 (b ∷ bs))

  abbrev pub with_body : Response → List ℕ × S → Response × S
  with_body res (text, s) = (record res { body_text = text; body_sha256 = hash_of text }, s)

  -- The body of a response without one as yet; `io.CopyN` of a negative number copies nothing.
  unfoldable pub keep_response : Response → S → Response × S
  keep_response res s =
      with_body res (client.read_body (pos_part (read_len config res.content_length)) s)

  unfoldable pub is_refused : Url → S → Bool × S
  is_refused url s =
      if config.http.follow_localhost_redirects
      then (false, s)
      else redirects_to_localhost client.resolver url.hostname s

  -- The transport gets a TLS configuration for the first address that wants one.
  unfoldable pub with_tls : Url → Option TlsConfig → Option TlsConfig
  with_tls url (some c) = some c
  with_tls url none =
      if same_bytes url.scheme https
      then some (make_tls_config client.suites config url.host)
      else none

  -- `client.CheckRedirect` with its `len(via)`.
  abbrev pub limited : Url → Response → ℕ → Hops → S → Option Refusal × Response × Hops × S
  limited url res via hops s =
      let chain = hops.chain ++ (res ∷ []) in
      if ltb_ℤ config.http.max_redirects (pos via)
      then (some too_many, res, record hops { chain = chain }, s)
      else (none, res, record { tls = with_tls url hops.tls; chain = chain }, s)

  abbrev pub after_body : Url → ℕ → Hops → Response × S → Option Refusal × Response × Hops × S
  after_body url via hops (res, s) = limited url res via hops s

  abbrev pub checked : Url → Response → ℕ → Hops → Bool × S → Option Refusal × Response × Hops × S
  checked url res via hops (true, s) = (some redir_localhost, res, hops, s)
  checked url res via hops (false, s) = after_body url via hops (keep_response res s)

  unfoldable pub check_redirect :
      Url → Response → ℕ → Hops → S → Option Refusal × Response × Hops × S
  check_redirect url res via hops s = checked url res via hops (is_refused url s)

  -- The client's loop around `CheckRedirect`. The fuel bounds the redirects.
  unfoldable pub after_check :
      (Hops → S → Result Done × Hops × S)
      → Option Refusal × Response × Hops × S
      → Result Done × Hops × S
  after_check next (none, res, hops, s) = next hops s
  after_check next (some r, res, hops, s) = (ok (refused res r), hops, client.close_body s)

  unfoldable pub follow : ℕ → ℕ → Hops → Turn × S → Result Done × Hops × S
  follow fuel via hops (answered res, s) = (ok (response res), hops, s)
  follow fuel via hops (failed e, s) = (ok (no_response e), hops, s)
  follow zero via hops (redirected url res, s) = (stuck, hops, s)
  follow (suc fuel) via hops (redirected url res, s) =
      after_check (λ hops' s'. follow fuel (suc via) hops' (client.proceed hops'.tls url s'))
        (check_redirect url res via hops s)

abbrev scheme_text : Bool → List ℕ
scheme_text true = https ++ (b':' ∷ b'/' ∷ b'/' ∷ [])
scheme_text false = http ++ (b':' ∷ b'/' ∷ b'/' ∷ [])

abbrev pub get_method : List ℕ
get_method = b'G' ∷ b'E' ∷ b'T' ∷ []

abbrev pub head_method : List ℕ
head_method = b'H' ∷ b'E' ∷ b'A' ∷ b'D' ∷ []

-- Whether the method is one that the grabber sends.
unfoldable pub is_method : List ℕ → Bool
is_method method = same_bytes method get_method || same_bytes method head_method

-- What a scan ends with.
abbrev pub Scanned : Type 0 → Type 0
Scanned S = Result (Unit {0}) × HttpLog × S

module _ {S : Type 0} (client : Client S) (config : Config) where
  -- The name that the request asks for: without a port where it is the scheme's own.
  unfoldable pub request_host : List ℕ → Url → Error ⊎ List ℕ
  request_host http_host url =
      let host = if length http_host == 0 then url.host else http_host in
      if contains_port host && using_default_port url.scheme config.port
      then client.split_host_port host
      else inr host

  abbrev full_url : List ℕ → List ℕ → List ℕ
  full_url url_host endpoint = scheme_text config.tls ++ (url_host ++ endpoint)

  abbrev first_tls : List ℕ → Option TlsConfig
  first_tls http_host =
      if config.tls then some (make_tls_config client.suites config http_host) else none

  -- The response that is logged with its body.
  abbrev log_response : List Response → Response × S → Scanned S
  log_response chain (res, s) =
      (ok tt, record { response = some res; redirect_response_chain = chain }, s)

  unfoldable pub settle : Result Done × Hops × S → Scanned S
  settle (ok (response res), hops, s) = log_response hops.chain (keep_response client config res s)
  settle (ok (refused res redir_localhost), hops, s) =
      log_response hops.chain (keep_response client config res s)
  settle (ok (refused res too_many), hops, s) = (
    err (newi "stopped after redirects" config.http.max_redirects),
    record { response = some res; redirect_response_chain = hops.chain },
    s,
  )
  settle (ok (no_response e), hops, s) =
      (err e, record { response = none; redirect_response_chain = hops.chain }, s)
  settle (err e, hops, s) =
      (err e, record { response = none; redirect_response_chain = hops.chain }, s)
  settle (panic, hops, s) =
      (panic, record { response = none; redirect_response_chain = hops.chain }, s)
  settle (stuck, hops, s) =
      (stuck, record { response = none; redirect_response_chain = hops.chain }, s)

  -- `client.Do`, with fuel for one redirect more than the limit, or for one where it is negative.
  unfoldable pub run_client : Option TlsConfig → Request → S → Result Done × Hops × S
  run_client tls request s =
      follow client config (suc (redirect_limit config)) 1 (record { tls = tls; chain = [] })
        (client.begin tls request s)

  -- The method that is neither ends the process, which stands as a panic.
  unfoldable pub after_host : Option TlsConfig → List ℕ → Error ⊎ List ℕ → S → Scanned S
  after_host tls url (inr host) s =
      if is_method config.http.method
      then settle
          (run_client tls (record { method = config.http.method; url = url; host = host }) s)
      else (panic, new_http_log, s)
  after_host tls url (inl e) s = (err e, new_http_log, s)

  unfoldable pub after_parse : List ℕ → Error ⊎ Url → Error ⊎ List ℕ
  after_parse http_host (inl e) = inl e
  after_parse http_host (inr url) = request_host http_host url

  -- `makeHTTPGrabber`
  unfoldable pub http_grab : List ℕ → List ℕ → List ℕ → S → Scanned S
  http_grab url_host endpoint http_host s =
      let url = full_url url_host endpoint in
      after_host (first_tls http_host) url (after_parse http_host (client.parse_url url)) s
