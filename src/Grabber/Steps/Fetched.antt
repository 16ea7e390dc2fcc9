-- ===== src/Grabber/Steps/Fetched.antt =====
-- A grab over HTTP.
use tls_banner_grab_go.Base.{length, ℕ, ◌<◌, ◌≡◌, refl, Bool, true, false, List, [], ◌∷◌, some}
use tls_banner_grab_go.Net.{Result, ok, err, panic, stuck}
use tls_banner_grab_go.Config.{Config}
use tls_banner_grab_go.Http.{Response, HttpLog}
use tls_banner_grab_go.Http.Grab.{Scanned, is_method, http_grab}
use tls_banner_grab_go.Http.Limits.{IsLogged, Logs, http_grab-Logs}
use tls_banner_grab_go.Grabber.Steps.{
  World, GrabTarget, Grab, status, status_success, finish, finish_http, http_or_banner,
  ssh_or_other, grab_banner, url_host,
}

module _ {S : Type 0} (w : World S) (config : Config) (target : GrabTarget) where
  -- What a grab over HTTP holds: the address and domain of its target, a log of HTTP, and no component.
  -- It is a success exactly if it has no error, and then the log has a response.
  pub record IsFetched (g : Grab) : Type 0 where
    pub ip : g.ip ≡ target.addr
    pub domain : g.domain ≡ target.domain
    pub log : HttpLog
    pub logs : g.grab_data.http ≡ some log
    pub limited : IsLogged w.client config log
    pub component : g.error_component ≡ ""
    pub answered : status g ≡ status_success → (res : Response) × (log.response ≡ some res)

  abbrev pub Fetched : Result Grab × S → Type 0
  Fetched (ok g, s) = IsFetched g
  Fetched (err e, s) = ⊥
  Fetched (panic, s) = is_method config.http.method ≡ false
  Fetched (stuck, s) = ⊥

  finish_http-Fetched :
      (c : Scanned S) → Logs w.client config c → Fetched (finish_http w config target c)
  unfolding finish status
  finish_http-Fetched (ok u, log, s) (h, a) = record {
    ip = refl;
    domain = refl;
    log = log;
    logs = refl;
    limited = h;
    component = refl;
    answered = λ e. a;
  }
  finish_http-Fetched (err x, log, s) (h, a) = record {
    ip = refl;
    domain = refl;
    log = log;
    logs = refl;
    limited = h;
    component = refl;
    answered = λ e. cc;
  }
  finish_http-Fetched (panic, log, s) (h, a) = a
  finish_http-Fetched (stuck, log, s) (h, a) = a

  http_or_banner-Fetched :
      (endpoint : List ℕ) (s : S)
      → 0 < length endpoint
      → Fetched (http_or_banner w config target endpoint s)
  unfolding http_or_banner
  http_or_banner-Fetched [] s h = elim h [ ]
  http_or_banner-Fetched (b ∷ bs) s h =
      finish_http-Fetched
        (http_grab w.client config (url_host w config target) (b ∷ bs) target.domain s)
        (http_grab-Logs w.client config (url_host w config target) (b ∷ bs) target.domain s)

  ssh_or_other-Fetched :
      (ssh : Bool) (s : S)
      → ssh ≡ false
      → 0 < length config.http.endpoint
      → Fetched (ssh_or_other w config target ssh s)
  unfolding ssh_or_other
  ssh_or_other-Fetched true s e h = absurd cc
  ssh_or_other-Fetched false s e h = http_or_banner-Fetched config.http.endpoint s h

  -- A grab without SSH, with an endpoint for HTTP, always returns, or ends the process: it never
  -- runs out of fuel, and it ends the process only if the method is neither GET nor HEAD. Where
  -- it returns, the grab holds the address and the domain of its target, no component, and an
  -- HTTP log with at most as many redirecting responses as the limit and one, where a negative
  -- limit counts as 0; each of them, as the last response, has a body no longer than its
  -- announced length and 1024 times the size of the options as a signed number of 64 bits, and
  -- empty where that is negative, with the hash of this body if it is not empty; a success has a
  -- last response in that log.
  pub grab_banner-Fetched :
      (s : S)
      → config.xssh ≡ false
      → 0 < length config.http.endpoint
      → Fetched (grab_banner w config target s)
  unfolding grab_banner
  grab_banner-Fetched s e h = ssh_or_other-Fetched config.xssh s e h
