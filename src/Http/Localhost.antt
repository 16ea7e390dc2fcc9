-- ===== src/Http/Localhost.antt =====
-- Redirects to the scanner's own host, where the options forbid them.
use tls_banner_grab_go.Base.{◌⊎◌, inl, inr, ℕ, zero, suc, ◌≡◌, refl, ap, ◌∙◌, false, List, Option}
use tls_banner_grab_go.Net.{Error, Result}
use tls_banner_grab_go.Config.{Config}
use tls_banner_grab_go.Conn.{TlsConfig}
use tls_banner_grab_go.Http.{Response}
use tls_banner_grab_go.Http.Host.{redirects_to_localhost}
use tls_banner_grab_go.Http.Grab.{
  Client, Url, Turn, answered, failed, redirected, Refusal, Hops, Done, Request, is_refused,
  check_redirect, after_check, follow, run_client, keep_response, with_tls, hash_of, settle,
  after_host, http_grab, request_host, after_parse,
}
use tls_banner_grab_go.Http.Hops.{Checks, local, over, on, check_redirect-Checks}

module _ {S : Type 0} (client : Client S) (config : Config)
    (other : Option TlsConfig → Url → S → Turn × S) where
  -- The client with another way to follow a redirect.
  abbrev pub changed : Client S
  changed = record client { proceed = other }

  -- The two ways agree on the addresses that have been found not to be local.
  abbrev pub Agree : Type 0
  Agree =
      (url : Url) (s s' : S)
      → redirects_to_localhost client.resolver url.hostname s ≡ (false, s')
      → (tls : Option TlsConfig) (s₁ : S) → client.proceed tls url s₁ ≡ other tls url s₁

  module _ (forbidden : config.http.follow_localhost_redirects ≡ false) (agree : Agree) where
    allowed :
        (url : Url) (s s' : S)
        → is_refused client config url s ≡ (false, s')
        → redirects_to_localhost client.resolver url.hostname s ≡ (false, s')
    unfolding is_refused
    allowed url s s' e = rw forbidden at e

    after_check-eq :
        (url : Url) (via : ℕ) (hops : Hops) (next next' : Hops → S → Result Done × Hops × S)
        (c : Option Refusal × Response × Hops × S)
        → Checks client config url via hops c
        → (((tls : Option TlsConfig) (s : S) → client.proceed tls url s ≡ other tls url s)
            → (hops' : Hops) (s' : S) → next hops' s' ≡ next' hops' s')
        → after_check client config next c ≡ after_check changed config next' c
    unfolding after_check
    after_check-eq url via hops next next' c (local res s s' e) k = refl
    after_check-eq url via hops next next' c (over res s' h l) k = refl
    after_check-eq url via hops next next' c (on res s s₁ s' e h l) k =
        k (agree url s s₁ (allowed url s s₁ e)) _ s'

    follow-changed :
        (fuel via : ℕ) (hops : Hops) (c : Turn × S)
        → follow client config fuel via hops c ≡ follow changed config fuel via hops c
    unfolding follow check_redirect keep_response with_tls is_refused hash_of
    follow-changed fuel via hops (answered res, s) = refl
    follow-changed fuel via hops (failed e, s) = refl
    follow-changed zero via hops (redirected url res, s) = refl
    follow-changed (suc fuel) via hops (redirected url res, s) =
        after_check-eq url via hops
          (λ hops' s'. follow client config fuel (suc via) hops' (client.proceed hops'.tls url s'))
          (λ hops' s'. follow changed config fuel (suc via) hops' (other hops'.tls url s'))
          (check_redirect client config url res via hops s)
          (check_redirect-Checks client config url res via hops s)
          (λ same hops' s'.
            follow-changed fuel (suc via) hops' (client.proceed hops'.tls url s')
            ∙ ap (λ t. follow changed config fuel (suc via) hops' t) (same hops'.tls s'))

    run_client-changed :
        (tls : Option TlsConfig) (request : Request) (s : S)
        → run_client client config tls request s ≡ run_client changed config tls request s
    unfolding run_client
    run_client-changed tls request s = follow-changed _ 1 _ (client.begin tls request s)

    after_host-changed :
        (tls : Option TlsConfig) (url : List ℕ) (host : Error ⊎ List ℕ) (s : S)
        → after_host client config tls url host s ≡ after_host changed config tls url host s
    unfolding after_host settle keep_response hash_of
    after_host-changed tls url (inr host) s = rw run_client-changed refl
    after_host-changed tls url (inl e) s = refl

    -- Where redirects to the own host are forbidden, an HTTP scan is the same for two clients
    -- that differ only in how they follow redirects to hosts that are never found to be other
    -- than local: so no such redirect is followed.
    pub http_grab-changed :
        (url_host endpoint http_host : List ℕ) (s : S)
        → http_grab client config url_host endpoint http_host s
          ≡ http_grab changed config url_host endpoint http_host s
    unfolding http_grab after_parse request_host
    http_grab-changed url_host endpoint http_host s = after_host-changed _ _ _ s
