-- ===== src/Http/Limits.antt =====
-- The limits of an HTTP scan: the redirects that it follows and the bytes that it keeps.
use mathlib.Core.Path.{subst}
use mathlib.Core.Option.{some-injective}
use tls_banner_grab_go.Base.{
  ◌⊎◌, ℕ, suc, ◌≤◌, ◌≡◌, refl, inl, inr, List, [], ◌∷◌, ◌++◌, Option, none, some, length, All,
  arith, length-append, Bool-cases, false,
}
use tls_banner_grab_go.Net.{Error, Result, ok, err, panic, stuck}
use tls_banner_grab_go.Config.{Config}
use tls_banner_grab_go.Conn.{TlsConfig}
use tls_banner_grab_go.Http.{Response, HttpLog, new_http_log}
use tls_banner_grab_go.Http.Grab.{
  redirect_limit, Client, Url, Request, Refusal, redir_localhost, too_many, Hops, Done, response,
  refused, no_response, keep_response, is_method, Scanned, settle, run_client, after_host,
  http_grab,
}
use tls_banner_grab_go.Http.Hops.{
  IsRecorded, keep_response-IsRecorded, Checks, local, over, on, IsInvariant, follow-Post,
}

All-snoc :
    {A : Type 0} (P : A → Type 0) (xs : List A) (x : A) → All P xs → P x → All P (xs ++ (x ∷ []))
All-snoc P [] x h p = (p, tt)
All-snoc P (y ∷ ys) x (h, hs) p = (h, All-snoc P ys x hs p)

module _ {S : Type 0} (client : Client S) (config : Config) where
  -- Redirects within the limit, each recorded.
  pub record IsLimited (chain : List Response) : Type 0 where
    pub few : length chain ≤ suc (redirect_limit config)
    pub recorded : All (IsRecorded client config) chain

  -- The client has ended, and where it was stopped by the limit the response is recorded too.
  abbrev pub Ends : Result Done × Hops × S → Type 0
  Ends (ok (response res), hops, s) = IsLimited hops.chain
  Ends (ok (no_response e), hops, s) = IsLimited hops.chain
  Ends (ok (refused res redir_localhost), hops, s) = IsLimited hops.chain
  Ends (ok (refused res too_many), hops, s) = IsLimited hops.chain × IsRecorded client config res
  Ends (err e, hops, s) = ⊥
  Ends (panic, hops, s) = ⊥
  Ends (stuck, hops, s) = ⊥

  -- `len(via)` is one more than the redirects so far.
  record Counted (via : ℕ) (hops : Hops) : Type 0 where
    pub count : via ≡ suc (length hops.chain)
    pub low : via ≤ suc (redirect_limit config)
    pub recorded : All (IsRecorded client config) hops.chain

  Counted-IsLimited : (via : ℕ) (hops : Hops) → Counted via hops → IsLimited hops.chain
  Counted-IsLimited via hops c = record {
    few = omega (arith, c.count, c.low);
    recorded = c.recorded;
  }

  stops-Ends :
      (url : Url) (via : ℕ) (hops hops' : Hops) (r : Refusal) (res : Response) (s s' : S)
      → Counted via hops
      → Checks client config url via hops (some r, res, hops', s)
      → Ends (ok (refused res r), hops', s')
  stops-Ends url via hops hops' r res s s' c (local res₁ s₁ s₂ e) = Counted-IsLimited via hops c
  stops-Ends url via hops hops' r res s s' c (over res₁ s₁ h l) = (
    record {
      few = omega (arith, length-append hops.chain (res₁ ∷ []), c.count, c.low);
      recorded = All-snoc (IsRecorded client config) hops.chain res₁ c.recorded h;
    },
    h,
  )

  goes_on-Counted :
      (url : Url) (via : ℕ) (hops hops' : Hops) (res : Response) (s : S)
      → Counted via hops
      → Checks client config url via hops (none, res, hops', s)
      → Counted (suc via) hops'
  goes_on-Counted url via hops hops' res s c (on res₁ s₁ s₂ s₃ e h l) = record {
    count = omega (arith, length-append hops.chain (res₁ ∷ []), c.count);
    low = omega (arith, l);
    recorded = All-snoc (IsRecorded client config) hops.chain res₁ c.recorded h;
  }

  Counted-IsInvariant : IsInvariant client config Counted Ends
  Counted-IsInvariant = record {
    below = λ via hops c. c.low;
    ends = λ via hops s c. (λ res. Counted-IsLimited via hops c, λ e. Counted-IsLimited via hops c);
    stops = stops-Ends;
    goes_on = goes_on-Counted;
  }

  -- Whatever the servers send, the client ends: the loop around CheckRedirect needs no more
  -- passes than the limit of redirects and one, where a negative limit counts as 0. Then the
  -- chain has at most that many responses, and each of them, as the response at which the limit
  -- stopped the client, has a body no longer than its announced length and 1024 times the size of
  -- the options as a signed number of 64 bits, and empty where that is negative, with its hash.
  pub run_client-Ends :
      (tls : Option TlsConfig) (request : Request) (s : S)
      → Ends (run_client client config tls request s)
  unfolding run_client
  run_client-Ends tls request s =
      follow-Post client config Counted-IsInvariant (suc (redirect_limit config)) 1
        (record { tls = tls; chain = [] }) (client.begin tls request s) (omega arith)
        (record { count = refl; low = omega arith; recorded = tt })

  -- What the log of a scan holds: the redirects within the limit, and a recorded response, which is
  -- there where the scan has no error.
  pub record IsLogged (log : HttpLog) : Type 0 where
    pub redirects : IsLimited log.redirect_response_chain
    pub last : (res : Response) → log.response ≡ some res → IsRecorded client config res

  abbrev Answers : Result (Unit {0}) → HttpLog → Type 0
  Answers (ok u) log = (res : Response) × (log.response ≡ some res)
  Answers (err e) log = Unit
  Answers panic log = is_method config.http.method ≡ false
  Answers stuck log = ⊥

  abbrev pub Logs : Scanned S → Type 0
  Logs (r, log, s) = IsLogged log × Answers r log

  none-IsLogged :
      (chain : List Response)
      → IsLimited chain
      → IsLogged (record { response = none; redirect_response_chain = chain })
  none-IsLogged chain h = record { redirects = h; last = λ res e. cc }

  keep_response-IsLogged :
      (chain : List Response) (res : Response) (s : S)
      → IsLimited chain
      → IsLogged (record {
        response = some (keep_response client config res s).0;
        redirect_response_chain = chain;
      })
  keep_response-IsLogged chain res s h = record {
    redirects = h;
    last = λ res' e.
        subst (λ r. IsRecorded client config r) (some-injective _ _ e)
          (keep_response-IsRecorded client config res s);
  }

  settle-Logs : (c : Result Done × Hops × S) → Ends c → Logs (settle client config c)
  unfolding settle
  settle-Logs (ok (response res), hops, s) h =
      (keep_response-IsLogged hops.chain res s h, ((keep_response client config res s).0, refl))
  settle-Logs (ok (refused res redir_localhost), hops, s) h =
      (keep_response-IsLogged hops.chain res s h, ((keep_response client config res s).0, refl))
  settle-Logs (ok (refused res too_many), hops, s) (h, r) = (
    record {
      redirects = h;
      last = λ res' e. subst (λ x. IsRecorded client config x) (some-injective _ _ e) r;
    },
    tt,
  )
  settle-Logs (ok (no_response e), hops, s) h = (none-IsLogged hops.chain h, tt)
  settle-Logs (err e, hops, s) h = elim h [ ]
  settle-Logs (panic, hops, s) h = elim h [ ]
  settle-Logs (stuck, hops, s) h = elim h [ ]

  empty-IsLogged : IsLogged new_http_log
  empty-IsLogged = none-IsLogged [] (record { few = omega arith; recorded = tt })

  after_host-Logs :
      (tls : Option TlsConfig) (url : List ℕ) (host : Error ⊎ List ℕ) (s : S)
      → Logs (after_host client config tls url host s)
  unfolding after_host
  after_host-Logs tls url (inr host) s = elim (Bool-cases (is_method config.http.method)) [
    | inl e ↦ rw e (settle-Logs (run_client client config tls _ s) (run_client-Ends tls _ s))
    | inr e ↦ rw e (empty-IsLogged, e)
  ]
  after_host-Logs tls url (inl e) s = (empty-IsLogged, tt)

  -- Whatever the servers send, the log of an HTTP scan has at most as many redirecting responses
  -- as the limit and one, where a negative limit counts as 0; each of them and the last response
  -- has a body that is no longer than its response announced and 1024 times the size of the options
  -- as a signed number of 64 bits, empty where that is negative, with the hash of this body if it
  -- is not empty;
  -- and where the scan has no error there is a last response.
  pub http_grab-Logs :
      (url_host endpoint http_host : List ℕ) (s : S)
      → Logs (http_grab client config url_host endpoint http_host s)
  unfolding http_grab
  http_grab-Logs url_host endpoint http_host s = after_host-Logs _ _ _ s
