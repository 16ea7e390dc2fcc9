-- ===== src/Ftp/Upgrade.antt =====
-- What `GetFTPBanner` and `SetupFTPS` make of the replies.
use tls_banner_grab_go.Base.{
  ℕ, ◌≡◌, ◌⊎◌, refl, Bool, true, false, List, [], Option, none, some, arith, Option-cases,
  Bool-cases, inl, inr,
}
use tls_banner_grab_go.Net.{Error, Result, ok, err, panic, stuck, NetConn}
use tls_banner_grab_go.Ftp.{
  Pattern, Reply, FtpLog, has_prefix_2, ret_code_ok, read_until_regex, judge, banner_reply,
  get_ftp_banner, auth_reply, put_tls, put_ssl, after_tls, setup_ftps, auth_tls, auth_ssl,
}
use tls_banner_grab_go.Ftp.Replies.{IsReply, read_until_regex-IsReply}

module _ {S : Type 0} (conn : NetConn S) (pattern : Pattern) where
  -- A reply that matches and whose code starts with 2.
  abbrev pub Accepts : List ℕ → Type 0
  Accepts text = (pattern.matches text ≡ true) × (ret_code_ok pattern text ≡ ok true)

  -- How an exchange ends: with a success that a reply gave, or with no success; never in a panic.
  abbrev pub Ends : (FtpLog → Type 0) → Result (Bool × Option Error) × FtpLog × S → Type 0
  Ends Accepted (ok (true, e), log, s) = (e ≡ none) × Accepted log
  Ends Accepted (ok (false, e), log, s) = Unit
  Ends Accepted (err e, log, s) = ⊥
  Ends Accepted (panic, log, s) = ⊥
  Ends Accepted (stuck, log, s) = Unit

  ret_code_ok-matches :
      (text : List ℕ) → pattern.matches text ≡ true → (b : Bool) × (ret_code_ok pattern text ≡ ok b)
  unfolding ret_code_ok
  ret_code_ok-matches text m =
      let (code, e) = pattern.matches-submatch text m in (has_prefix_2 code, rw (ret_code_ok, e))

  judge-Ends :
      (Accepted : FtpLog → Type 0) (text : List ℕ) (log : FtpLog) (s : S)
      → pattern.matches text ≡ true
      → (ret_code_ok pattern text ≡ ok true → Accepted log)
      → Ends Accepted (judge conn pattern text log s)
  judge-Ends Accepted text log s m h =
      let (b, e) = ret_code_ok-matches text m in
      elim (Bool-cases b) [ inl t ↦ rw (e, t) (refl, h (rw t at e)) | inr f ↦ rw (e, f) tt ]

  auth_reply-Ends :
      (Accepted : FtpLog → Type 0) (put : List ℕ → FtpLog → FtpLog) (log : FtpLog) (size : ℕ)
      (r : Result Reply) (s : S)
      → IsReply conn pattern size r
      → ((text : List ℕ) → Accepts text → Accepted (put text log))
      → Ends Accepted (auth_reply conn pattern put log (r, s))
  unfolding auth_reply
  auth_reply-Ends Accepted put log size (ok v) s h k = elim (Option-cases v.error) [
    | inr (e, p) ↦ rw p tt
    | inl p ↦
        let m : pattern.matches v.text ≡ true = (rw p at h).0 in
        rw p (judge-Ends Accepted v.text (put v.text log) s m (λ c. k v.text (m, c)))
  ]
  auth_reply-Ends Accepted put log size (err e) s h k = h
  auth_reply-Ends Accepted put log size panic s h k = h
  auth_reply-Ends Accepted put log size stuck s h k = tt

  banner_reply-Ends :
      (log : FtpLog) (size : ℕ) (r : Result Reply) (s : S)
      → IsReply conn pattern size r
      → Ends (λ l. Accepts l.banner) (banner_reply conn pattern log (r, s))
  unfolding banner_reply
  banner_reply-Ends log size (ok v) s h = elim (Option-cases v.error) [
    | inr (e, p) ↦ rw p tt
    | inl p ↦
        let m : pattern.matches v.text ≡ true = (rw p at h).0 in
        rw p (
          judge-Ends (λ l. Accepts l.banner) v.text (record log { banner = v.text }) s m
            (λ c. (m, c)))
  ]
  banner_reply-Ends log size (err e) s h = h
  banner_reply-Ends log size panic s h = h
  banner_reply-Ends log size stuck s h = tt

  -- However the server behaves, GetFTPBanner does not panic, and where it reports a success there
  -- is no error and the logged banner matches with a code that starts with 2.
  pub get_ftp_banner-Ends :
      (fuel : ℕ) (log : FtpLog) (s : S)
      → Ends (λ l. Accepts l.banner) (get_ftp_banner conn pattern fuel log s)
  unfolding get_ftp_banner
  get_ftp_banner-Ends fuel log s =
      let (r, s') = read_until_regex conn pattern fuel 1024 [] s in
      banner_reply-Ends log 1024 r s'
        (read_until_regex-IsReply conn pattern fuel 1024 [] s (omega arith))

  abbrev pub Upgraded : FtpLog → Type 0
  Upgraded log = Accepts log.auth_tls_resp ⊎ Accepts log.auth_ssl_resp

  after_tls-Ends :
      (fuel : ℕ) (c : Result (Bool × Option Error) × FtpLog × S)
      → Ends Upgraded c
      → Ends Upgraded (after_tls conn pattern fuel c)
  unfolding after_tls
  after_tls-Ends fuel (ok (false, none), log, s) h =
      let next = (conn.write (auth_ssl conn pattern) s).1 in
      let (r, s') = read_until_regex conn pattern fuel 1024 [] next in
      auth_reply-Ends Upgraded (put_ssl conn pattern) log 1024 r s'
        (read_until_regex-IsReply conn pattern fuel 1024 [] next (omega arith)) (λ text a. inr a)
  after_tls-Ends fuel (ok (false, some e), log, s) h = tt
  after_tls-Ends fuel (ok (true, e), log, s) h = h
  after_tls-Ends fuel (err e, log, s) h = h
  after_tls-Ends fuel (panic, log, s) h = h
  after_tls-Ends fuel (stuck, log, s) h = tt

  -- However the server behaves, SetupFTPS does not panic, and where it reports a success there is
  -- no error and one of the two logged replies matches with a code that starts with 2.
  pub setup_ftps-Ends :
      (fuel : ℕ) (log : FtpLog) (s : S) → Ends Upgraded (setup_ftps conn pattern fuel log s)
  unfolding setup_ftps
  setup_ftps-Ends fuel log s =
      let next = (conn.write (auth_tls conn pattern) s).1 in
      let (r, s') = read_until_regex conn pattern fuel 1024 [] next in
      after_tls-Ends fuel _ (
        auth_reply-Ends Upgraded (put_tls conn pattern) log 1024 r s'
          (read_until_regex-IsReply conn pattern fuel 1024 [] next (omega arith)) (λ text a. inl a))
