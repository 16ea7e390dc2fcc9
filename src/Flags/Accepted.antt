-- ===== src/Flags/Accepted.antt =====
-- What the checks of main.go leave of a configuration.
use tls_banner_grab_go.Base.{
  ℕ, ◌<◌, ◌≤◌, ◌≡◌, refl, sym, ◌∙◌, ap, Bool, true, false, not, ◌&&◌, ◌||◌, List, Option, none,
  some, ◌==◌, if◌then◌else◌, arith, length,
}
use mathlib.Core.Path.{subst}
use tls_banner_grab_go.Config.{Config}
use tls_banner_grab_go.Http.Grab.{is_method}
use tls_banner_grab_go.Flags.{
  Flags, one_of, http_methods, refuse, and_then, version_if, implied_tls, choose_version,
  implied_smtp, hostname_if, choose_ehlo, check_rest, check_mail, init, to_upper,
}

-- The checks that no later statement undoes, and what the flags imply.
pub record IsAccepted (c : Config) : Type 0 where
  pub connections : (1 ≤ c.connections_per_host) × (c.connections_per_host ≤ 50)
  pub method : is_method c.http.method ≡ true
  pub ftp : (c.ftp && c.banners) ≡ false
  pub ftp_auth_tls : (c.ftp_auth_tls && not c.ftp) ≡ false
  pub telnet : (c.telnet && c.banners) ≡ false
  pub start_tls : (c.start_tls && c.tls) ≡ false
  pub smtp : c.smtp ≡ c.ehlo
  pub smtp_help : (c.smtp_help && not c.smtp) ≡ false
  pub one_protocol : ((c.smtp && (c.imap || c.pop3)) ≡ false) × ((c.imap && c.pop3) ≡ false)
  pub heartbleed : (c.heartbleed && not (c.start_tls || c.tls)) ≡ false
  pub port : c.port < 65536
  pub senders : 0 < c.senders

refuse-some :
    {A : Type 0} (b : Bool) (rest : Option A) (a : A)
    → refuse b rest ≡ some a
    → (b ≡ false) × (rest ≡ some a)
unfolding refuse
refuse-some true rest a h = absurd cc
refuse-some false rest a h = (refl, h)

and_then-some :
    {A : Type 0} (o : Option A) (next : A → Option A) (a : A)
    → and_then o next ≡ some a
    → (b : A) × (o ≡ some b) × (next b ≡ some a)
unfolding and_then
and_then-some none next a h = absurd cc
and_then-some (some b) next a h = (b, refl, h)

check_rest-some :
    (flags : Flags) (c r : Config)
    → check_rest flags c ≡ some r
    → (r ≡ record c { port = flags.port_flag; timeout = flags.timeout })
      × ((c.smtp && (c.imap || c.pop3)) ≡ false)
      × ((c.imap && c.pop3) ≡ false)
      × ((c.heartbleed && not (c.start_tls || c.tls)) ≡ false)
      × (flags.port_flag < 65536)
      × (0 < c.senders)
unfolding check_rest
check_rest-some flags c r h =
    let (a, h1) = refuse-some _ _ r h in
    let (b, h2) = refuse-some _ _ r h1 in
    let (d, h3) = refuse-some _ _ r h2 in
    let (e, h4) = refuse-some _ _ r h3 in
    let (f, h5) = refuse-some _ _ r h4 in
    let (g, h6) = refuse-some _ _ r h5 in
    let (i, h7) = refuse-some _ _ r h6 in (cc, a, b, e, ground arith, ground arith)

-- A version is set, or is the one that was.
version_if-some :
    (on : Bool) (version : Option ℕ) (c r : Config)
    → version_if on version c ≡ some r
    → (v : ℕ) × (r ≡ record c { tls_version = v })
unfolding version_if
version_if-some true none c r h = absurd cc
version_if-some true (some v) c r h = (v, cc)
version_if-some false version c r h = (c.tls_version, cc)

with_ehlo : (c : Config) (b : Bool) → c.ehlo ≡ b → c ≡ record c { ehlo = b }
with_ehlo c b h = ap (λ e. record c { ehlo = e }) h

-- EHLO is on behind SMTP.
hostname_if-some :
    (smtp ehlo : Bool) (hostname : Option (List ℕ)) (c r : Config)
    → hostname_if smtp ehlo hostname c ≡ some r
    → c.ehlo ≡ ehlo
    → (name : List ℕ) × (r ≡ record c { ehlo_domain = name; ehlo = smtp || ehlo })
unfolding hostname_if
hostname_if-some true false none c r h e = absurd cc
hostname_if-some true false (some name) c r h e = (name, cc)
hostname_if-some true true hostname c r h e =
    let same : r ≡ c = cc in (c.ehlo_domain, same ∙ with_ehlo c true e)
hostname_if-some false ehlo hostname c r h e =
    let same : r ≡ c = cc in (c.ehlo_domain, same ∙ with_ehlo c ehlo e)

implied-ehlo :
    (help ehlo smtp : Bool)
    → (if help || ehlo then true else smtp) ≡ ((if help || ehlo then true else smtp) || ehlo)
implied-ehlo true ehlo smtp = refl
implied-ehlo false true smtp = refl
implied-ehlo false false true = refl
implied-ehlo false false false = refl

implied-help : (help ehlo smtp : Bool) → (help && not (if help || ehlo then true else smtp)) ≡ false
implied-help true ehlo smtp = refl
implied-help false ehlo smtp = refl

-- The methods that are not refused.
one_of-is_method :
    (method : List ℕ) → not (one_of method http_methods) ≡ false → is_method method ≡ true
unfolding one_of is_method
one_of-is_method method h = ground arith

-- The checks behind those of TLS, on a configuration `c` that passed them.
check_mail-some :
    (flags : Flags) (c r : Config)
    → (1 ≤ c.connections_per_host) × (c.connections_per_host ≤ 50)
    → is_method c.http.method ≡ true
    → (c.ftp && c.banners) ≡ false
    → (c.ftp_auth_tls && not c.ftp) ≡ false
    → (c.telnet && c.banners) ≡ false
    → check_mail flags c ≡ some r
    → IsAccepted r
unfolding check_mail choose_ehlo implied_smtp
check_mail-some flags c r connections method ftp auth telnet h =
    let (start, rest) = refuse-some _ _ r h in
    let (d, chosen, checked) = and_then-some _ _ r rest in
    let (name, same) = hostname_if-some _ _ flags.hostname (implied_smtp c) d chosen refl in
    let checked' = subst (λ v. check_rest flags v ≡ some r) same checked in
    let (result, mail, imap, heart, port, senders) = check_rest-some flags _ r checked' in
    let ehlo = if not (length c.ehlo_domain == 0) then true else c.ehlo in
    subst IsAccepted (sym result) (record {
      connections = connections;
      method = method;
      ftp = ftp;
      ftp_auth_tls = auth;
      telnet = telnet;
      start_tls = start;
      smtp = implied-ehlo c.smtp_help ehlo c.smtp;
      smtp_help = implied-help c.smtp_help ehlo c.smtp;
      one_protocol = (mail, imap);
      heartbleed = heart;
      port = port;
      senders = senders;
    })

-- A configuration that the checks of main.go accept, with what the flags imply, has 1 to 50
-- connections for each host, a sender, a port below 65536, neither TLS with STARTTLS nor banners
-- with FTP or telnet, at most one of SMTP, IMAP and POP3, EHLO exactly with SMTP, SMTP where HELP
-- is sent, FTP where its upgrade is, GET or HEAD as the method of HTTP, and TLS or STARTTLS where
-- Heartbleed is.
pub init-IsAccepted : (flags : Flags) (c r : Config) → init flags c ≡ some r → IsAccepted r
unfolding init choose_version implied_tls
init-IsAccepted flags c r h =
    let (a, h1) = refuse-some _ _ r h in
    let (b, h2) = refuse-some _ _ r h1 in
    let (d, h3) = refuse-some _ _ r h2 in
    let (ftp, h4) = refuse-some _ _ r h3 in
    let (auth, h5) = refuse-some _ _ r h4 in
    let (telnet, h6) = refuse-some _ _ r h5 in
    let (t, chosen, checked) = and_then-some _ _ r h6 in
    let (v, same) = version_if-some _ _ (implied_tls (to_upper flags.tls_version) c) t chosen in
    let checked' = subst (λ w. check_mail flags w ≡ some r) same checked in
    check_mail-some flags _ r (ground arith, ground arith) (one_of-is_method _ d) ftp auth telnet
      checked'
