-- ===== src/Flags.antt =====
-- `init` of main.go: the checks of the flags, and what they set. A fatal error is `none`. The files that
-- it opens behind them are input and output.
pub mod Accepted
pub mod Scans
pub mod HttpScans
mod Tests
use tls_banner_grab_go.Base.{
  ℕ, ◌-◌, Bool, true, false, not, ◌&&◌, ◌||◌, List, [], ◌∷◌, map, Option, none, some, length, ltb,
  leb, ◌==◌, if◌then◌else◌,
}
use tls_banner_grab_go.Base.Int.{pos, ltb_ℤ}
use tls_banner_grab_go.Net.Text.{same_bytes}
use tls_banner_grab_go.Config.{Config}

-- The flags that are no fields of the configuration, and what `os.Hostname` returns.
pub record Flags : Type 0 where
  pub port_flag : ℕ
  pub timeout : ℕ
  pub tls_version : List ℕ
  pub hostname : Option (List ℕ)

-- `if wrong { zlog.Fatal(...) }`
unfoldable pub refuse {ℓ} : {A : Type ℓ} → Bool → Option A → Option A
refuse true rest = none
refuse false rest = rest

unfoldable pub and_then {ℓ} : {A : Type ℓ} → Option A → (A → Option A) → Option A
and_then none next = none
and_then (some a) next = next a

unfoldable pub one_of : List ℕ → List (List ℕ) → Bool
one_of text [] = false
one_of text (t ∷ ts) = same_bytes text t || one_of text ts

abbrev some_bytes : List ℕ → Bool
some_bytes text = not (length text == 0)

-- `strings.ToUpper`, of ASCII.
unfoldable pub to_upper : List ℕ → List ℕ
to_upper [] = []
to_upper (b ∷ bs) = (if leb b'a' b && leb b b'z' then b - 32 else b) ∷ to_upper bs

abbrev pub http_methods : List (List ℕ)
http_methods = (b'G' ∷ b'E' ∷ b'T' ∷ []) ∷ (b'H' ∷ b'E' ∷ b'A' ∷ b'D' ∷ []) ∷ []

abbrev ssl : List ℕ → List ℕ
ssl rest = b'S' ∷ b'S' ∷ b'L' ∷ b'V' ∷ rest

abbrev tls : List ℕ → List ℕ
tls rest = b'T' ∷ b'L' ∷ b'S' ∷ b'V' ∷ rest

abbrev ssl30_names : List (List ℕ)
ssl30_names = ssl (b'3' ∷ []) ∷ ssl (b'3' ∷ b'0' ∷ []) ∷ ssl (b'3' ∷ b'.' ∷ b'0' ∷ []) ∷ []

abbrev tls10_names : List (List ℕ)
tls10_names = tls (b'1' ∷ []) ∷ tls (b'1' ∷ b'0' ∷ []) ∷ tls (b'1' ∷ b'.' ∷ b'0' ∷ []) ∷ []

abbrev tls11_names : List (List ℕ)
tls11_names = tls (b'1' ∷ b'1' ∷ []) ∷ tls (b'1' ∷ b'.' ∷ b'1' ∷ []) ∷ []

abbrev tls12_names : List (List ℕ)
tls12_names = [] ∷ tls (b'1' ∷ b'2' ∷ []) ∷ tls (b'1' ∷ b'.' ∷ b'2' ∷ []) ∷ []

-- The switch on the version.
unfoldable pub version_of : List ℕ → Option ℕ
version_of name =
    if one_of name ssl30_names
    then some 0x0300
    else if one_of name tls10_names
    then some 0x0301
    else if one_of name tls11_names
    then some 0x0302
    else if one_of name tls12_names
    then some 0x0303
    else none

-- What the switch sets, where it is come to.
unfoldable pub version_if : Bool → Option ℕ → Config → Option Config
version_if true none c = none
version_if true (some v) c = some (record c { tls_version = v })
version_if false version c = some c

-- Validate TLS Versions
unfoldable pub implied_tls : List ℕ → Config → Config
implied_tls name c = record c { tls = if some_bytes name then true else c.tls }

unfoldable pub choose_version : List ℕ → Config → Option Config
choose_version name c = version_if (c.tls || ltb_ℤ (pos 0) c.http.max_redirects) (version_of name) c

-- What the flags of SMTP imply.
unfoldable pub implied_smtp : Config → Config
implied_smtp c =
    let ehlo = if some_bytes c.ehlo_domain then true else c.ehlo in
    record c { ehlo = ehlo; smtp = if c.smtp_help || ehlo then true else c.smtp }

-- The host's name, where SMTP is on without EHLO.
unfoldable pub hostname_if : Bool → Bool → Option (List ℕ) → Config → Option Config
hostname_if true false none c = none
hostname_if true false (some name) c = some (record c { ehlo_domain = name; ehlo = true })
hostname_if true true hostname c = some c
hostname_if false ehlo hostname c = some c

unfoldable pub choose_ehlo : Option (List ℕ) → Config → Option Config
choose_ehlo hostname c = hostname_if c.smtp c.ehlo hostname c

-- The checks behind those of mail, with what is set.
unfoldable pub check_rest : Flags → Config → Option Config
check_rest flags c = refuse (c.smtp && (c.imap || c.pop3)) (
    refuse (c.imap && c.pop3) (
      refuse (c.ehlo && (c.imap || c.pop3)) (
        refuse (c.heartbleed && not (c.start_tls || c.tls)) (
          refuse (c.smb.smb && not (c.smb.protocol == 1)) (
            refuse (ltb 65535 flags.port_flag) (
              refuse (c.senders == 0)
                (some (record c { port = flags.port_flag; timeout = flags.timeout }))))))))

unfoldable pub check_mail : Flags → Config → Option Config
check_mail flags c =
    refuse (c.start_tls && c.tls)
      (and_then (choose_ehlo flags.hostname (implied_smtp c)) (check_rest flags))

-- `init`, from the checks of the Go runtime to the check of the senders.
unfoldable pub init : Flags → Config → Option Config
init flags c =
    let name = to_upper flags.tls_version in
    refuse (ltb c.gomaxprocs 1) (
      refuse (ltb 50 c.connections_per_host || ltb c.connections_per_host 1) (
        refuse (not (one_of c.http.method http_methods)) (
          refuse (c.ftp && c.banners) (
            refuse (c.ftp_auth_tls && not c.ftp) (
              refuse (c.telnet && c.banners)
                (and_then (choose_version name (implied_tls name c)) (check_mail flags)))))))
