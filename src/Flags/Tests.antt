-- ===== src/Flags/Tests.antt =====
-- The checks of the flags at the defaults of main.go with --smtp, and their theorems.
use tls_banner_grab_go.Base.{ℕ, ◌≡◌, refl, true, [], ◌∷◌, some}
use tls_banner_grab_go.Config.Defaults.{defaults}
use tls_banner_grab_go.Config.{Config}
use tls_banner_grab_go.Workers.{Outcome, State}
use tls_banner_grab_go.Grabber.Steps.{status_success}
use tls_banner_grab_go.Net.Text.{same_bytes}
use tls_banner_grab_go.Flags.{
  Flags, refuse, and_then, one_of, to_upper, version_if, choose_version, implied_tls, implied_smtp,
  hostname_if, choose_ehlo, check_rest, check_mail, init,
}
use tls_banner_grab_go.Flags.Accepted.{IsAccepted, init-IsAccepted}
use tls_banner_grab_go.Flags.Scans.{main_scan, IsScanned, init-IsScanned}

-- Mail over SMTP.
abbrev bound : Config
bound = record defaults { smtp = true }

abbrev flags : Flags
flags = record { port_flag = 25; timeout = 10; tls_version = []; hostname = some (b'h' ∷ []) }

abbrev accepted : Config
accepted = record bound { port = 25; timeout = 10; ehlo_domain = b'h' ∷ []; ehlo = true }

smtp_accepted : init flags bound ≡ some accepted
unfolding init refuse and_then one_of same_bytes to_upper choose_version implied_tls version_if
    check_mail choose_ehlo hostname_if implied_smtp check_rest
smtp_accepted = refl

init-IsAccepted_example : IsAccepted accepted
init-IsAccepted_example = init-IsAccepted flags bound accepted smtp_accepted

abbrev outcome : ℕ → ℕ → Outcome ℕ
outcome x run = record { status = some status_success; encoded = some x }

init-IsScanned_example :
    (m : ℕ) × (u : State ℕ ℕ) × IsScanned (main_scan accepted outcome) (7 ∷ 8 ∷ []) m u
init-IsScanned_example = init-IsScanned flags bound accepted outcome (7 ∷ 8 ∷ []) smtp_accepted
