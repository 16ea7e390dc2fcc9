-- ===== src/Conn/Keeps.antt =====
-- What the operations of zlib/conn.go leave of a connection.
use tls_banner_grab_go.Base.{ℕ, ◌≡◌, refl, ◌∙◌, List, Option, none, some}
use tls_banner_grab_go.Net.{ok, NetConn}
use tls_banner_grab_go.Conn.{
  Conn, Op, Tls, write, basic_banner, read, begin_handshake, tls_handshake, probe, check_heartbleed,
}

abbrev pub IsSome {ℓ} : {A : Type ℓ} → Option A → Type 0
IsSome none = ⊥
IsSome (some a) = Unit

module _ {S : Type 0} where
  -- TLS is on, and its handshake is in the log.
  abbrev pub IsUpgraded : Conn S → Type 0
  IsUpgraded c = IsSome c.tls_conn × IsSome c.grab_data.tls_handshake

  -- The component that is blamed is the same, and TLS stays on.
  pub record Keeps (c c' : Conn S) : Type 0 where
    pub component : c'.errored_component ≡ c.errored_component
    pub stays : IsUpgraded c → IsUpgraded c'

  abbrev pub IsKeeping : Op S → Type 0
  IsKeeping op = (c : Conn S) (s : S) → Keeps c (op c s).1

  pub Keeps-refl : (c : Conn S) → Keeps c c
  Keeps-refl c = record { component = refl; stays = λ h. h }

  pub Keeps-trans : (c d e : Conn S) → Keeps c d → Keeps d e → Keeps c e
  Keeps-trans c d e h k = record {
    component = k.component ∙ h.component;
    stays = λ u. k.stays (h.stays u);
  }

  pub write-IsKeeping : (b : List ℕ) → IsKeeping (write b)
  unfolding write
  write-IsKeeping b c s = record { component = refl; stays = λ h. h }

  pub basic_banner-IsKeeping : IsKeeping (basic_banner {S = S})
  unfolding basic_banner
  basic_banner-IsKeeping c s = record { component = refl; stays = λ h. h }

  pub read-IsKeeping : (size : ℕ) → IsKeeping (read size)
  unfolding read
  read-IsKeeping size c s = record { component = refl; stays = λ h. h }

  module _ (tls : Tls S) where
    -- Without an error, TLS is on.
    abbrev pub Upgrades : Op S → Type 0
    Upgrades op = (c : Conn S) (s : S) → (op c s).0 ≡ ok tt → IsUpgraded (op c s).1

    begin_handshake-Keeps :
        (o : Option (NetConn S)) (c : Conn S) (s : S) → Keeps c (begin_handshake tls o c s).1
    unfolding begin_handshake
    begin_handshake-Keeps none c s = record { component = refl; stays = λ h. (tt, tt) }
    begin_handshake-Keeps (some t) c s = Keeps-refl c

    pub tls_handshake-IsKeeping : IsKeeping (tls_handshake tls)
    unfolding tls_handshake
    tls_handshake-IsKeeping c s = begin_handshake-Keeps c.tls_conn c s

    begin_handshake-Upgrades :
        (o : Option (NetConn S)) (c : Conn S) (s : S)
        → (begin_handshake tls o c s).0 ≡ ok tt
        → IsUpgraded (begin_handshake tls o c s).1
    unfolding begin_handshake
    begin_handshake-Upgrades none c s h = (tt, tt)
    begin_handshake-Upgrades (some t) c s h = absurd cc

    pub tls_handshake-Upgrades : Upgrades (tls_handshake tls)
    unfolding tls_handshake
    tls_handshake-Upgrades c s h = begin_handshake-Upgrades c.tls_conn c s h

    probe-Keeps : (o : Option (NetConn S)) (c : Conn S) (s : S) → Keeps c (probe tls o c s).1
    unfolding probe
    probe-Keeps none c s = Keeps-refl c
    probe-Keeps (some t) c s = record { component = refl; stays = λ h. h }

    pub check_heartbleed-IsKeeping : IsKeeping (check_heartbleed tls)
    unfolding check_heartbleed
    check_heartbleed-IsKeeping c s = probe-Keeps c.tls_conn c s
