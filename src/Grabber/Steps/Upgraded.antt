-- ===== src/Grabber/Steps/Upgraded.antt =====
-- When a grab has a TLS handshake in its log.
use tls_banner_grab_go.Base.{
  ℕ, ◌≡◌, refl, Bool, true, false, ◌⊎◌, inl, inr, List, [], ◌∷◌, ◌++◌, String, All, take, drop,
}
use tls_banner_grab_go.Net.{Result, ok, err, panic, stuck}
use tls_banner_grab_go.Config.{Config}
use tls_banner_grab_go.Conn.{Conn, Op}
use tls_banner_grab_go.Conn.Keeps.{IsSome, IsUpgraded, tls_handshake-Upgrades}
use tls_banner_grab_go.Conn.Mail.Keeps.{start_tls-Upgrades}
use tls_banner_grab_go.Siemens.Banner.{Dialed, refused, connected}
use tls_banner_grab_go.Grabber.{configure, dialed_conn}
use tls_banner_grab_go.Grabber.Steps.{
  World, Ended, component, and_then, skip, when, run, start_tls_step, steps, closing, grab, Grab,
  GrabTarget, finish, finish_scan, with_domain, after_dial, banner_grab, http_or_banner,
  ssh_or_other, grab_banner,
}
use tls_banner_grab_go.Grabber.Steps.Causes.{IsStep, run-IsStep}
use tls_banner_grab_go.Grabber.Steps.Kept.{steps-IsStep}

module _ {S : Type 0} where
  -- Without an error, TLS is on.
  abbrev Ends : Ended S → Type 0
  Ends v = v.0 ≡ ok tt → IsUpgraded v.1

  abbrev IsUpgrading : Op S → Type 0
  IsUpgrading op = (c : Conn S) (s : S) → Ends (op c s)

  component-Ends : (name : String) (v : Ended S) → Ends v → Ends (component name v)
  unfolding component
  component-Ends name (ok u, c, s) h k = h k
  component-Ends name (err e, c, s) h k = absurd cc
  component-Ends name (panic, c, s) h k = absurd cc
  component-Ends name (stuck, c, s) h k = absurd cc

  -- Behind a step of any kind.
  and_then-Ends : (next : Op S) (v : Ended S) → IsUpgrading next → Ends (and_then next v)
  unfolding and_then
  and_then-Ends next (ok u, c, s) h k = h c s k
  and_then-Ends next (err e, c, s) h k = absurd cc
  and_then-Ends next (panic, c, s) h k = absurd cc
  and_then-Ends next (stuck, c, s) h k = absurd cc

  -- Before steps that keep TLS on.
  then-Ends :
      (config : Config) (ops : List (Op S)) (v : Ended S)
      → All (IsStep config) ops
      → Ends v
      → Ends (and_then (run ops) v)
  unfolding and_then
  then-Ends config ops (ok u, c, s) h k e = (run-IsStep config ops h c s).stays (k refl)
  then-Ends config ops (err x, c, s) h k e = absurd cc
  then-Ends config ops (panic, c, s) h k e = absurd cc
  then-Ends config ops (stuck, c, s) h k e = absurd cc

  -- Steps of which one is upgrading, the `n`th.
  run-IsUpgrading :
      (config : Config) (before : List (Op S)) (op : Op S) (after : List (Op S))
      → IsUpgrading op
      → All (IsStep config) after
      → IsUpgrading (run (before ++ (op ∷ after)))
  unfolding run
  run-IsUpgrading config [] op after h hs c s = then-Ends config after (op c s) hs (h c s)
  run-IsUpgrading config (b ∷ before) op after h hs c s =
      and_then-Ends (run (before ++ (op ∷ after))) (b c s)
        (run-IsUpgrading config before op after h hs)

  when-IsUpgrading :
      (on : Bool) (op : Op S) → on ≡ true → IsUpgrading op → IsUpgrading (when on op skip)
  unfolding when
  when-IsUpgrading true op h k = k
  when-IsUpgrading false op h k = absurd cc

  either-IsUpgrading :
      (on : Bool) (op other : Op S)
      → IsUpgrading op
      → IsUpgrading other
      → IsUpgrading (when on op other)
  unfolding when
  either-IsUpgrading true op other h k = h
  either-IsUpgrading false op other h k = k

  module _ (w : World S) (config : Config) where
    start_tls_step-IsUpgrading : IsUpgrading (start_tls_step w config)
    unfolding start_tls_step
    start_tls_step-IsUpgrading c s =
        let (smtp, pop3, imap) = start_tls-Upgrades w.mail w.fuel w.tls in
        component-Ends "starttls" _ (
          either-IsUpgrading config.imap _ _ imap (either-IsUpgrading config.pop3 _ _ pop3 smtp) c
            s)

    steps-IsUpgrading :
        (config.tls ≡ true) ⊎ (config.start_tls ≡ true) → IsUpgrading (run (steps w config))
    unfolding steps take drop
    steps-IsUpgrading (inl on) =
        run-IsUpgrading config [] _ (drop 1 (steps w config))
          (when-IsUpgrading config.tls _ on
            (λ c s. component-Ends "tls" _ (tls_handshake-Upgrades w.tls c s)))
          (steps-IsStep w config).1
    steps-IsUpgrading (inr on) =
        run-IsUpgrading config (take 11 (steps w config)) _ (drop 12 (steps w config))
          (when-IsUpgrading config.start_tls _ on start_tls_step-IsUpgrading)
          (steps-IsStep w config).1.1.1.1.1.1.1.1.1.1.1.1

    closing-Ends : (v : Ended S) → Ends v → Ends (closing w config v)
    unfolding closing
    closing-Ends (ok u, c, s) h k = h k
    closing-Ends (err e, c, s) h k = absurd cc
    closing-Ends (panic, c, s) h k = absurd cc
    closing-Ends (stuck, c, s) h k = absurd cc

    grab-IsUpgrading : (config.tls ≡ true) ⊎ (config.start_tls ≡ true) → IsUpgrading (grab w config)
    unfolding grab
    grab-IsUpgrading on c s =
        closing-Ends (run (steps w config) (configure w.client.suites config c) s)
          (steps-IsUpgrading on (configure w.client.suites config c) s)

-- A grab with an error, or with a handshake in its log.
abbrev pub Logs : Result Grab → Type 0
Logs (ok g) = IsSome g.error ⊎ IsSome g.grab_data.tls_handshake
Logs (err e) = ⊥
Logs panic = Unit
Logs stuck = Unit

module _ {S : Type 0} (w : World S) (config : Config) (target : GrabTarget) where
  finish_scan-Logs : (v : Ended S) → Ends v → Logs (finish_scan w config target v).0
  unfolding finish_scan finish
  finish_scan-Logs (ok u, c, s) h = inr (h refl).1
  finish_scan-Logs (err x, c, s) h = inl tt
  finish_scan-Logs (panic, c, s) h = tt
  finish_scan-Logs (stuck, c, s) h = tt

  after_dial-Logs :
      (config.tls ≡ true) ⊎ (config.start_tls ≡ true)
      → (v : Dialed S × S) → Logs (after_dial w config target v).0
  unfolding after_dial finish
  after_dial-Logs on (refused e, s) = inl tt
  after_dial-Logs on (connected conn, s) =
      let c = with_domain w config target target.domain (dialed_conn config conn) in
      finish_scan-Logs (grab w config c s) (grab-IsUpgrading w config on c s)

  http_or_banner-Logs :
      (config.tls ≡ true) ⊎ (config.start_tls ≡ true)
      → (endpoint : List ℕ) (s : S) → endpoint ≡ []
      → Logs (http_or_banner w config target endpoint s).0
  unfolding http_or_banner banner_grab
  http_or_banner-Logs on [] s h = after_dial-Logs on _
  http_or_banner-Logs on (b ∷ bs) s h = absurd cc

  ssh_or_other-Logs :
      (config.tls ≡ true) ⊎ (config.start_tls ≡ true)
      → (ssh : Bool) (s : S) → ssh ≡ false
      → config.http.endpoint ≡ []
      → Logs (ssh_or_other w config target ssh s).0
  unfolding ssh_or_other
  ssh_or_other-Logs on true s h k = absurd cc
  ssh_or_other-Logs on false s h k = http_or_banner-Logs on config.http.endpoint s k

  -- A grab without SSH and HTTP, with TLS or STARTTLS switched on, that neither panics nor runs
  -- out of fuel has an error, or a TLS handshake in its log.
  pub grab_banner-Logs :
      (s : S)
      → config.xssh ≡ false
      → config.http.endpoint ≡ []
      → (config.tls ≡ true) ⊎ (config.start_tls ≡ true)
      → Logs (grab_banner w config target s).0
  unfolding grab_banner
  grab_banner-Logs s h k on = ssh_or_other-Logs on config.xssh s h k
