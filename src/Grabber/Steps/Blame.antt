-- ===== src/Grabber/Steps/Blame.antt =====
-- The error and the component of a grab.
use tls_banner_grab_go.Base.{
  ℕ, ◌≡◌, refl, Bool, true, false, ◌⊎◌, inl, inr, List, [], ◌∷◌, none, some,
}
use tls_banner_grab_go.Net.{Error, net, Result, ok, err, panic, stuck}
use tls_banner_grab_go.Siemens.Banner.{Dialed, refused, connected}
use tls_banner_grab_go.Config.{Config}
use tls_banner_grab_go.Conn.{Conn}
use tls_banner_grab_go.Grabber.{configure, dialed_conn}
use tls_banner_grab_go.Grabber.Steps.{
  World, Ended, run, steps, closing, grab, Grab, GrabTarget, finish, finish_scan, with_domain,
  after_dial, banner_grab, http_or_banner, ssh_or_other, grab_banner,
}
use tls_banner_grab_go.Grabber.Steps.Causes.{Cause, Blames, run-IsStep}
use tls_banner_grab_go.Grabber.Steps.Kept.{steps-IsStep}

-- A grab has no error and blames nothing, or it has an error and blames the connection or a
-- component that an option switched on. It is no Go error by itself.
abbrev pub Blamed : Config → Result Grab → Type 0
Blamed config (ok g) =
    ((g.error ≡ none) × (g.error_component ≡ ""))
    ⊎ ((e : Error) × (g.error ≡ some e)
        × ((g.error_component ≡ "connect") ⊎ Cause config g.error_component))
Blamed config (err e) = ⊥
Blamed config panic = Unit
Blamed config stuck = Unit

module _ {S : Type 0} (w : World S) (config : Config) (target : GrabTarget) where
  closing-Blames : (v : Ended S) → Blames config v → Blames config (closing w config v)
  unfolding closing
  closing-Blames (ok u, c, s) h = h
  closing-Blames (err e, c, s) h = h
  closing-Blames (panic, c, s) h = h
  closing-Blames (stuck, c, s) h = h

  grab-Blames : (c : Conn S) (s : S) → c.errored_component ≡ "" → Blames config (grab w config c s)
  unfolding grab configure
  grab-Blames c s h = closing-Blames (run (steps w config) (configure w.client.suites config c) s) (
      (run-IsStep config (steps w config) (steps-IsStep w config)
          (configure w.client.suites config c) s).blames
        h)

  finish_scan-Blamed :
      (v : Ended S) → Blames config v → Blamed config (finish_scan w config target v).0
  unfolding finish_scan finish
  finish_scan-Blamed (ok u, c, s) h = inl (refl, h)
  finish_scan-Blamed (err e, c, s) h = inr (e, refl, inr h)
  finish_scan-Blamed (panic, c, s) h = tt
  finish_scan-Blamed (stuck, c, s) h = tt

  with_domain-component :
      (domain : List ℕ) (c : Conn S)
      → (with_domain w config target domain c).errored_component ≡ c.errored_component
  unfolding with_domain
  with_domain-component [] c = refl
  with_domain-component (b ∷ bs) c = refl

  after_dial-Blamed : (v : Dialed S × S) → Blamed config (after_dial w config target v).0
  unfolding after_dial finish
  after_dial-Blamed (refused e, s) = inr (net e, refl, inl refl)
  after_dial-Blamed (connected conn, s) =
      let c = with_domain w config target target.domain (dialed_conn config conn) in
      finish_scan-Blamed (grab w config c s)
        (grab-Blames c s (with_domain-component target.domain (dialed_conn config conn)))

  http_or_banner-Blamed :
      (endpoint : List ℕ) (s : S)
      → endpoint ≡ []
      → Blamed config (http_or_banner w config target endpoint s).0
  unfolding http_or_banner banner_grab
  http_or_banner-Blamed [] s h = after_dial-Blamed _
  http_or_banner-Blamed (b ∷ bs) s h = absurd cc

  ssh_or_other-Blamed :
      (ssh : Bool) (s : S)
      → ssh ≡ false
      → config.http.endpoint ≡ []
      → Blamed config (ssh_or_other w config target ssh s).0
  unfolding ssh_or_other
  ssh_or_other-Blamed true s h k = absurd cc
  ssh_or_other-Blamed false s h k = http_or_banner-Blamed config.http.endpoint s k

  -- A grab without SSH and HTTP, over any network and libraries, that neither panics nor runs out
  -- of fuel has no error and names no component, or has an error and names the connection or a
  -- component that an option of the configuration switched on.
  pub grab_banner-Blamed :
      (s : S)
      → config.xssh ≡ false
      → config.http.endpoint ≡ []
      → Blamed config (grab_banner w config target s).0
  unfolding grab_banner
  grab_banner-Blamed s h k = ssh_or_other-Blamed config.xssh s h k
