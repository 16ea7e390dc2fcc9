-- ===== src/Grabber/Steps/Causes.antt =====
-- What a component is blamed for, and steps that keep to it.
use tls_banner_grab_go.Base.{◌≡◌, refl, ◌∙◌, Bool, true, false, List, [], ◌∷◌, String, All}
use tls_banner_grab_go.Net.{ok, err, panic, stuck}
use tls_banner_grab_go.Config.{Config}
use tls_banner_grab_go.Conn.{Conn, Op}
use tls_banner_grab_go.Conn.Keeps.{IsUpgraded, Keeps, IsKeeping}
use tls_banner_grab_go.Grabber.Steps.{Ended, component, and_then, skip, when, named, run}

-- What a component is blamed for: an option that is on. No component is blamed for DNP3.
pub data Cause (config : Config) : String → Type 0 where
  tls : config.tls ≡ true → Cause config "tls"
  banner : config.banners ≡ true → Cause config "banner"
  ftp : config.ftp ≡ true → Cause config "ftp"
  ftp_auth_tls : config.ftp ≡ true → config.ftp_auth_tls ≡ true → Cause config "ftp-authtls"
  fox : config.fox ≡ true → Cause config "fox"
  telnet : config.telnet ≡ true → Cause config "telnet"
  s7 : config.s7 ≡ true → Cause config "s7"
  smb : config.smb.smb ≡ true → Cause config "smb"
  sent : config.send_data ≡ true → Cause config "write"
  received : config.send_data ≡ true → Cause config "read"
  ehlo : config.ehlo ≡ true → Cause config "ehlo"
  smtp_help : config.smtp_help ≡ true → Cause config "smtp_help"
  start_tls : config.start_tls ≡ true → Cause config "starttls"
  smtp_quit : config.smtp ≡ true → Cause config "quit"
  pop3_quit : config.pop3 ≡ true → Cause config "quit"
  imap_quit : config.imap ≡ true → Cause config "quit"
  modbus : config.modbus ≡ true → Cause config "modbus"
  bacnet : config.bacnet ≡ true → Cause config "bacnet"
  heartbleed : config.heartbleed ≡ true → Cause config "heartbleed"

module _ {S : Type 0} where
  -- A result without an error blames nothing, and one with an error what can be blamed.
  abbrev pub Blames : Config → Ended S → Type 0
  Blames config (ok u, c, s) = c.errored_component ≡ ""
  Blames config (err e, c, s) = Cause config c.errored_component
  Blames config (panic, c, s) = Unit
  Blames config (stuck, c, s) = Unit

  -- A step from a connection that blames nothing: it blames what can be blamed, and TLS stays on.
  pub record Follows (config : Config) (c : Conn S) (v : Ended S) : Type 0 where
    pub blames : c.errored_component ≡ "" → Blames config v
    pub stays : IsUpgraded c → IsUpgraded v.1

  abbrev pub IsStep : Config → Op S → Type 0
  IsStep config op = (c : Conn S) (s : S) → Follows config c (op c s)

  pub component-Follows :
      (config : Config) (name : String) (c : Conn S) (v : Ended S)
      → Cause config name
      → Keeps c v.1
      → Follows config c (component name v)
  unfolding component
  component-Follows config name c (ok u, d, s) cause h = record {
    blames = λ e. h.component ∙ e;
    stays = h.stays;
  }
  component-Follows config name c (err e, d, s) cause h = record {
    blames = λ _. cause;
    stays = h.stays;
  }
  component-Follows config name c (panic, d, s) cause h = record {
    blames = λ _. tt;
    stays = h.stays;
  }
  component-Follows config name c (stuck, d, s) cause h = record {
    blames = λ _. tt;
    stays = h.stays;
  }

  pub Keeps-Follows :
      (config : Config) (c d : Conn S) (v : Ended S)
      → Keeps c d
      → Follows config d v
      → Follows config c v
  Keeps-Follows config c d v h k = record {
    blames = λ e. k.blames (h.component ∙ e);
    stays = λ u. k.stays (h.stays u);
  }

  and_then-Follows :
      (config : Config) (next : Op S) (c : Conn S) (v : Ended S)
      → IsStep config next
      → Follows config c v
      → Follows config c (and_then next v)
  unfolding and_then
  and_then-Follows config next c (ok u, d, s) k h = record {
    blames = λ e. (k d s).blames (h.blames e);
    stays = λ u. (k d s).stays (h.stays u);
  }
  and_then-Follows config next c (err e, d, s) k h = h
  and_then-Follows config next c (panic, d, s) k h = h
  and_then-Follows config next c (stuck, d, s) k h = h

  pub skip-IsStep : (config : Config) → IsStep config skip
  skip-IsStep config c s = record { blames = λ e. e; stays = λ u. u }

  pub run-IsStep :
      (config : Config) (ops : List (Op S)) → All (IsStep config) ops → IsStep config (run ops)
  unfolding run
  run-IsStep config [] h c s = skip-IsStep config c s
  run-IsStep config (op ∷ ops) (h, hs) c s =
      and_then-Follows config (run ops) c (op c s) (run-IsStep config ops hs) (h c s)

  pub when-IsStep :
      (config : Config) (on : Bool) (op other : Op S)
      → (on ≡ true → IsStep config op)
      → IsStep config other
      → IsStep config (when on op other)
  unfolding when
  when-IsStep config true op other h k = h refl
  when-IsStep config false op other h k = k

  pub when-IsKeeping :
      (on : Bool) (op other : Op S) → IsKeeping op → IsKeeping other → IsKeeping (when on op other)
  unfolding when
  when-IsKeeping true op other h k = h
  when-IsKeeping false op other h k = k

  pub named-IsStep :
      (config : Config) (name : String) (op : Op S)
      → Cause config name
      → IsKeeping op
      → IsStep config (named name op)
  named-IsStep config name op cause keeps c s =
      component-Follows config name c (op c s) cause (keeps c s)

  -- A step that an option of its own switches on.
  pub option-IsStep :
      (config : Config) (on : Bool) (name : String) (op : Op S)
      → (on ≡ true → Cause config name)
      → IsKeeping op
      → IsStep config (when on (named name op) skip)
  option-IsStep config on name op cause keeps =
      when-IsStep config on (named name op) skip (λ e. named-IsStep config name op (cause e) keeps)
        (skip-IsStep config)
