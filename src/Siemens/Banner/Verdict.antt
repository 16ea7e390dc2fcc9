-- ===== src/Siemens/Banner/Verdict.antt =====
-- What `GetS7Banner` returns and what it says in the log.
use tls_banner_grab_go.Base.{inl, inr, ℕ, ◌≡◌, refl, ◌∙◌, true, List}
use tls_banner_grab_go.Net.{Result, ok, err, panic, stuck, NetConn}
use tls_banner_grab_go.Net.Slices.{Slice}
use tls_banner_grab_go.Siemens.{S7Packet}
use tls_banner_grab_go.Siemens.Identification.{S7Log}
use tls_banner_grab_go.Siemens.Identification.Fields.{Parses, parse_identification_total}
use tls_banner_grab_go.Siemens.Banner.{
  Dialed, Ended, ended, component_identification, after_module, module_identification, negotiated,
  negotiate, confirmed, after_connect, connect, get_s7_banner, read_request,
  send_request_read_response,
}

module _ {S : Type 0} where
  -- A success goes with the verdict, an error with the log as it was.
  abbrev pub Verdict : S7Log → Ended S → Type 0
  Verdict log (ok _, log', s) = log'.is_s7 ≡ true
  Verdict log (err e, log', s) = log' ≡ log
  Verdict log (panic, log', s) = Unit
  Verdict log (stuck, log', s) = Unit

  -- Behind the negotiation there is no error any more.
  abbrev Masked : Ended S → Type 0
  Masked (ok _, log', s) = log'.is_s7 ≡ true
  Masked (err e, log', s) = ⊥
  Masked (panic, log', s) = Unit
  Masked (stuck, log', s) = Unit

  ended-Masked :
      (log : S7Log) (p : S7Packet) (r : Result S7Log) (s : S)
      → log.is_s7 ≡ true
      → Parses log p r
      → Masked (ended log r s)
  unfolding ended
  ended-Masked log p r s h (inl (l, e)) = rw e h
  ended-Masked log p r s h (inr (l, (log', e, v))) = rw e (v ∙ h)

  component-Masked :
      (log : S7Log) (c : Result S7Packet × S)
      → log.is_s7 ≡ true
      → Masked (component_identification log c)
  unfolding component_identification
  component-Masked log (ok p, s) h = ended-Masked log p _ s h ((parse_identification_total log p).0)
  component-Masked log (err e, s) h = h
  component-Masked log (panic, s) h = tt
  component-Masked log (stuck, s) h = tt

  after_module-Masked :
      (conn : NetConn S) (log : S7Log) (p : S7Packet) (r : Result S7Log) (s : S)
      → log.is_s7 ≡ true
      → Parses log p r
      → Masked (after_module conn log r s)
  unfolding after_module
  after_module-Masked conn log p r s h (inl (l, e)) =
      rw e (component-Masked log (read_request conn 0x1c s) h)
  after_module-Masked conn log p r s h (inr (l, (log', e, v))) =
      rw e (component-Masked log' (read_request conn 0x1c s) (v ∙ h))

  module-Masked :
      (conn : NetConn S) (log : S7Log) (c : Result S7Packet × S)
      → log.is_s7 ≡ true
      → Masked (module_identification conn log c)
  unfolding module_identification
  module-Masked conn log (ok p, s) h =
      after_module-Masked conn log p _ s h ((parse_identification_total log p).1)
  module-Masked conn log (err e, s) h = h
  module-Masked conn log (panic, s) h = tt
  module-Masked conn log (stuck, s) h = tt

  Masked-Verdict : (log : S7Log) (c : Ended S) → Masked c → Verdict log c
  Masked-Verdict log (ok _, log', s) h = h
  Masked-Verdict log (err e, log', s) h = elim h [ ]
  Masked-Verdict log (panic, log', s) h = tt
  Masked-Verdict log (stuck, log', s) h = tt

  negotiated-Verdict :
      (conn : NetConn S) (log : S7Log) (c : Result Slice × S) → Verdict log (negotiated conn log c)
  unfolding negotiated
  negotiated-Verdict conn log (ok response, s) =
      Masked-Verdict log _
        (module-Masked conn (record log { is_s7 = true }) (read_request conn 0x11 s) refl)
  negotiated-Verdict conn log (err e, s) = refl
  negotiated-Verdict conn log (panic, s) = tt
  negotiated-Verdict conn log (stuck, s) = tt

  negotiate-Verdict :
      (conn : NetConn S) (log : S7Log) (r : Result (List ℕ)) (s : S)
      → Verdict log (negotiate conn log r s)
  unfolding negotiate
  negotiate-Verdict conn log (ok request) s =
      negotiated-Verdict conn log (send_request_read_response conn request s)
  negotiate-Verdict conn log (err e) s = refl
  negotiate-Verdict conn log panic s = tt
  negotiate-Verdict conn log stuck s = tt

  confirmed-Verdict :
      (conn : NetConn S) (log : S7Log) (r : Result (Unit {0})) (s : S)
      → Verdict log (confirmed conn log r s)
  unfolding confirmed
  confirmed-Verdict conn log (ok _) s = negotiate-Verdict conn log _ s
  confirmed-Verdict conn log (err e) s = refl
  confirmed-Verdict conn log panic s = tt
  confirmed-Verdict conn log stuck s = tt

  after_connect-Verdict :
      (log : S7Log) (c : Result (NetConn S × Slice) × S) → Verdict log (after_connect log c)
  unfolding after_connect
  after_connect-Verdict log (ok (conn, response), s) = confirmed-Verdict conn log _ s
  after_connect-Verdict log (err e, s) = refl
  after_connect-Verdict log (panic, s) = tt
  after_connect-Verdict log (stuck, s) = tt

  -- Where GetS7Banner returns no error the log says S7, and where it returns an error the log is
  -- as it was, for any connection, dialling and answers; so an error of an identification is
  -- never returned.
  pub get_s7_banner-Verdict :
      (dial : S → Dialed S × S) (close : S → S) (conn : NetConn S) (log : S7Log) (s : S)
      → Verdict log (get_s7_banner dial close conn log s)
  unfolding get_s7_banner
  get_s7_banner-Verdict dial close conn log s =
      after_connect-Verdict log (connect dial close conn s)
