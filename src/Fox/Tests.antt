-- ===== src/Fox/Tests.antt =====
-- A run of the Fox code, and its theorem at a concrete input.
use tls_banner_grab_go.Base.{ℕ, ◌≡◌, refl, true, List, [], ◌∷◌, none, take, arith}
use tls_banner_grab_go.Net.{ReadResult}
use tls_banner_grab_go.Net.Script.{script}
use tls_banner_grab_go.Fox.{FoxLog, new_fox_log, get_fox_banner}
use tls_banner_grab_go.Fox.Lines.{lacks, decimal}
use tls_banner_grab_go.Fox.Hello.{hello, joined, IsSayable}
use tls_banner_grab_go.Fox.Roundtrip.{get_fox_banner-hello}

abbrev station : FoxLog
station = record new_fox_log {
  is_fox = true;
  id = 17;
  version = b'1' ∷ b'.' ∷ b'0' ∷ [];
  time_zone = b'U' ∷ b'T' ∷ b'C' ∷ [];
}

abbrev rules : List ℕ
rules = b'0' ∷ b':' ∷ b'0' ∷ []

station-IsSayable : IsSayable station rules
unfolding lacks
station-IsSayable = record {
  is_fox = refl;
  id = omega arith;
  time_zone = ((refl, refl), refl);
  one_line = refl;
  version = (refl, refl);
  host_address = (refl, refl);
  hostname = (refl, refl);
  app_name = (refl, refl);
  app_version = (refl, refl);
  vm_name = (refl, refl);
  vm_version = (refl, refl);
  os_name = (refl, refl);
  os_version = (refl, refl);
  station_name = (refl, refl);
  language = (refl, refl);
  host_id = (refl, refl);
  vm_uuid = (refl, refl);
  brand_id = (refl, refl);
  sys_info = (refl, refl);
  auth_agent_type = (refl, refl);
}

abbrev answer : ReadResult
answer = record { bytes = hello station rules; error = none }

get_fox_banner-hello_example :
    get_fox_banner (script 8196) new_fox_log (answer ∷ []) ≡ ((none, station), [])
unfolding script hello joined decimal take
get_fox_banner-hello_example =
    get_fox_banner-hello (script 8196) station rules new_fox_log (answer ∷ []) (answer ∷ []) []
      station-IsSayable (omega arith) refl refl
