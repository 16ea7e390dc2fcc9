-- ===== src/Telnet/Tests.antt =====
-- Runs of the telnet code, and its theorems at concrete inputs.
use tls_banner_grab_go.Base.{
  ℕ, ◌+◌, ◌≤◌, ◌≡◌, ◌≢◌, refl, List, [], ◌∷◌, ◌++◌, none, length, replicate, arith, take, drop,
  get_elem?,
}
use tls_banner_grab_go.Net.{ok, panic, ReadResult, fill, make}
use tls_banner_grab_go.Net.Script.{script, script-le}
use tls_banner_grab_go.Telnet.{
  iac, go_ahead, TelnetLog, negotiate_options, negotiate_round, contains_iac, index_byte,
  handle_commands, handle_command, start_commands, finished_negotiating, take_banner, byte_at,
}
use tls_banner_grab_go.Base.Int.{◌-ℤ◌}
use tls_banner_grab_go.Telnet.Commands.{Segment, encode, do_verb, will_verb}
use tls_banner_grab_go.Telnet.Refusals.{Sends, last, round, negotiate_options-Dialogue}
use tls_banner_grab_go.Telnet.Safety.{negotiate_options-ne-panic}
use tls_banner_grab_go.Telnet.GoAhead.{negotiate_options-go_ahead}
use tls_banner_grab_go.Telnet.Banner.{get_telnet_banner, read_banner, goes_on, banner_round}
use tls_banner_grab_go.Telnet.Banner.Limit.{most, get_telnet_banner-le-most}

abbrev empty_log : TelnetLog
empty_log = record {
  banner = [];
  will_options = [];
  do_options = [];
  wont_options = [];
  dont_options = [];
}

abbrev plain : List ℕ → ReadResult
plain bytes = record { bytes = bytes; error = none }

-- DO 1 behind an `a`, then WILL 3.
abbrev two_commands : List Segment
two_commands =
    record { text = b'a' ∷ []; verb = do_verb; option = 1 }
    ∷ record { text = []; verb = will_verb; option = 3 }
    ∷ []

abbrev greeting : List ℕ
greeting = b'h' ∷ b'i' ∷ []

abbrev two_reads : List ReadResult
two_reads = plain (encode two_commands) ∷ plain greeting ∷ []

first_round : Sends (script 8192) two_commands [] two_reads (plain greeting ∷ [])
unfolding script take
first_round = record {
  between = plain greeting ∷ [];
  count = 6;
  reads = refl;
  writes = refl;
  segments = omega arith;
  plain = tt;
  fits = omega arith;
}

second_round : Sends (script 8192) [] greeting (plain greeting ∷ []) []
unfolding script take
second_round = record {
  between = [];
  count = 0;
  reads = refl;
  writes = refl;
  segments = tt;
  plain = omega arith;
  fits = omega arith;
}

negotiate_options-Dialogue_example : negotiate_options (script 8192) 2 empty_log two_reads ≡ (
  ok tt,
  record empty_log { banner = greeting; do_options = 1 ∷ []; will_options = 3 ∷ [] },
  [],
)
negotiate_options-Dialogue_example =
    negotiate_options-Dialogue (script 8192) empty_log 2
      (round first_round (last (omega arith) second_round)) (omega arith)

short_reads : (s : List ReadResult) → length ((script 8190).read 8192 s).0.bytes + 2 ≤ 8192
short_reads s = omega (arith, script-le 8190 8192 s)

negotiate_options-ne-panic_example :
    (negotiate_options (script 8190) 5 empty_log two_reads).0 ≢ panic
negotiate_options-ne-panic_example =
    negotiate_options-ne-panic (script 8190) short_reads 5 empty_log two_reads

abbrev with_ga : List ReadResult
with_ga = plain (encode two_commands ++ (b'o' ∷ b'k' ∷ iac ∷ go_ahead ∷ b'x' ∷ [])) ∷ []

negotiate_options-go_ahead_example : negotiate_options (script 8192) 1 empty_log with_ga ≡ (
  ok tt,
  record empty_log {
    banner = b'o' ∷ b'k' ∷ iac ∷ go_ahead ∷ b'x' ∷ [];
    do_options = 1 ∷ [];
    will_options = 3 ∷ [];
  },
  [],
)
unfolding script take
negotiate_options-go_ahead_example =
    negotiate_options-go_ahead two_commands (b'o' ∷ b'k' ∷ []) (b'x' ∷ []) empty_log (omega arith)
      (omega arith) (omega arith) (script 8192) 0 6 {s₁ = []} refl refl

-- A limit below the buffer's length: the one round that is counted adds as many bytes as the limit
-- says, also where the read brought fewer.
abbrev three_reads : List ReadResult
three_reads = plain greeting ∷ plain (b'y' ∷ []) ∷ []

abbrev padded : TelnetLog
padded = record empty_log { banner = b'h' ∷ b'i' ∷ b'y' ∷ 0 ∷ 0 ∷ [] }

banner_run : get_telnet_banner (script 8192) 2 3 empty_log three_reads ≡ (ok tt, padded, [])
unfolding get_telnet_banner read_banner goes_on banner_round script take drop fill make replicate
    contains_iac index_byte negotiate_options negotiate_round handle_commands handle_command
    start_commands finished_negotiating take_banner byte_at ◌-ℤ◌ get_elem?
banner_run = refl

get_telnet_banner-le-most_example :
    (found : TelnetLog) × (t : List ReadResult) × (negotiate_options
        (script 8192)
        2
        empty_log
        three_reads
      ≡ (ok tt, found, t))
    × (5 ≤ length found.banner + most 3)
get_telnet_banner-le-most_example =
    get_telnet_banner-le-most (script 8192) 2 3 empty_log padded three_reads [] banner_run
