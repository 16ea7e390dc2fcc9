-- ===== src/Summary/Tests.antt =====
-- The summary of a scan at a concrete input.
use tls_banner_grab_go.Base.{◌*◌, ◌/◌, ℕ, ◌≡◌, refl, inr, true, [], ◌∷◌, arith}
use tls_banner_grab_go.Base.Int.{pos, sub_ℕ}
use tls_banner_grab_go.Net.{ok}
use tls_banner_grab_go.Summary.{
  Summary, Clock, SummaryJson, second, of_seconds, no_summary, encode_summary, marshal_summary,
  unmarshal_summary,
}
use tls_banner_grab_go.Summary.Roundtrip.{read_back, unmarshal_summary-marshal_summary}

-- Times in nanoseconds; their text is the number of their seconds.
abbrev clock : Clock ℕ
clock = record {
  zero_time = 0;
  sub = λ t s. sub_ℕ t s;
  format = λ t. (t / second) ∷ [];
  parse = λ bs. inr (elim bs [ [] ↦ 0 | t ∷ ts ↦ t * second ]);
  to_second = λ t. t / second * second;
  parse-format = λ t. refl;
}

-- Ten seconds and a half of a scan, with five seconds for a connection.
abbrev ten_seconds : Summary ℕ
ten_seconds = record (no_summary clock) {
  port = 443;
  success = 2;
  failure = 1;
  total = 3;
  start_time = 1500000000;
  end_time = 12000000000;
  duration = pos 10500000000;
  senders = 1000;
  timeout = of_seconds 5;
  sni_support = true;
  flags = (b'z' ∷ []) ∷ [];
}

-- Of the texts, only that of the scan.
abbrev json : SummaryJson
json = record {
  marshal = λ e. ok (b'{' ∷ []);
  unmarshal = λ bs. inr (encode_summary clock ten_seconds);
}

unmarshal_summary-marshal_summary_example :
    unmarshal_summary clock json (b'{' ∷ []) (no_summary clock)
    ≡ (ok tt, read_back clock json ten_seconds)
unfolding marshal_summary
unmarshal_summary-marshal_summary_example =
    unmarshal_summary-marshal_summary clock json ten_seconds 5 (b'{' ∷ []) refl (omega arith)
      (λ b' e. refl) refl
