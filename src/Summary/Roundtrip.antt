-- ===== src/Summary/Roundtrip.antt =====
-- What `UnmarshalJSON` of summary.go makes of the text of `MarshalJSON`.
use tls_banner_grab_go.Base.{
  ℕ, ◌*◌, ◌^◌, ◌%◌, ◌/◌, ◌≤◌, ◌≡◌, refl, ap, ◌∙◌, inr, true, false, sym, List, [], ◌∷◌, ltb, arith,
}
use tls_banner_grab_go.Base.Int.{pos}
use tls_banner_grab_go.Net.{ok}
use tls_banner_grab_go.Summary.{
  Summary, Clock, SummaryJson, second, in_seconds, to_uint, of_seconds, non_empty, or_old,
  no_summary, encode_summary, after_end, after_start, after_json, marshal_summary,
  unmarshal_summary,
}

or_old-non_empty : (bs : List ℕ) → or_old [] (non_empty bs) ≡ bs
unfolding or_old non_empty
or_old-non_empty [] = refl
or_old-non_empty (b ∷ bs) = refl

-- The seconds of a timeout below 293 years are those that it was made of.
of_seconds-pos : (n : ℕ) → n ≤ 9223372036 → of_seconds n ≡ pos (n * second)
unfolding of_seconds
of_seconds-pos n h =
    let d : n * second % 2 ^ 64 ≡ n * second = omega arith in
    let small : ltb (n * second) (2 ^ 63) ≡ true = ground arith in rw (d, small) refl

to_uint-of_seconds : (n : ℕ) → n ≤ 9223372036 → to_uint (in_seconds (of_seconds n)) ≡ n
unfolding to_uint in_seconds
to_uint-of_seconds n h =
    let q : n * second / second ≡ n = omega arith in
    let m : n % 2 ^ 64 ≡ n = omega arith in rw (of_seconds-pos n h, q, m) refl

module _ {T : Type 0} (clock : Clock T) (json : SummaryJson) where
  -- The summary that is read: the times have whole seconds, and two fields are lost.
  abbrev pub read_back : Summary T → Summary T
  read_back s = record s {
    start_time = clock.to_second s.start_time;
    end_time = clock.to_second s.end_time;
    duration = clock.sub (clock.to_second s.end_time) (clock.to_second s.start_time);
    sni_support = false;
    flags = [];
  }

  -- A summary whose timeout is a number of seconds, at most 9223372036 of them, and whose fields
  -- encoding/json reads back, is read without an error from the text that it is written as. Its
  -- times are cut to seconds, its duration is that between them, and all else is as it was, but
  -- for the support of server names and the flags, which are not read.
  pub unmarshal_summary-marshal_summary :
      (s : Summary T) (n : ℕ) (b : List ℕ)
      → s.timeout ≡ of_seconds n
      → n ≤ 9223372036
      → ((b' : List ℕ)
          → json.marshal (encode_summary clock s) ≡ ok b'
          → json.unmarshal b' ≡ inr (encode_summary clock s))
      → marshal_summary clock json s ≡ ok b
      → unmarshal_summary clock json b (no_summary clock) ≡ (ok tt, read_back s)
  unfolding unmarshal_summary marshal_summary after_json encode_summary after_start after_end
  unmarshal_summary-marshal_summary s n b t h reads e =
      let t' : of_seconds (to_uint (in_seconds s.timeout)) ≡ s.timeout =
        ap (λ d. of_seconds (to_uint (in_seconds d))) t
        ∙ ap of_seconds (to_uint-of_seconds n h)
        ∙ sym t in
      rw
        (
          reads b e,
          clock.parse-format s.start_time,
          clock.parse-format s.end_time,
          or_old-non_empty s.tls_version,
          or_old-non_empty s.mail_type,
          or_old-non_empty s.ca_file,
          t',
        )
        refl
