-- ===== src/Ftp/Tests.antt =====
-- Runs of the FTP code, and its theorems at concrete inputs.
use tls_banner_grab_go.Base.{
  ℕ, ◌≡◌, false, List, [], ◌∷◌, none, arith, refl, take, length, ◌<◌, zero, suc,
}
use tls_banner_grab_go.Net.{ok}
use tls_banner_grab_go.Net.Stream.{stream, Offers, stream_gives}
use tls_banner_grab_go.Ftp.Line.{last_is_lf, line}
use tls_banner_grab_go.Ftp.{read_until_regex}
use tls_banner_grab_go.Ftp.Replies.{
  IsReply, read_until_regex-IsReply, FirstMatch, read_until_regex-Offers,
}

abbrev welcome : List ℕ
welcome = b'2' ∷ b'2' ∷ b'0' ∷ 10 ∷ []

read_until_regex-IsReply_example :
    IsReply (stream 3) line 1024 (read_until_regex (stream 3) line 9 1024 [] welcome).0
read_until_regex-IsReply_example =
    read_until_regex-IsReply (stream 3) line 9 1024 [] welcome (omega arith)

welcome-earlier : (k : ℕ) → k < length welcome → last_is_lf (take k welcome) ≡ false
unfolding last_is_lf take
welcome-earlier zero h = refl
welcome-earlier (suc zero) h = refl
welcome-earlier (suc (suc zero)) h = refl
welcome-earlier (suc (suc (suc zero))) h = refl
welcome-earlier (suc (suc (suc (suc k)))) h = absurd (omega arith)

welcome-FirstMatch : FirstMatch (stream 3) line [] welcome
unfolding last_is_lf
welcome-FirstMatch = record { whole = refl; earlier = welcome-earlier }

read_until_regex-Offers_example :
    (s' : List ℕ) × (read_until_regex (stream 3) line 4 1024 [] welcome
      ≡ (ok (record { text = welcome; error = none }), s'))
read_until_regex-Offers_example =
    read_until_regex-Offers (stream 3) line Offers (stream_gives 3 (omega arith)) 4 1024 [] welcome
      welcome (refl, omega arith) welcome-FirstMatch (omega arith) (omega arith) (omega arith)
