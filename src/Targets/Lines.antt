-- ===== src/Targets/Lines.antt =====
-- Domains, one on each line.
use tls_banner_grab_go.Base.{
  ℕ, suc, ◌≡◌, refl, true, false, List, [], ◌∷◌, ◌++◌, map, Option, none, some, length, ◌==◌, arith,
  append_assoc, All,
}
use tls_banner_grab_go.Net.{net, eof, ok}
use tls_banner_grab_go.Fox.Lines.{lacks}
use tls_banner_grab_go.Grabber.Steps.{GrabTarget}
use tls_banner_grab_go.Targets.{read_bytes, without_last, decode_domain, send_on, read_input}

abbrev lf : ℕ
lf = 10

read_bytes-append :
    (text rest : List ℕ)
    → lacks lf text ≡ true
    → read_bytes lf (text ++ (lf ∷ rest)) ≡ ((text ++ (lf ∷ []), none), rest)
unfolding read_bytes lacks
read_bytes-append [] rest h = refl
read_bytes-append (b ∷ bs) rest h =
    let other_byte : (b == lf) ≡ false = ground arith in
    rw (other_byte, read_bytes-append bs rest (ground arith)) refl

read_bytes-lacks :
    (text : List ℕ) → lacks lf text ≡ true → read_bytes lf text ≡ ((text, some (net eof)), [])
unfolding read_bytes lacks
read_bytes-lacks [] h = refl
read_bytes-lacks (b ∷ bs) h =
    let other_byte : (b == lf) ≡ false = ground arith in
    rw (other_byte, read_bytes-lacks bs (ground arith)) refl

without_last-append : (text : List ℕ) (b : ℕ) → without_last (text ++ (b ∷ [])) ≡ ok text
unfolding without_last
without_last-append [] b = refl
without_last-append (c ∷ []) b = refl
without_last-append (c ∷ d ∷ bs) b = rw (without_last-append (d ∷ bs) b) refl

-- The target of a domain.
abbrev pub target_of : List ℕ → Option GrabTarget
target_of domain = some (record { addr = []; domain = domain })

-- The domains, each behind by a line feed.
unfoldable pub unlines : List (List ℕ) → List ℕ
unlines [] = []
unlines (line ∷ lines) = line ++ (lf ∷ unlines lines)

-- Domains without line feeds, each in front of a line feed, are sent on to the workers as
-- targets, each once and in order, with fuel for one call more than there are domains; a text
-- behind the last line feed is not sent on.
pub read_input-unlines :
    (lines : List (List ℕ)) (last : List ℕ)
    → All (λ line. lacks lf line ≡ true) lines
    → lacks lf last ≡ true
    → read_input decode_domain (suc (length lines)) (unlines lines ++ last)
      ≡ ok (map target_of lines)
unfolding read_input unlines decode_domain send_on
read_input-unlines [] last h hl = rw (read_bytes-lacks last hl) refl
read_input-unlines (line ∷ lines) last (h, hs) hl =
    rw
      (
        append_assoc,
        read_bytes-append line (unlines lines ++ last) h,
        without_last-append,
        read_input-unlines lines last hs hl,
      )
      refl
