-- ===== src/Ftp/Line.antt =====
-- An expression for the tests: its texts are those that end a line.
use tls_banner_grab_go.Base.{
  ℕ, ◌≡◌, Bool, true, false, List, [], ◌∷◌, Option, some, none, ◌==◌, if◌then◌else◌,
}
use tls_banner_grab_go.Ftp.{Pattern}

-- An expression that matches a text whose last byte is a line feed, with the text as its group.
unfoldable pub last_is_lf : List ℕ → Bool
last_is_lf [] = false
last_is_lf (b ∷ []) = b == 10
last_is_lf (b ∷ c ∷ bs) = last_is_lf (c ∷ bs)

unfoldable pub whole_line : List ℕ → Option (List ℕ)
whole_line text = if last_is_lf text then some text else none

pub whole_line-last_is_lf :
    (text : List ℕ) → last_is_lf text ≡ true → (group : List ℕ) × (whole_line text ≡ some group)
unfolding whole_line
whole_line-last_is_lf text e = (text, rw e)

abbrev pub line : Pattern
line = record {
  matches = last_is_lf;
  submatch = whole_line;
  matches-submatch = whole_line-last_is_lf;
}
