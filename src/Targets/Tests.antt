-- ===== src/Targets/Tests.antt =====
-- Inputs of two lines, the last of them without a line feed, and of three records.
use tls_banner_grab_go.Base.{ℕ, ◌≡◌, refl, List, [], ◌∷◌, ◌++◌, map, Option, none, some}
use tls_banner_grab_go.Net.{ok}
use tls_banner_grab_go.Fox.Lines.{lacks}
use tls_banner_grab_go.Targets.{Row, row, bad_row, no_row, decode_domain, read_input}
use tls_banner_grab_go.Targets.Lines.{target_of, unlines, read_input-unlines}
use tls_banner_grab_go.Targets.Records.{
  Entry, fields, broken, described, ends, yields, decode_next, read_input-Yields,
}

abbrev domains : List (List ℕ)
domains = (b'a' ∷ b'.' ∷ b'b' ∷ []) ∷ (b'c' ∷ []) ∷ []

read_input-unlines_example :
    read_input decode_domain 3 (unlines domains ++ (b'd' ∷ [])) ≡ ok (map target_of domains)
unfolding lacks
read_input-unlines_example = read_input-unlines domains (b'd' ∷ []) (refl, (refl, tt)) refl

-- An address is one byte.
abbrev parse_ip : List ℕ → Option (List ℕ)
parse_ip (b ∷ []) = some (b ∷ [])
parse_ip _ = none

-- A reader that plays rows.
abbrev read : List Row → Row × List Row
read [] = (no_row, [])
read (r ∷ rs) = (r, rs)

abbrev entries : List Entry
entries =
    fields ((5 ∷ []) ∷ (b'a' ∷ []) ∷ [])
    ∷ broken "bare \" in non-quoted field"
    ∷ fields ([] ∷ [])
    ∷ []

abbrev rows : List Row
rows =
    row ((5 ∷ []) ∷ (b'a' ∷ []) ∷ []) ∷ bad_row "bare \" in non-quoted field" ∷ row ([] ∷ []) ∷ []

three_entries_run :
    read_input (decode_next parse_ip read) 4 rows
    ≡ ok (some (record { addr = 5 ∷ []; domain = b'a' ∷ [] }) ∷ none ∷ none ∷ [])
unfolding described
three_entries_run =
    read_input-Yields parse_ip read entries rows
      (yields refl (yields refl (yields refl (ends refl))))
