-- ===== src/Targets/Records.antt =====
-- Targets with addresses, one in each record of a CSV input.
use tls_banner_grab_go.Base.{
  ℕ, suc, ◌≡◌, refl, ◌∙◌, List, [], ◌∷◌, map, Option, none, some, String, length,
}
use tls_banner_grab_go.Net.{Result, ok}
use tls_banner_grab_go.Grabber.Steps.{GrabTarget}
use tls_banner_grab_go.Targets.{
  Objects, with_addr, Row, row, bad_row, no_row, decode_target, send_on, read_input, with_first,
}

-- What a record of the input is, and what the reader makes of it: its fields or an error.
pub data Entry : Type 0 where
  fields : List (List ℕ) → Entry
  broken : String → Entry

module _ (parse_ip : List ℕ → Option (List ℕ)) where
  -- The target that a record describes, if it does.
  abbrev addressed : Option (List ℕ) → List ℕ → Option GrabTarget
  addressed none domain = none
  addressed (some ip) domain = some (record { addr = ip; domain = domain })

  unfoldable pub described : List (List ℕ) → Option GrabTarget
  described [] = none
  described (addr ∷ []) = addressed (parse_ip addr) []
  described (addr ∷ domain ∷ texts) = addressed (parse_ip addr) domain

  abbrev row_of : Entry → Row
  row_of (fields texts) = row texts
  row_of (broken message) = bad_row message

  abbrev pub object_of : Entry → Option GrabTarget
  object_of (fields texts) = described texts
  object_of (broken message) = none

  module _ {S : Type 0} (read : S → Row × S) where
    -- The reader yields the entries from a state, and then the end of the input.
    pub data Yields : List Entry → S → Type 0 where
      ends : {s s' : S} → read s ≡ (no_row, s') → Yields [] s
      yields :
          {entry : Entry} {entries : List Entry} {s s' : S}
          → read s ≡ (row_of entry, s')
          → Yields entries s'
          → Yields (entry ∷ entries) s

    abbrev decoded : Row × S → Result GrabTarget × S
    decoded (r, s) = (decode_target parse_ip r, s)

    abbrev pub decode_next : S → Result GrabTarget × S
    decode_next s = decoded (read s)

    send_on-with_addr :
        (domain : List ℕ) (o : Option (List ℕ)) (s : S) (rest : S → Result Objects)
        → send_on (with_addr parse_ip domain o, s) rest ≡ with_first (addressed o domain) (rest s)
    unfolding send_on
    send_on-with_addr domain none s rest = refl
    send_on-with_addr domain (some ip) s rest = refl

    send_on-entry :
        (entry : Entry) (s : S) (rest : S → Result Objects)
        → send_on (decoded (row_of entry, s)) rest ≡ with_first (object_of entry) (rest s)
    unfolding send_on described decode_target
    send_on-entry (broken message) s rest = refl
    send_on-entry (fields []) s rest = refl
    send_on-entry (fields (addr ∷ [])) s rest = send_on-with_addr [] (parse_ip addr) s rest
    send_on-entry (fields (addr ∷ domain ∷ texts)) s rest =
        send_on-with_addr domain (parse_ip addr) s rest

    -- Each entry becomes one object, in order: its target, or nil.
    pub read_input-Yields :
        (entries : List Entry) (s : S)
        → Yields entries s
        → read_input decode_next (suc (length entries)) s ≡ ok (map object_of entries)
    unfolding read_input send_on decode_target
    read_input-Yields [] s (ends e) = rw e refl
    read_input-Yields (entry ∷ entries) s (yields e y) =
        rw e (send_on-entry entry _ _ ∙ rw (read_input-Yields entries _ y) refl)
