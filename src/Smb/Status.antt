-- ===== src/Smb/Status.antt =====
-- The status that the probe finds in an answer.
use tls_banner_grab_go.Base.{
  ℕ, ◌≤◌, ◌≡◌, refl, ◌∙◌, false, List, ◌∷◌, String, length, take, drop, ltb, if◌then◌else◌, arith,
}
use tls_banner_grab_go.Net.{ok, err, panic, stuck}
use tls_banner_grab_go.Smb.Encoder.{
  Asn1, Tags, Width, Value, Fields, struct, field, Metadata, new_metadata, Read, join, close_struct,
  unmarshal, unmarshal_fields, get_le, set_uint, set_bytes, refer, read_full, size, uint,
}
use tls_banner_grab_go.Smb.Messages.{
  new_negotiate_res, new_header, header, header_status, fourth_uint,
}
use tls_banner_grab_go.Smb.Safety.{
  FixedFields, fixed_uint, fixed_bytes, fixed_token, fixed_struct, fixed_end, fixed_field,
}
use tls_banner_grab_go.Smb.Session.{decode}

-- The status of an answer: its bytes 8 to 11, little endian, and 0 if it ends before.
unfoldable pub status_of : List ℕ → ℕ
status_of message = if ltb (length message) 12 then 0 else get_le (take 4 (drop 8 message))

module _ {G : Type 0} where
  integer :
      {name : String} {t : Tags} {w : Width} {n : ℕ} {fs : Fields G}
      → FixedFields fs
      → FixedFields (field name t (uint w n) fs)
  integer h = fixed_field fixed_uint h

  header-FixedFields : (c d id : ℕ) → FixedFields {G = G} (header c d id)
  unfolding header
  header-FixedFields c d id = fixed_field (fixed_bytes 4 refl) (
      integer (
        integer (
          integer (
            integer (
              integer (
                integer (
                  integer (
                    integer (
                      integer
                        (integer (integer (fixed_field (fixed_bytes 16 refl) fixed_end))))))))))))

  pub new_negotiate_res-FixedFields : (empty : G) → FixedFields (new_negotiate_res empty)
  unfolding new_negotiate_res new_header
  new_negotiate_res-FixedFields empty = fixed_field (fixed_struct (header-FixedFields 0 0 0)) (
      integer (
        integer (
          integer (
            integer (
              fixed_field (fixed_bytes 16 refl) (
                integer (
                  integer (
                    integer (
                      integer (
                        integer (
                          integer (
                            integer
                              (integer (integer (fixed_field fixed_token fixed_end)))))))))))))))

short : (k : ℕ) (xs : List ℕ) → k ≤ length xs → ltb (length xs) k ≡ false
short k xs h = ground arith

module _ {G : Type 0} where
  struct-close_struct : (m : Metadata) (r : Read (Fields G)) → (close_struct m r).0 ≡ struct r.0
  unfolding close_struct
  struct-close_struct m (fs, ok u, m') = refl
  struct-close_struct m (fs, err e, m') = refl
  struct-close_struct m (fs, panic, m') = refl
  struct-close_struct m (fs, stuck, m') = refl

  header_status-join :
      (name : String) (t : Tags) (fs : Fields G) (r : Read (Value G))
      (next : Metadata → Read (Fields G)) {h : Fields G}
      → r.0 ≡ struct h
      → header_status (join name t fs r next).0 ≡ fourth_uint h
  unfolding join header_status
  header_status-join name t fs (v, ok u, m) next e = rw e refl
  header_status-join name t fs (v, err x, m) next e = rw e refl
  header_status-join name t fs (v, panic, m) next e = rw e refl
  header_status-join name t fs (v, stuck, m) next e = rw e refl

module _ {G : Type 0} (asn1 : Asn1 G) where
  -- The fourth integer of a header behind its first twelve bytes.
  fourth_uint-header :
      (message : List ℕ)
      → fourth_uint (unmarshal_fields asn1 message new_header (new_metadata message)).0
        ≡ status_of message
  unfolding new_header header fourth_uint unmarshal set_uint set_bytes refer read_full size join
      status_of drop take
  fourth_uint-header (a ∷ b ∷ c ∷ d ∷ e ∷ f ∷ g ∷ h ∷ i ∷ j ∷ k ∷ l ∷ rest) =
      let whole : List ℕ = a ∷ b ∷ c ∷ d ∷ e ∷ f ∷ g ∷ h ∷ i ∷ j ∷ k ∷ l ∷ rest in
      rw
        (
          short 0 whole (omega arith),
          short 3 (drop 1 whole) (omega arith),
          short 4 whole (omega arith),
          short 1 (drop 5 whole) (omega arith),
          short 6 whole (omega arith),
          short 1 (drop 7 whole) (omega arith),
          short 8 whole (omega arith),
          short 3 (drop 9 whole) (omega arith),
          short 12 whole (omega arith),
        )
        refl
  fourth_uint-header _ = refl

  -- What is found after the decoding, whether it had an error or not.
  pub header_status-decode :
      (empty : G) (message : List ℕ)
      → header_status (decode asn1 empty message).0 ≡ status_of message
  unfolding decode new_negotiate_res unmarshal drop
  header_status-decode empty message =
      let m = new_metadata message in
      let inner = unmarshal_fields asn1 message new_header m in
      rw (short 0 message (omega arith)) (
        header_status-join "Header" _ _ _ _ (struct-close_struct m inner)
        ∙ fourth_uint-header message)
