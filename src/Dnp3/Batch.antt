-- ===== src/Dnp3/Batch.antt =====
-- The batch of link requests, read back.
use tls_banner_grab_go.Base.{
  ℕ, zero, suc, ◌+◌, ◌*◌, ◌/◌, ◌%◌, ◌≤◌, ◌<◌, ◌≡◌, refl, sym, ap, ◌∙◌, Bool, true, List, [], ◌∷◌,
  ◌++◌, Option, none, some, ◌==◌, ◌&&◌, if◌then◌else◌, arith, append_assoc,
}
use tls_banner_grab_go.Base.Bits.{all_below, all_below_sound}
use tls_banner_grab_go.Dnp3.{
  crc16, link_control, link_fields, make_link_header, batch_destinations, batch_sources,
  make_link_request_batch,
}

-- A link header as its receiver reads it.
pub record Link : Type 0 where
  pub len : ℕ
  pub control : ℕ
  pub destination : ℕ
  pub source : ℕ

-- A header whose start and checksum are right, and what follows it.
pub decode_link : List ℕ → Option (Link × List ℕ)
decode_link (a ∷ b ∷ n ∷ c ∷ d0 ∷ d1 ∷ s0 ∷ s1 ∷ k0 ∷ k1 ∷ rest) =
    let sum = crc16 (a ∷ b ∷ n ∷ c ∷ d0 ∷ d1 ∷ s0 ∷ s1 ∷ []) in
    if a == 0x05 && b == 0x64 && k0 == sum % 256 && k1 == sum / 256 % 256
    then some
        (record { len = n; control = c; destination = d0 + 256 * d1; source = s0 + 256 * s1 }, rest)
    else none
decode_link _ = none

-- The check of one function code.
control_right : ℕ → Bool
control_right f = link_control f == 0xc0 + f

control_right_all : all_below 16 control_right ≡ true
unfolding all_below control_right link_control
control_right_all = refl

control-c0 : (f : ℕ) → f < 16 → link_control f ≡ 0xc0 + f
unfolding control_right
control-c0 f h = ground (arith, all_below_sound 16 control_right f control_right_all h)

-- A link header with a function code below 16 and at most 250 bytes behind it is read back by a
-- receiver that checks its start and checksum, with the direction and primary bits set.
pub decode_link-make_link_header :
    (src dst f m : ℕ) (rest : List ℕ)
    → src < 65536
    → dst < 65536
    → f < 16
    → m ≤ 250
    → decode_link (make_link_header src dst f m ++ rest)
      ≡ some (record { len = 5 + m; control = 0xc0 + f; destination = dst; source = src }, rest)
unfolding decode_link make_link_header link_fields
decode_link-make_link_header src dst f m rest hs hd hf hm = ground (arith, control-c0 f hf)

abbrev prepend : List Link → Option (List Link) → Option (List Link)
prepend ls none = none
prepend ls (some ms) = some (ls ++ ms)

-- So many headers one behind the other, and nothing else.
pub read_links : ℕ → List ℕ → Option (List Link)
unfolding decode_link
read_links zero [] = some []
read_links zero (b ∷ bs) = none
read_links (suc k) bytes = elim (decode_link bytes) [
  | none ↦ none
  | some (l, rest) ↦ prepend (l ∷ []) (read_links k rest)
]

-- A request of the link's status between two addresses of 16 bits.
abbrev pub status_request : ℕ → ℕ → Link
status_request src dst = record {
  len = 5;
  control = 0xc9;
  destination = dst % 65536;
  source = src % 65536;
}

abbrev pub requests_to : ℕ → ℕ → ℕ → List Link
requests_to src zero dst = []
requests_to src (suc n) dst = status_request src dst ∷ requests_to src n (dst + 1)

-- One request for each source and each destination.
abbrev pub requests : ℕ → ℕ → ℕ → ℕ → List Link
requests zero src m dst = []
requests (suc n) src m dst = requests_to src m dst ++ requests n (src + 1) m dst

prepend-append :
    (ls ms : List Link) (o : Option (List Link)) → prepend ls (prepend ms o) ≡ prepend (ls ++ ms) o
prepend-append ls ms none = refl
prepend-append ls ms (some ns) = ap some (sym (append_assoc ls ms ns))

read_links-step :
    (k src dst : ℕ) (rest : List ℕ)
    → read_links (suc k) (make_link_header (src % 65536) (dst % 65536) 9 0 ++ rest)
      ≡ prepend (status_request src dst ∷ []) (read_links k rest)
unfolding read_links
read_links-step k src dst rest = rw (
  read_links,
  decode_link-make_link_header (src % 65536) (dst % 65536) 9 0 rest (omega arith) (omega arith)
      (omega arith) (omega arith),
)

prepend-nil : (o : Option (List Link)) → prepend [] o ≡ o
prepend-nil none = refl
prepend-nil (some ls) = refl

read_links-destinations :
    (n k src dst d : ℕ) (rest : List ℕ)
    → d ≡ dst % 65536
    → read_links (n + k) (batch_destinations (src % 65536) n d ++ rest)
      ≡ prepend (requests_to src n dst) (read_links k rest)
unfolding batch_destinations
read_links-destinations zero k src dst d rest e =
    let here : 0 + k ≡ k = omega arith in rw (here, prepend-nil)
read_links-destinations (suc n) k src dst d rest e =
    let more = batch_destinations (src % 65536) n ((dst % 65536 + 1) % 65536) ++ rest in
    let next : suc n + k ≡ suc (n + k) = omega arith in
    rw (next, e, append_assoc)
      (read_links-step (n + k) src dst more
        ∙ ap (prepend (status_request src dst ∷ [])) (
            read_links-destinations n k src (dst + 1) ((dst % 65536 + 1) % 65536) rest
              (omega arith))
        ∙ prepend-append (status_request src dst ∷ []) (requests_to src n (dst + 1))
            (read_links k rest))

read_links-sources :
    (n src m dst a d : ℕ)
    → a ≡ src % 65536
    → d ≡ dst % 65536
    → read_links (n * m) (batch_sources n a d m) ≡ some (requests n src m dst)
unfolding batch_sources
read_links-sources zero src m dst a d ea ed =
    let none_left : 0 * m ≡ 0 = omega arith in rw none_left (unfold read_links in refl)
read_links-sources (suc n) src m dst a d ea ed =
    let count : suc n * m ≡ m + n * m = omega arith in
    rw (count, ea)
      (read_links-destinations m (n * m) src dst d (batch_sources n ((src % 65536 + 1) % 65536) d m)
          ed
        ∙ ap (prepend (requests_to src m dst))
            (read_links-sources n (src + 1) m dst ((src % 65536 + 1) % 65536) d (omega arith) ed))

-- The batch for any starting addresses and numbers is read back as one request of the link's
-- status for each source and each destination, in order, the addresses modulo 65536, and holds
-- nothing else.
pub read_links-make_link_request_batch :
    (src n dst m : ℕ)
    → src < 65536
    → dst < 65536
    → read_links (n * m) (make_link_request_batch src n dst m) ≡ some (requests n src m dst)
unfolding make_link_request_batch
read_links-make_link_request_batch src n dst m hs hd =
    read_links-sources n src m dst src dst (omega arith) (omega arith)
