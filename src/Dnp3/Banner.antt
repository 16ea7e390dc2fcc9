-- ===== src/Dnp3/Banner.antt =====
-- What `GetDNP3Banner` logs.
use tls_banner_grab_go.Base.{
  ◌⊎◌, ℕ, ◌≤◌, ◌≡◌, ◌↔◌, refl, true, List, [], ◌∷◌, Option, none, some, length, get_elem?, leb,
  arith, Bool-cases, inl, inr, All,
}
use tls_banner_grab_go.Net.{NetError, eof, timeout, other, NetConn, fill, make, IsByte}
use tls_banner_grab_go.Dnp3.{
  Dnp3Log, starts_link, record_response, respond, get_dnp3_banner, link_batch_request,
}

-- What makes a response one of DNP3.
abbrev pub IsResponse : List ℕ → Type 0
IsResponse bytes =
    (10 ≤ length bytes) × (get_elem? bytes 0 ≡ some 0x05) × (get_elem? bytes 1 ≡ some 0x64)

starts_link-IsResponse :
    (bytes : List ℕ)
    → All IsByte bytes
    → 10 ≤ length bytes
    → (starts_link (fill bytes (make 8192)) ≡ true)
      ↔ ((get_elem? bytes 0 ≡ some 0x05) × (get_elem? bytes 1 ≡ some 0x64))
unfolding starts_link fill get_elem?
starts_link-IsResponse [] b h = absurd (omega arith)
starts_link-IsResponse (x ∷ []) b h = absurd (omega arith)
starts_link-IsResponse (x ∷ y ∷ bytes) b h = let hx = b.0 in let hy = b.1.0 in ground arith

-- How the log follows from what was read.
abbrev pub Verdict : Dnp3Log → List ℕ → Dnp3Log → Type 0
Verdict log bytes log' =
    (IsResponse bytes × (log' ≡ record { is_dnp3 = true; raw_response = bytes }))
    ⊎ ((¬ IsResponse bytes) × (log' ≡ log))

record_response-Verdict :
    (bytes : List ℕ) (log : Dnp3Log)
    → All IsByte bytes
    → Verdict log bytes (record_response bytes log)
unfolding record_response
record_response-Verdict bytes log b = elim (Bool-cases (leb 10 (length bytes))) [
  | inl h ↦ let start = starts_link-IsResponse bytes b (ground arith) in ground arith
  | inr h ↦ ground arith
]

-- How an exchange ends for a read of these bytes with this error.
abbrev pub Outcome : Dnp3Log → List ℕ → Option NetError → Option NetError × Dnp3Log → Type 0
Outcome log bytes none (e, log') = (e ≡ none) × Verdict log bytes log'
Outcome log bytes (some eof) (e, log') = (e ≡ none) × Verdict log bytes log'
Outcome log bytes (some timeout) (e, log') = (e ≡ some timeout) × (log' ≡ log)
Outcome log bytes (some (other n)) (e, log') = (e ≡ some (other n)) × (log' ≡ log)

respond-Outcome :
    (bytes : List ℕ) (error : Option NetError) (log : Dnp3Log)
    → All IsByte bytes
    → Outcome log bytes error (respond bytes error log)
unfolding respond
respond-Outcome bytes none log b = (refl, record_response-Verdict bytes log b)
respond-Outcome bytes (some eof) log b = (refl, record_response-Verdict bytes log b)
respond-Outcome bytes (some timeout) log b = (refl, refl)
respond-Outcome bytes (some (other n)) log b = (refl, refl)

module _ {S : Type 0} (conn : NetConn S) where
  -- A read that fails, other than at the end of the stream, gives its error and the log as it
  -- was; any other gives no error, and the log holds the bytes if they are at least ten that
  -- start with 05 64, and is as it was if not.
  pub get_dnp3_banner-Outcome :
      (log : Dnp3Log) (s : S)
      → let r = (conn.read 8192 (conn.write link_batch_request s).1).0 in
        Outcome log r.bytes r.error (get_dnp3_banner conn log s).0
  unfolding get_dnp3_banner
  get_dnp3_banner-Outcome log s =
      let (r, s') = conn.read 8192 (conn.write link_batch_request s).1 in
      respond-Outcome r.bytes r.error log
        (conn.read-IsByte 8192 (conn.write link_batch_request s).1)
