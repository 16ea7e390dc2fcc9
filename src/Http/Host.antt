-- ===== src/Http/Host.antt =====
-- What the HTTP scan asks of hosts and ports, and of the addresses that a host has.
use tls_banner_grab_go.Base.{
  ℕ, suc, Bool, true, false, ◌&&◌, ◌||◌, List, [], ◌∷◌, ◌++◌, Option, none, some, length, take,
  drop, ltb, ◌==◌, if◌then◌else◌, replicate,
}
use tls_banner_grab_go.Net.Text.{same_bytes}

-- `strings.LastIndex` of one byte, and one: 0 where the text lacks it.
unfoldable pub last_index : ℕ → List ℕ → ℕ
last_index byte [] = 0
last_index byte (b ∷ bs) =
    let rest = last_index byte bs in if ltb 0 rest then suc rest else if b == byte then 1 else 0

-- `containsPort`
unfoldable pub contains_port : List ℕ → Bool
contains_port host = ltb (last_index b']' host) (last_index b':' host)

abbrev pub https : List ℕ
https = b'h' ∷ b't' ∷ b't' ∷ b'p' ∷ b's' ∷ []

abbrev pub http : List ℕ
http = b'h' ∷ b't' ∷ b't' ∷ b'p' ∷ []

-- `usingDefaultPort`
unfoldable pub using_default_port : List ℕ → ℕ → Bool
using_default_port scheme port =
    same_bytes scheme https && port == 443 || same_bytes scheme http && port == 80

-- `net.IPv4(a, b, c, d)`, in sixteen bytes.
abbrev pub v4_prefix : List ℕ
v4_prefix = replicate 10 0 ++ (255 ∷ 255 ∷ [])

abbrev pub ipv4_zero : List ℕ
ipv4_zero = v4_prefix ++ replicate 4 0

abbrev ipv6_loopback : List ℕ
ipv6_loopback = replicate 15 0 ++ (1 ∷ [])

-- `To4`: the last four bytes of an address of version 4.
unfoldable pub to4 : List ℕ → Option (List ℕ)
to4 ip = if length ip == 16 && same_bytes (take 12 ip) v4_prefix then some (drop 12 ip) else none

abbrev starts_127 : List ℕ → Bool
starts_127 [] = false
starts_127 (b ∷ bs) = b == 127

-- `IP.IsLoopback`
unfoldable pub is_loopback : List ℕ → Bool
is_loopback ip = elim (to4 ip) [ some ip4 ↦ starts_127 ip4 | none ↦ same_bytes ip ipv6_loopback ]

-- `i.IsLoopback() || i.Equal(net.IPv4zero)`
unfoldable pub is_local : List ℕ → Bool
is_local ip = is_loopback ip || same_bytes ip ipv4_zero

abbrev pub localhost : List ℕ
localhost = b'l' ∷ b'o' ∷ b'c' ∷ b'a' ∷ b'l' ∷ b'h' ∷ b'o' ∷ b's' ∷ b't' ∷ []

-- `net.ParseIP`, whose addresses have sixteen bytes, and `net.LookupHost`, where `none` is an error.
pub record Resolver (S : Type 0) : Type 0 where
  pub parse_ip : List ℕ → Option (List ℕ)
  pub lookup_host : List ℕ → S → Option (List (List ℕ)) × S

module _ {S : Type 0} (resolver : Resolver S) where
  abbrev local_text : List ℕ → Bool
  local_text text = elim (resolver.parse_ip text) [ none ↦ false | some ip ↦ is_local ip ]

  unfoldable pub any_local : List (List ℕ) → Bool
  any_local [] = false
  any_local (text ∷ texts) = local_text text || any_local texts

  abbrev found_local : Option (List (List ℕ)) × S → Bool × S
  found_local (none, s) = (false, s)
  found_local (some addrs, s) = (any_local addrs, s)

  -- `redirectsToLocalhost`
  unfoldable pub redirects_to_localhost : List ℕ → S → Bool × S
  redirects_to_localhost host s = elim (resolver.parse_ip host) [
    | some ip ↦ (is_local ip, s)
    | none ↦
        if same_bytes host localhost then (true, s) else found_local (resolver.lookup_host host s)
  ]
