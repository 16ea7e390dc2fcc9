-- ===== src/Fox.antt =====
-- ztools/scada/fox: the banner of Niagara Fox, whose answer is lines of names and values.
mod Query
pub mod Lines
pub mod Hello
pub mod Roundtrip
mod Tests
use tls_banner_grab_go.Base.{
  ℕ, zero, suc, ◌+◌, ◌*◌, ◌-◌, Bool, true, false, not, ◌&&◌, List, [], ◌∷◌, ◌++◌, Option, none,
  some, length, ltb, leb, ◌==◌, if◌then◌else◌,
}
use tls_banner_grab_go.Net.Text.{has_prefix, split}
use tls_banner_grab_go.Fox.Query.{query_bytes}
use tls_banner_grab_go.Net.{Error, net, new, NetConn, ReadResult, WriteResult}

-- log.go
pub record FoxLog : Type 0 where
  pub is_fox : Bool
  pub version : List ℕ
  pub id : ℕ
  pub hostname : List ℕ
  pub host_address : List ℕ
  pub app_name : List ℕ
  pub app_version : List ℕ
  pub vm_name : List ℕ
  pub vm_version : List ℕ
  pub os_name : List ℕ
  pub os_version : List ℕ
  pub station_name : List ℕ
  pub language : List ℕ
  pub time_zone : List ℕ
  pub host_id : List ℕ
  pub vm_uuid : List ℕ
  pub brand_id : List ℕ
  pub sys_info : List ℕ
  pub auth_agent_type : List ℕ

-- `new(FoxLog)`
abbrev pub new_fox_log : FoxLog
new_fox_log = record {
  is_fox = false;
  version = [];
  id = 0;
  hostname = [];
  host_address = [];
  app_name = [];
  app_version = [];
  vm_name = [];
  vm_version = [];
  os_name = [];
  os_version = [];
  station_name = [];
  language = [];
  time_zone = [];
  host_id = [];
  vm_uuid = [];
  brand_id = [];
  sys_info = [];
  auth_agent_type = [];
}

abbrev lf : ℕ
lf = 10

-- `RESPONSE_PREFIX`
abbrev pub response_prefix : List ℕ
response_prefix =
    b'f' ∷ b'o' ∷ b'x' ∷ b' ' ∷ b'a' ∷ b' ' ∷ b'0' ∷ b' ' ∷ b'-' ∷ b'1' ∷ b' ' ∷ b'f' ∷ b'o' ∷ b'x'
    ∷ b' ' ∷ b'h' ∷ b'e' ∷ b'l' ∷ b'l' ∷ b'o' ∷ []

-- `strings.Split(value, ":")[1]`, if the value has a colon.
abbrev second : List (List ℕ) → Option (List ℕ)
second (a ∷ b ∷ parts) = some b
second _ = none

abbrev pub after_colon : List ℕ → Option (List ℕ)
after_colon value = second (split b':' value)

-- The part before the first semicolon.
abbrev first_part : List (List ℕ) → List ℕ
first_part [] = []
first_part (part ∷ parts) = part

abbrev pub until_semicolon : List ℕ → List ℕ
until_semicolon text = first_part (split b';' text)

-- `strconv.ParseUint(text, 10, 32)`: digits only, and a value below 2^32.
abbrev is_digit : ℕ → Bool
is_digit b = leb b'0' b && leb b b'9'

abbrev syntax_error : Error
syntax_error = new "strconv.ParseUint: invalid syntax"

abbrev range_error : Error
range_error = new "strconv.ParseUint: value out of range"

unfoldable pub all_digits : List ℕ → Bool
all_digits [] = true
all_digits (b ∷ bs) = is_digit b && all_digits bs

unfoldable pub digits_value : ℕ → List ℕ → ℕ
digits_value n [] = n
digits_value n (b ∷ bs) = digits_value (n * 10 + (b - b'0')) bs

abbrev uint32_limit : ℕ
uint32_limit = 4294967296

unfoldable pub parse_uint32 : List ℕ → ℕ × Option Error
parse_uint32 text =
    if length text == 0
    then (0, some syntax_error)
    else if not (all_digits text)
    then (0, some syntax_error)
    else if ltb (digits_value 0 text) uint32_limit
    then (digits_value 0 text, none)
    else (uint32_limit - 1, some range_error)

-- What a line sets, by the text behind its colon.
abbrev pub Setter : Type 0
Setter = List ℕ → FoxLog → Option Error × FoxLog

abbrev pub set_id : ℕ × Option Error → FoxLog → Option Error × FoxLog
set_id (n, none) log = (none, record log { id = n })
set_id (n, some e) log = (some e, log)

-- The chain of tests of a line, in order.
unfoldable pub setters : List (List ℕ × Setter)
setters =
    (
      b'f' ∷ b'o' ∷ b'x' ∷ b'.' ∷ b'v' ∷ b'e' ∷ b'r' ∷ b's' ∷ b'i' ∷ b'o' ∷ b'n' ∷ [],
      λ text log. (none, record log { version = text }),
    )
    ∷ (b'i' ∷ b'd' ∷ [], λ text log. set_id (parse_uint32 text) log)
    ∷ (
      b'h' ∷ b'o' ∷ b's' ∷ b't' ∷ b'A' ∷ b'd' ∷ b'd' ∷ b'r' ∷ b'e' ∷ b's' ∷ b's' ∷ [],
      λ text log. (none, record log { host_address = text }),
    )
    ∷ (
      b'h' ∷ b'o' ∷ b's' ∷ b't' ∷ b'N' ∷ b'a' ∷ b'm' ∷ b'e' ∷ [],
      λ text log. (none, record log { hostname = text }),
    )
    ∷ (
      b'a' ∷ b'p' ∷ b'p' ∷ b'.' ∷ b'n' ∷ b'a' ∷ b'm' ∷ b'e' ∷ [],
      λ text log. (none, record log { app_name = text }),
    )
    ∷ (
      b'a' ∷ b'p' ∷ b'p' ∷ b'.' ∷ b'v' ∷ b'e' ∷ b'r' ∷ b's' ∷ b'i' ∷ b'o' ∷ b'n' ∷ [],
      λ text log. (none, record log { app_version = text }),
    )
    ∷ (
      b'v' ∷ b'm' ∷ b'.' ∷ b'n' ∷ b'a' ∷ b'm' ∷ b'e' ∷ [],
      λ text log. (none, record log { vm_name = text }),
    )
    ∷ (
      b'v' ∷ b'm' ∷ b'.' ∷ b'v' ∷ b'e' ∷ b'r' ∷ b's' ∷ b'i' ∷ b'o' ∷ b'n' ∷ [],
      λ text log. (none, record log { vm_version = text }),
    )
    ∷ (
      b'o' ∷ b's' ∷ b'.' ∷ b'n' ∷ b'a' ∷ b'm' ∷ b'e' ∷ [],
      λ text log. (none, record log { os_name = text }),
    )
    ∷ (
      b'o' ∷ b's' ∷ b'.' ∷ b'v' ∷ b'e' ∷ b'r' ∷ b's' ∷ b'i' ∷ b'o' ∷ b'n' ∷ [],
      λ text log. (none, record log { os_version = text }),
    )
    ∷ (
      b's' ∷ b't' ∷ b'a' ∷ b't' ∷ b'i' ∷ b'o' ∷ b'n' ∷ b'.' ∷ b'n' ∷ b'a' ∷ b'm' ∷ b'e' ∷ [],
      λ text log. (none, record log { station_name = text }),
    )
    ∷ (b'l' ∷ b'a' ∷ b'n' ∷ b'g' ∷ [], λ text log. (none, record log { language = text }))
    ∷ (
      b't' ∷ b'i' ∷ b'm' ∷ b'e' ∷ b'Z' ∷ b'o' ∷ b'n' ∷ b'e' ∷ [],
      λ text log. (none, record log { time_zone = until_semicolon text }),
    )
    ∷ (
      b'h' ∷ b'o' ∷ b's' ∷ b't' ∷ b'I' ∷ b'd' ∷ [],
      λ text log. (none, record log { host_id = text }),
    )
    ∷ (
      b'v' ∷ b'm' ∷ b'U' ∷ b'u' ∷ b'i' ∷ b'd' ∷ [],
      λ text log. (none, record log { vm_uuid = text }),
    )
    ∷ (
      b'b' ∷ b'r' ∷ b'a' ∷ b'n' ∷ b'd' ∷ b'I' ∷ b'd' ∷ [],
      λ text log. (none, record log { brand_id = text }),
    )
    ∷ (
      b's' ∷ b'y' ∷ b's' ∷ b'I' ∷ b'n' ∷ b'f' ∷ b'o' ∷ [],
      λ text log. (none, record log { sys_info = text }),
    )
    ∷ (
      b'a' ∷ b'u' ∷ b't' ∷ b'h' ∷ b'A' ∷ b'g' ∷ b'e' ∷ b'n' ∷ b't' ∷ b'T' ∷ b'y' ∷ b'p' ∷ b'e'
          ∷ b'S' ∷ b'p' ∷ b'e' ∷ b'c' ∷ b's' ∷ [],
      λ text log. (none, record log { auth_agent_type = text }),
    )
    ∷ []

-- The first setter whose name the line begins with, where the line has a colon.
unfoldable pub set_line :
    List (List ℕ × Setter) → List ℕ → Option (List ℕ) → FoxLog → Option Error × FoxLog
set_line _ line none log = (none, log)
set_line [] line (some text) log = (none, log)
set_line ((name, set) ∷ rest) line (some text) log =
    if has_prefix line name then set text log else set_line rest line (some text) log

abbrev pub parse_line : List ℕ → FoxLog → Option Error × FoxLog
parse_line line log = set_line setters line (after_colon line) log

-- The loop over the lines: the error of the first `id` that is no number, and the log so far.
abbrev pub go_on : (FoxLog → Option Error × FoxLog) → Option Error × FoxLog → Option Error × FoxLog
go_on rest (none, log) = rest log
go_on rest (some e, log) = (some e, log)

unfoldable pub parse_lines : List (List ℕ) → FoxLog → Option Error × FoxLog
parse_lines [] log = (none, log)
parse_lines (line ∷ lines) log = go_on (parse_lines lines) (parse_line line log)

unfoldable pub parse_hello : List ℕ → FoxLog → Option Error × FoxLog
parse_hello text log =
    if has_prefix text response_prefix
    then parse_lines (split lf text) (record log { is_fox = true })
    else (none, log)

module _ {S : Type 0} (conn : NetConn S) where
  after_answer : FoxLog → ReadResult × S → (Option Error × FoxLog) × S
  after_answer log (r, s) = (
    if length r.bytes == 8196
        then (some (new "Need a bigger buffer to read Fox response"), log)
        else elim r.error [ some e ↦ (some (net e), log) | none ↦ parse_hello r.bytes log ],
    s,
  )

  after_query : FoxLog → WriteResult × S → (Option Error × FoxLog) × S
  unfolding after_answer
  after_query log (w, s) =
      let answer = after_answer log (conn.read 8196 s) in
      if not (w.count == length query_bytes)
      then ((some (new "Unable to write all Fox query bytes..."), log), s)
      else elim w.error [ some e ↦ ((some (net e), log), s) | none ↦ answer ]

  -- `GetFoxBanner`
  unfoldable pub get_fox_banner : FoxLog → S → (Option Error × FoxLog) × S
  unfolding after_query
  get_fox_banner log s = after_query log (conn.write query_bytes s)
