-- ===== src/Fox/Roundtrip.antt =====
-- What the parser of ztools/scada/fox makes of a station's answer.
use tls_banner_grab_go.Base.{
  ℕ, ◌<◌, ◌≡◌, refl, sym, ◌∙◌, ap, true, false, List, [], ◌∷◌, ◌++◌, none, some, All, arith,
  append_assoc, append-nil, length, ◌==◌, ◌^◌, ltb,
}
use tls_banner_grab_go.Net.Text.{has_prefix}
use tls_banner_grab_go.Net.{NetConn}
use tls_banner_grab_go.Fox.{
  FoxLog, response_prefix, is_digit, first_part, after_colon, until_semicolon, parse_uint32, Setter,
  set_id, setters, set_line, parse_line, parse_lines, parse_hello, get_fox_banner, after_answer,
  after_query,
}
use tls_banner_grab_go.Net.Text.{split}
use tls_banner_grab_go.Fox.Lines.{
  lacks, lacks-append, split-append, first_part-split, first_part-lacks, after_colon-append,
  decimal, decimal-value, decimal-some, all_digits-lacks,
}
use tls_banner_grab_go.Fox.Query.{query_bytes}
use tls_banner_grab_go.Fox.Hello.{Line, key_line, lines, lf, joined, hello, IsField, IsSayable}

-- A line that the parser takes in as it is meant, and that has no line feed.
record Reads (l : Line) : Type 0 where
  one_line : lacks lf l.text ≡ true
  parsed : (log : FoxLog) → parse_line l.text log ≡ (none, l.effect log)

after_colon-key_line :
    (key text : List ℕ)
    → lacks b':' key ≡ true
    → after_colon (key_line key text) ≡ some (first_part (split b':' text))
unfolding lacks
after_colon-key_line key text h = rw (sym (append_assoc key (b'=' ∷ b's' ∷ []) (b':' ∷ text))) (
    after_colon-append (key ++ (b'=' ∷ b's' ∷ [])) text
      (lacks-append b':' key (b'=' ∷ b's' ∷ []) h refl))

-- `set_line` finds the key's own setter.
abbrev Finds : List ℕ → Setter → Type 0
Finds key set =
    (rest text : List ℕ) (log : FoxLog)
    → set_line setters (key ++ rest) (some text) log ≡ set text log

key_line-Reads :
    (key text kept : List ℕ) (set : Setter) (effect : FoxLog → FoxLog)
    → IsField key
    → lacks lf text ≡ true
    → first_part (split b':' text) ≡ kept
    → Finds key set
    → ((log : FoxLog) → set kept log ≡ (none, effect log))
    → Reads (record { text = key_line key text; effect = effect })
unfolding lacks
key_line-Reads key text kept set effect hk ht said finds sets = record {
  one_line = lacks-append lf key (b'=' ∷ b's' ∷ b':' ∷ text) hk.0 ht;
  parsed = λ log.
      rw (after_colon-key_line key text hk.1, said)
        (finds (b'=' ∷ b's' ∷ b':' ∷ text) kept log ∙ sets log);
}

-- A line of a text that the log keeps as it is.
plain-Reads :
    (key text : List ℕ) (put : List ℕ → FoxLog → FoxLog)
    → IsField key
    → IsField text
    → Finds key (λ t log. (none, put t log))
    → Reads (record { text = key_line key text; effect = put text })
plain-Reads key text put hk ht finds =
    key_line-Reads key text text (λ t log. (none, put t log)) (put text) hk ht.0
      (first_part-lacks b':' text ht.1) finds (λ log. refl)

effects : List Line → FoxLog → FoxLog
effects [] log = log
effects (l ∷ ls) log = effects ls (l.effect log)

parse_lines-joined :
    (ls : List Line) (tail : List ℕ) (log : FoxLog)
    → All Reads ls
    → parse_lines (split lf (joined ls tail)) log ≡ parse_lines (split lf tail) (effects ls log)
unfolding parse_lines joined effects
parse_lines-joined [] tail log h = refl
parse_lines-joined (l ∷ ls) tail log (h, hs) =
    rw (split-append lf l.text (joined ls tail) h.one_line, h.parsed log)
      (parse_lines-joined ls tail (l.effect log) hs)

decimal-lacks : (b n : ℕ) → is_digit b ≡ false → n < 10 ^ 10 → lacks b (decimal 10 n) ≡ true
decimal-lacks b n h k = all_digits-lacks b (decimal 10 n) h (decimal-value 10 n k).1

parse_uint32-decimal : (n : ℕ) → n < 4294967296 → parse_uint32 (decimal 10 n) ≡ (n, none)
unfolding parse_uint32
parse_uint32-decimal n h =
    let (value, digits) = decimal-value 10 n (omega arith) in
    let some_digits : (length (decimal 10 n) == 0) ≡ false = ground (arith, decimal-some 9 n) in
    let small : ltb n 4294967296 ≡ true = ground arith in
    rw (some_digits, digits, value, small) refl

abbrev id_key : List ℕ
id_key = b'i' ∷ b'd' ∷ []

id-Reads :
    (n : ℕ)
    → n < 4294967296
    → Reads
        (record { text = key_line id_key (decimal 10 n); effect = λ log. record log { id = n } })
unfolding lacks setters set_line has_prefix
id-Reads n h =
    let k : n < 10 ^ 10 = omega arith in
    key_line-Reads id_key (decimal 10 n) (decimal 10 n) (λ t log. set_id (parse_uint32 t) log)
      (λ log. record log { id = n }) (refl, refl) (decimal-lacks lf n refl k)
      (first_part-lacks b':' (decimal 10 n) (decimal-lacks b':' n refl k)) (λ rest t log. refl)
      (λ log. rw (parse_uint32-decimal n h) refl)

until_semicolon-append :
    (zone rest : List ℕ) → lacks b';' zone ≡ true → until_semicolon (zone ++ (b';' ∷ rest)) ≡ zone
unfolding split
until_semicolon-append zone rest h = first_part-split b';' zone (b';' ∷ rest) h ∙ append-nil zone

abbrev zone_key : List ℕ
zone_key = b't' ∷ b'i' ∷ b'm' ∷ b'e' ∷ b'Z' ∷ b'o' ∷ b'n' ∷ b'e' ∷ []

zone-Reads :
    (zone rules : List ℕ)
    → IsField zone × (lacks b';' zone ≡ true)
    → lacks lf rules ≡ true
    → Reads (record {
      text = key_line zone_key (zone ++ (b';' ∷ rules));
      effect = λ log. record log { time_zone = zone };
    })
unfolding lacks setters set_line has_prefix
zone-Reads zone rules h k =
    key_line-Reads zone_key (zone ++ (b';' ∷ rules))
      (zone ++ (b';' ∷ first_part (split b':' rules)))
      (λ t log. (none, record log { time_zone = until_semicolon t }))
      (λ log. record log { time_zone = zone }) (refl, refl)
      (lacks-append lf zone (b';' ∷ rules) h.0.0 k)
      (first_part-split b':' zone (b';' ∷ rules) h.0.1
        ∙ ap (λ t. zone ++ t) (first_part-split b':' (b';' ∷ []) rules refl))
      (λ rest t log. refl)
      (λ log.
        ap (λ t. (none, record log { time_zone = t }))
          (until_semicolon-append zone (first_part (split b':' rules)) h.1))

lines-Reads : (v : FoxLog) (rules : List ℕ) → IsSayable v rules → All Reads (lines v rules)
unfolding lacks setters set_line has_prefix
lines-Reads v rules h = (
  plain-Reads (b'f' ∷ b'o' ∷ b'x' ∷ b'.' ∷ b'v' ∷ b'e' ∷ b'r' ∷ b's' ∷ b'i' ∷ b'o' ∷ b'n' ∷ [])
      v.version (λ t log. record log { version = t }) (refl, refl) h.version (λ rest t log. refl),
  (
    id-Reads v.id h.id,
    (
      plain-Reads (b'h' ∷ b'o' ∷ b's' ∷ b't' ∷ b'A' ∷ b'd' ∷ b'd' ∷ b'r' ∷ b'e' ∷ b's' ∷ b's' ∷ [])
          v.host_address (λ t log. record log { host_address = t }) (refl, refl) h.host_address
          (λ rest t log. refl),
      (
        plain-Reads (b'h' ∷ b'o' ∷ b's' ∷ b't' ∷ b'N' ∷ b'a' ∷ b'm' ∷ b'e' ∷ []) v.hostname
            (λ t log. record log { hostname = t }) (refl, refl) h.hostname (λ rest t log. refl),
        (
          plain-Reads (b'a' ∷ b'p' ∷ b'p' ∷ b'.' ∷ b'n' ∷ b'a' ∷ b'm' ∷ b'e' ∷ []) v.app_name
              (λ t log. record log { app_name = t }) (refl, refl) h.app_name (λ rest t log. refl),
          (
            plain-Reads
                (b'a' ∷ b'p' ∷ b'p' ∷ b'.' ∷ b'v' ∷ b'e' ∷ b'r' ∷ b's' ∷ b'i' ∷ b'o' ∷ b'n' ∷ [])
                v.app_version (λ t log. record log { app_version = t }) (refl, refl) h.app_version
                (λ rest t log. refl),
            (
              plain-Reads (b'v' ∷ b'm' ∷ b'.' ∷ b'n' ∷ b'a' ∷ b'm' ∷ b'e' ∷ []) v.vm_name
                  (λ t log. record log { vm_name = t }) (refl, refl) h.vm_name (λ rest t log. refl),
              (
                plain-Reads
                    (b'v' ∷ b'm' ∷ b'.' ∷ b'v' ∷ b'e' ∷ b'r' ∷ b's' ∷ b'i' ∷ b'o' ∷ b'n' ∷ [])
                    v.vm_version (λ t log. record log { vm_version = t }) (refl, refl) h.vm_version
                    (λ rest t log. refl),
                (
                  plain-Reads (b'o' ∷ b's' ∷ b'.' ∷ b'n' ∷ b'a' ∷ b'm' ∷ b'e' ∷ []) v.os_name
                      (λ t log. record log { os_name = t }) (refl, refl) h.os_name
                      (λ rest t log. refl),
                  (
                    plain-Reads
                        (b'o' ∷ b's' ∷ b'.' ∷ b'v' ∷ b'e' ∷ b'r' ∷ b's' ∷ b'i' ∷ b'o' ∷ b'n' ∷ [])
                        v.os_version (λ t log. record log { os_version = t }) (refl, refl)
                        h.os_version (λ rest t log. refl),
                    (
                      plain-Reads
                          (b's' ∷ b't' ∷ b'a' ∷ b't' ∷ b'i' ∷ b'o' ∷ b'n' ∷ b'.' ∷ b'n' ∷ b'a'
                            ∷ b'm' ∷ b'e' ∷ [])
                          v.station_name (λ t log. record log { station_name = t }) (refl, refl)
                          h.station_name (λ rest t log. refl),
                      (
                        plain-Reads (b'l' ∷ b'a' ∷ b'n' ∷ b'g' ∷ []) v.language
                            (λ t log. record log { language = t }) (refl, refl) h.language
                            (λ rest t log. refl),
                        (
                          zone-Reads v.time_zone rules h.time_zone h.one_line,
                          (
                            plain-Reads (b'h' ∷ b'o' ∷ b's' ∷ b't' ∷ b'I' ∷ b'd' ∷ []) v.host_id
                                (λ t log. record log { host_id = t }) (refl, refl) h.host_id
                                (λ rest t log. refl),
                            (
                              plain-Reads (b'v' ∷ b'm' ∷ b'U' ∷ b'u' ∷ b'i' ∷ b'd' ∷ []) v.vm_uuid
                                  (λ t log. record log { vm_uuid = t }) (refl, refl) h.vm_uuid
                                  (λ rest t log. refl),
                              (
                                plain-Reads (b'b' ∷ b'r' ∷ b'a' ∷ b'n' ∷ b'd' ∷ b'I' ∷ b'd' ∷ [])
                                    v.brand_id (λ t log. record log { brand_id = t }) (refl, refl)
                                    h.brand_id (λ rest t log. refl),
                                (
                                  plain-Reads (b's' ∷ b'y' ∷ b's' ∷ b'I' ∷ b'n' ∷ b'f' ∷ b'o' ∷ [])
                                      v.sys_info (λ t log. record log { sys_info = t }) (refl, refl)
                                      h.sys_info (λ rest t log. refl),
                                  (
                                    plain-Reads
                                        (b'a' ∷ b'u' ∷ b't' ∷ b'h' ∷ b'A' ∷ b'g' ∷ b'e' ∷ b'n'
                                          ∷ b't' ∷ b'T' ∷ b'y' ∷ b'p' ∷ b'e' ∷ b'S' ∷ b'p' ∷ b'e'
                                          ∷ b'c' ∷ b's' ∷ [])
                                        v.auth_agent_type
                                        (λ t log. record log { auth_agent_type = t }) (refl, refl)
                                        h.auth_agent_type (λ rest t log. refl),
                                    tt,
                                  ),
                                ),
                              ),
                            ),
                          ),
                        ),
                      ),
                    ),
                  ),
                ),
              ),
            ),
          ),
        ),
      ),
    ),
  ),
)

tail-quiet :
    (log : FoxLog) → parse_lines (split lf (b'}' ∷ b';' ∷ b';' ∷ lf ∷ [])) log ≡ (none, log)
unfolding parse_lines split set_line
tail-quiet log = refl

greeting-quiet :
    (text : List ℕ) (log : FoxLog)
    → parse_lines (split lf (response_prefix ++ (lf ∷ b'{' ∷ lf ∷ text))) log
      ≡ parse_lines (split lf text) log
unfolding parse_lines split set_line setters
greeting-quiet text log = refl

effects-lines :
    (v log : FoxLog) (rules : List ℕ)
    → v.is_fox ≡ true
    → effects (lines v rules) (record log { is_fox = true }) ≡ v
unfolding effects
effects-lines v log rules h = ap (λ b. record v { is_fox = b }) (sym h)

parse_hello-hello :
    (v : FoxLog) (rules : List ℕ) (log : FoxLog)
    → IsSayable v rules
    → parse_hello (hello v rules) log ≡ (none, v)
unfolding parse_hello hello has_prefix
parse_hello-hello v rules log h =
    greeting-quiet (joined (lines v rules) (b'}' ∷ b';' ∷ b';' ∷ lf ∷ []))
      (record log { is_fox = true })
    ∙ parse_lines-joined (lines v rules) (b'}' ∷ b';' ∷ b';' ∷ lf ∷ [])
        (record log { is_fox = true }) (lines-Reads v rules h)
    ∙ tail-quiet (effects (lines v rules) (record log { is_fox = true }))
    ∙ ap (λ l. (none, l)) (effects-lines v log rules h.is_fox)

module _ {S : Type 0} (conn : NetConn S) where
  answered :
      (v : FoxLog) (rules : List ℕ) (log : FoxLog) (s : S)
      → IsSayable v rules
      → length (hello v rules) < 8196
      → after_answer conn log (record { bytes = hello v rules; error = none }, s) ≡ ((none, v), s)
  unfolding after_answer
  answered v rules log s h fits =
      let small : (length (hello v rules) == 8196) ≡ false = ground arith in
      rw (small, parse_hello-hello v rules log h) refl

  -- A station answers the query with a line for each field of a log: texts without a line feed or
  -- a colon, a time zone without a semicolon but with rules behind one, and a number below 2^32
  -- in decimal. If the answer has less than 8196 bytes, comes in one read and the write was
  -- whole, GetFoxBanner returns no error and that log, whatever the log was.
  pub get_fox_banner-hello :
      (v : FoxLog) (rules : List ℕ) (log : FoxLog) (s s' s'' : S)
      → IsSayable v rules
      → length (hello v rules) < 8196
      → conn.write query_bytes s ≡ (record { count = length query_bytes; error = none }, s')
      → conn.read 8196 s' ≡ (record { bytes = hello v rules; error = none }, s'')
      → get_fox_banner conn log s ≡ ((none, v), s'')
  unfolding get_fox_banner after_query
  get_fox_banner-hello v rules log s s' s'' h fits w r =
      ap (after_query conn log) w ∙ ap (after_answer conn log) r ∙ answered v rules log s'' h fits
