-- ===== src/Fox/Hello.antt =====
-- The answer of a station to the query of ztools/scada/fox.
use tls_banner_grab_go.Base.{ℕ, ◌<◌, ◌≡◌, true, List, [], ◌∷◌, ◌++◌}
use tls_banner_grab_go.Fox.{FoxLog, response_prefix}
use tls_banner_grab_go.Fox.Lines.{lacks, decimal}

-- A line of an answer, and its effect on the log.
pub record Line : Type 0 where
  pub text : List ℕ
  pub effect : FoxLog → FoxLog

abbrev pub key_line : List ℕ → List ℕ → List ℕ
key_line key text = key ++ (b'=' ∷ b's' ∷ b':' ∷ text)

-- The lines that a station says of what the log holds; the rules of the time zone are in `rules`.
abbrev pub lines : FoxLog → List ℕ → List Line
lines v rules =
    record {
      text =
          key_line (b'f' ∷ b'o' ∷ b'x' ∷ b'.' ∷ b'v' ∷ b'e' ∷ b'r' ∷ b's' ∷ b'i' ∷ b'o' ∷ b'n' ∷ [])
            v.version;
      effect = λ log. record log { version = v.version };
    }
    ∷ record {
      text = key_line (b'i' ∷ b'd' ∷ []) (decimal 10 v.id);
      effect = λ log. record log { id = v.id };
    }
    ∷ record {
      text =
          key_line (b'h' ∷ b'o' ∷ b's' ∷ b't' ∷ b'A' ∷ b'd' ∷ b'd' ∷ b'r' ∷ b'e' ∷ b's' ∷ b's' ∷ [])
            v.host_address;
      effect = λ log. record log { host_address = v.host_address };
    }
    ∷ record {
      text = key_line (b'h' ∷ b'o' ∷ b's' ∷ b't' ∷ b'N' ∷ b'a' ∷ b'm' ∷ b'e' ∷ []) v.hostname;
      effect = λ log. record log { hostname = v.hostname };
    }
    ∷ record {
      text = key_line (b'a' ∷ b'p' ∷ b'p' ∷ b'.' ∷ b'n' ∷ b'a' ∷ b'm' ∷ b'e' ∷ []) v.app_name;
      effect = λ log. record log { app_name = v.app_name };
    }
    ∷ record {
      text =
          key_line (b'a' ∷ b'p' ∷ b'p' ∷ b'.' ∷ b'v' ∷ b'e' ∷ b'r' ∷ b's' ∷ b'i' ∷ b'o' ∷ b'n' ∷ [])
            v.app_version;
      effect = λ log. record log { app_version = v.app_version };
    }
    ∷ record {
      text = key_line (b'v' ∷ b'm' ∷ b'.' ∷ b'n' ∷ b'a' ∷ b'm' ∷ b'e' ∷ []) v.vm_name;
      effect = λ log. record log { vm_name = v.vm_name };
    }
    ∷ record {
      text =
          key_line (b'v' ∷ b'm' ∷ b'.' ∷ b'v' ∷ b'e' ∷ b'r' ∷ b's' ∷ b'i' ∷ b'o' ∷ b'n' ∷ [])
            v.vm_version;
      effect = λ log. record log { vm_version = v.vm_version };
    }
    ∷ record {
      text = key_line (b'o' ∷ b's' ∷ b'.' ∷ b'n' ∷ b'a' ∷ b'm' ∷ b'e' ∷ []) v.os_name;
      effect = λ log. record log { os_name = v.os_name };
    }
    ∷ record {
      text =
          key_line (b'o' ∷ b's' ∷ b'.' ∷ b'v' ∷ b'e' ∷ b'r' ∷ b's' ∷ b'i' ∷ b'o' ∷ b'n' ∷ [])
            v.os_version;
      effect = λ log. record log { os_version = v.os_version };
    }
    ∷ record {
      text =
          key_line
            (b's' ∷ b't' ∷ b'a' ∷ b't' ∷ b'i' ∷ b'o' ∷ b'n' ∷ b'.' ∷ b'n' ∷ b'a' ∷ b'm' ∷ b'e' ∷ [])
            v.station_name;
      effect = λ log. record log { station_name = v.station_name };
    }
    ∷ record {
      text = key_line (b'l' ∷ b'a' ∷ b'n' ∷ b'g' ∷ []) v.language;
      effect = λ log. record log { language = v.language };
    }
    ∷ record {
      text =
          key_line (b't' ∷ b'i' ∷ b'm' ∷ b'e' ∷ b'Z' ∷ b'o' ∷ b'n' ∷ b'e' ∷ [])
            (v.time_zone ++ (b';' ∷ rules));
      effect = λ log. record log { time_zone = v.time_zone };
    }
    ∷ record {
      text = key_line (b'h' ∷ b'o' ∷ b's' ∷ b't' ∷ b'I' ∷ b'd' ∷ []) v.host_id;
      effect = λ log. record log { host_id = v.host_id };
    }
    ∷ record {
      text = key_line (b'v' ∷ b'm' ∷ b'U' ∷ b'u' ∷ b'i' ∷ b'd' ∷ []) v.vm_uuid;
      effect = λ log. record log { vm_uuid = v.vm_uuid };
    }
    ∷ record {
      text = key_line (b'b' ∷ b'r' ∷ b'a' ∷ b'n' ∷ b'd' ∷ b'I' ∷ b'd' ∷ []) v.brand_id;
      effect = λ log. record log { brand_id = v.brand_id };
    }
    ∷ record {
      text = key_line (b's' ∷ b'y' ∷ b's' ∷ b'I' ∷ b'n' ∷ b'f' ∷ b'o' ∷ []) v.sys_info;
      effect = λ log. record log { sys_info = v.sys_info };
    }
    ∷ record {
      text =
          key_line
            (b'a' ∷ b'u' ∷ b't' ∷ b'h' ∷ b'A' ∷ b'g' ∷ b'e' ∷ b'n' ∷ b't' ∷ b'T' ∷ b'y' ∷ b'p'
              ∷ b'e' ∷ b'S' ∷ b'p' ∷ b'e' ∷ b'c' ∷ b's' ∷ [])
            v.auth_agent_type;
      effect = λ log. record log { auth_agent_type = v.auth_agent_type };
    }
    ∷ []

abbrev pub lf : ℕ
lf = 10

-- Lines, each with a line feed behind it.
unfoldable pub joined : List Line → List ℕ → List ℕ
joined [] tail = tail
joined (l ∷ ls) tail = l.text ++ (lf ∷ joined ls tail)

-- The answer: the greeting, a brace, the lines, and braces and semicolons.
unfoldable pub hello : FoxLog → List ℕ → List ℕ
unfolding joined
hello v rules =
    response_prefix ++ (lf ∷ b'{' ∷ lf ∷ joined (lines v rules) (b'}' ∷ b';' ∷ b';' ∷ lf ∷ []))

-- Texts that an answer can hold: no line feed, and no colon.
abbrev pub IsField : List ℕ → Type 0
IsField text = (lacks lf text ≡ true) × (lacks b':' text ≡ true)

pub record IsSayable (v : FoxLog) (rules : List ℕ) : Type 0 where
  pub is_fox : v.is_fox ≡ true
  pub id : v.id < 4294967296
  pub time_zone : (IsField v.time_zone) × (lacks b';' v.time_zone ≡ true)
  pub one_line : lacks lf rules ≡ true
  pub version : IsField v.version
  pub host_address : IsField v.host_address
  pub hostname : IsField v.hostname
  pub app_name : IsField v.app_name
  pub app_version : IsField v.app_version
  pub vm_name : IsField v.vm_name
  pub vm_version : IsField v.vm_version
  pub os_name : IsField v.os_name
  pub os_version : IsField v.os_version
  pub station_name : IsField v.station_name
  pub language : IsField v.language
  pub host_id : IsField v.host_id
  pub vm_uuid : IsField v.vm_uuid
  pub brand_id : IsField v.brand_id
  pub sys_info : IsField v.sys_info
  pub auth_agent_type : IsField v.auth_agent_type
