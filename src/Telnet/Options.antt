-- ===== src/Telnet/Options.antt =====
-- ztools/telnet/names.go and `TelnetOption` of telnet.go: the names of the options.
use tls_banner_grab_go.Base.{
  ℕ, ◌≡◌, ◌<◌, ◌↔◌, refl, Bool, true, not, arith, ◌&&◌, ◌||◌, String, List, [], ◌∷◌, Option, none,
  some, ltb, leb, ◌==◌, if◌then◌else◌,
}
use tls_banner_grab_go.Base.Bits.{all_below, all_below_sound}

-- The entries that `init` writes one by one.
abbrev named_options : List (ℕ × String)
named_options =
    (0, "Binary Transmission")
    ∷ (1, "Echo")
    ∷ (2, "Reconnection")
    ∷ (3, "Suppress Go Ahead")
    ∷ (4, "Approx Message Size Negotiation")
    ∷ (5, "Status")
    ∷ (6, "Timing Mark")
    ∷ (7, "Remote Controlled Trans and Echo")
    ∷ (8, "Output Line Width")
    ∷ (9, "Output Page Size")
    ∷ (10, "Output Carriage-Return Disposition")
    ∷ (11, "Output Horizontal Tab Stops")
    ∷ (12, "Output Horizontal Tab Disposition")
    ∷ (13, "Output Formfeed Disposition")
    ∷ (14, "Output Vertical Tabstops")
    ∷ (15, "Output Vertical Tab Disposition")
    ∷ (16, "Output Linefeed Disposition")
    ∷ (17, "Extended ASCII")
    ∷ (18, "Logout")
    ∷ (19, "Byte Macro")
    ∷ (20, "Data Entry Terminal")
    ∷ (21, "SUPDUP")
    ∷ (22, "SUPDUP Output")
    ∷ (23, "Send Location")
    ∷ (24, "Terminal Type")
    ∷ (25, "End of Record")
    ∷ (26, "TACACS User Identification")
    ∷ (27, "Output Marking")
    ∷ (28, "Terminal Location Number")
    ∷ (29, "Telnet 3270 Regime")
    ∷ (30, "X.3 PAD")
    ∷ (31, "Negotiate About Window Size")
    ∷ (32, "Terminal Speed")
    ∷ (33, "Remote Flow Control")
    ∷ (34, "Linemode")
    ∷ (35, "X Display Location")
    ∷ (36, "Environment Option")
    ∷ (37, "Authentication Option")
    ∷ (38, "Encryption Option")
    ∷ (39, "New Environment Option")
    ∷ (40, "TN3270E")
    ∷ (41, "XAUTH")
    ∷ (42, "CHARSET")
    ∷ (43, "Telnet Remote Serial Port (RSP)")
    ∷ (44, "Com Port Control Option")
    ∷ (45, "Telnet Suppress Local Echo")
    ∷ (46, "Telnet Start TLS")
    ∷ (47, "KERMIT")
    ∷ (48, "SEND-URL")
    ∷ (49, "FORWARD_X")
    ∷ (138, "TELOPT PRAGMA LOGON")
    ∷ (139, "TELOPT SSPI LOGON")
    ∷ (140, "TELOPT PRAGMA HEARTBEAT")
    ∷ (255, "Extended-Options-List")
    ∷ []

find_name : ℕ → List (ℕ × String) → Option String
find_name i [] = none
find_name i ((j, name) ∷ rest) = if j == i then some name else find_name i rest

-- `optionToName` after `init`: the two loops write last.
pub option_to_name : ℕ → Option String
unfolding find_name
option_to_name i =
    if (leb 50 i && ltb i 137) || (leb 141 i && leb i 254)
    then some "Unassigned"
    else find_name i named_options

-- `TelnetOption.Name`
pub name : ℕ → String
name i = elim (option_to_name i) [ none ↦ "unknown" | some n ↦ n ]

-- The check of one byte.
named_right : ℕ → Bool
named_right i = elim (option_to_name i) [ none ↦ i == 137 | some n ↦ not (i == 137) ]

named_right_all : all_below 256 named_right ≡ true
unfolding all_below named_right option_to_name
named_right_all = refl

-- Of the options that a byte can hold, 137 is the one without a name.
pub option_to_name-none : (i : ℕ) → i < 256 → (option_to_name i ≡ none) ↔ (i ≡ 137)
unfolding named_right
option_to_name-none i h = ground (arith, all_below_sound 256 named_right i named_right_all h)
