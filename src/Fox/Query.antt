-- ===== src/Fox/Query.antt =====
-- The query of ztools/scada/fox.
use tls_banner_grab_go.Base.{ℕ, List, [], ◌∷◌, ◌++◌}

-- `ORIGINAL_QUERY`, decoded, line by line.
abbrev lf : ℕ
lf = 10

abbrev pub query_bytes : List ℕ
query_bytes =
    (b'f' ∷ b'o' ∷ b'x' ∷ b' ' ∷ b'a' ∷ b' ' ∷ b'1' ∷ b' ' ∷ b'-' ∷ b'1' ∷ b' ' ∷ b'f' ∷ b'o' ∷ b'x'
      ∷ b' ' ∷ b'h' ∷ b'e' ∷ b'l' ∷ b'l' ∷ b'o' ∷ lf ∷ [])
    ++ (b'{' ∷ lf ∷ [])
    ++ (b'f' ∷ b'o' ∷ b'x' ∷ b'.' ∷ b'v' ∷ b'e' ∷ b'r' ∷ b's' ∷ b'i' ∷ b'o' ∷ b'n' ∷ b'=' ∷ b's'
        ∷ b':' ∷ b'1' ∷ b'.' ∷ b'0' ∷ lf ∷ [])
    ++ (b'i' ∷ b'd' ∷ b'=' ∷ b'i' ∷ b':' ∷ b'1' ∷ lf ∷ [])
    ++ (b'h' ∷ b'o' ∷ b's' ∷ b't' ∷ b'N' ∷ b'a' ∷ b'm' ∷ b'e' ∷ b'=' ∷ b's' ∷ b':' ∷ b'x' ∷ b'p'
        ∷ b'v' ∷ b'm' ∷ b'-' ∷ b'0' ∷ b'o' ∷ b'm' ∷ b'd' ∷ b'c' ∷ b'0' ∷ b'1' ∷ b'x' ∷ b'm' ∷ b'y'
        ∷ lf ∷ [])
    ++ (b'h' ∷ b'o' ∷ b's' ∷ b't' ∷ b'A' ∷ b'd' ∷ b'd' ∷ b'r' ∷ b'e' ∷ b's' ∷ b's' ∷ b'=' ∷ b's'
        ∷ b':' ∷ b'1' ∷ b'9' ∷ b'2' ∷ b'.' ∷ b'1' ∷ b'6' ∷ b'8' ∷ b'.' ∷ b'1' ∷ b'.' ∷ b'1' ∷ b'2'
        ∷ b'5' ∷ lf ∷ [])
    ++ (b'a' ∷ b'p' ∷ b'p' ∷ b'.' ∷ b'n' ∷ b'a' ∷ b'm' ∷ b'e' ∷ b'=' ∷ b's' ∷ b':' ∷ b'W' ∷ b'o'
        ∷ b'r' ∷ b'k' ∷ b'b' ∷ b'e' ∷ b'n' ∷ b'c' ∷ b'h' ∷ lf ∷ [])
    ++ (b'a' ∷ b'p' ∷ b'p' ∷ b'.' ∷ b'v' ∷ b'e' ∷ b'r' ∷ b's' ∷ b'i' ∷ b'o' ∷ b'n' ∷ b'=' ∷ b's'
        ∷ b':' ∷ b'3' ∷ b'.' ∷ b'7' ∷ b'.' ∷ b'4' ∷ b'4' ∷ lf ∷ [])
    ++ (b'v' ∷ b'm' ∷ b'.' ∷ b'n' ∷ b'a' ∷ b'm' ∷ b'e' ∷ b'=' ∷ b's' ∷ b':' ∷ b'J' ∷ b'a' ∷ b'v'
        ∷ b'a' ∷ b' ' ∷ b'H' ∷ b'o' ∷ b't' ∷ b'S' ∷ b'p' ∷ b'o' ∷ b't' ∷ b'(' ∷ b'T' ∷ b'M' ∷ b')'
        ∷ b' ' ∷ b'S' ∷ b'e' ∷ b'r' ∷ b'v' ∷ b'e' ∷ b'r' ∷ b' ' ∷ b'V' ∷ b'M' ∷ lf ∷ [])
    ++ (b'v' ∷ b'm' ∷ b'.' ∷ b'v' ∷ b'e' ∷ b'r' ∷ b's' ∷ b'i' ∷ b'o' ∷ b'n' ∷ b'=' ∷ b's' ∷ b':'
        ∷ b'2' ∷ b'0' ∷ b'.' ∷ b'4' ∷ b'-' ∷ b'b' ∷ b'0' ∷ b'2' ∷ lf ∷ [])
    ++ (b'o' ∷ b's' ∷ b'.' ∷ b'n' ∷ b'a' ∷ b'm' ∷ b'e' ∷ b'=' ∷ b's' ∷ b':' ∷ b'W' ∷ b'i' ∷ b'n'
        ∷ b'd' ∷ b'o' ∷ b'w' ∷ b's' ∷ b' ' ∷ b'X' ∷ b'P' ∷ lf ∷ [])
    ++ (b'o' ∷ b's' ∷ b'.' ∷ b'v' ∷ b'e' ∷ b'r' ∷ b's' ∷ b'i' ∷ b'o' ∷ b'n' ∷ b'=' ∷ b's' ∷ b':'
        ∷ b'5' ∷ b'.' ∷ b'1' ∷ lf ∷ [])
    ++ (b'l' ∷ b'a' ∷ b'n' ∷ b'g' ∷ b'=' ∷ b's' ∷ b':' ∷ b'e' ∷ b'n' ∷ lf ∷ [])
    ++ (b't' ∷ b'i' ∷ b'm' ∷ b'e' ∷ b'Z' ∷ b'o' ∷ b'n' ∷ b'e' ∷ b'=' ∷ b's' ∷ b':' ∷ b'A' ∷ b'm'
        ∷ b'e' ∷ b'r' ∷ b'i' ∷ b'c' ∷ b'a' ∷ b'/' ∷ b'L' ∷ b'o' ∷ b's' ∷ b'_' ∷ b'A' ∷ b'n' ∷ b'g'
        ∷ b'e' ∷ b'l' ∷ b'e' ∷ b's' ∷ b';' ∷ b'-' ∷ b'2' ∷ b'8' ∷ b'8' ∷ b'0' ∷ b'0' ∷ b'0' ∷ b'0'
        ∷ b'0' ∷ b';' ∷ b'3' ∷ b'6' ∷ b'0' ∷ b'0' ∷ b'0' ∷ b'0' ∷ b'0' ∷ b';' ∷ b'0' ∷ b'2' ∷ b':'
        ∷ b'0' ∷ b'0' ∷ b':' ∷ b'0' ∷ b'0' ∷ b'.' ∷ b'0' ∷ b'0' ∷ b'0' ∷ b',' ∷ b'w' ∷ b'a' ∷ b'l'
        ∷ b'l' ∷ b',' ∷ b'm' ∷ b'a' ∷ b'r' ∷ b'c' ∷ b'h' ∷ b',' ∷ b'8' ∷ b',' ∷ b'o' ∷ b'n' ∷ b' '
        ∷ b'o' ∷ b'r' ∷ b' ' ∷ b'a' ∷ b'f' ∷ b't' ∷ b'e' ∷ b'r' ∷ b',' ∷ b's' ∷ b'u' ∷ b'n' ∷ b'd'
        ∷ b'a' ∷ b'y' ∷ b',' ∷ b'u' ∷ b'n' ∷ b'd' ∷ b'e' ∷ b'f' ∷ b'i' ∷ b'n' ∷ b'e' ∷ b'd' ∷ b';'
        ∷ b'0' ∷ b'2' ∷ b':' ∷ b'0' ∷ b'0' ∷ b':' ∷ b'0' ∷ b'0' ∷ b'.' ∷ b'0' ∷ b'0' ∷ b'0' ∷ b','
        ∷ b'w' ∷ b'a' ∷ b'l' ∷ b'l' ∷ b',' ∷ b'n' ∷ b'o' ∷ b'v' ∷ b'e' ∷ b'm' ∷ b'b' ∷ b'e' ∷ b'r'
        ∷ b',' ∷ b'1' ∷ b',' ∷ b'o' ∷ b'n' ∷ b' ' ∷ b'o' ∷ b'r' ∷ b' ' ∷ b'a' ∷ b'f' ∷ b't' ∷ b'e'
        ∷ b'r' ∷ b',' ∷ b's' ∷ b'u' ∷ b'n' ∷ b'd' ∷ b'a' ∷ b'y' ∷ b',' ∷ b'u' ∷ b'n' ∷ b'd' ∷ b'e'
        ∷ b'f' ∷ b'i' ∷ b'n' ∷ b'e' ∷ b'd' ∷ lf ∷ [])
    ++ (b'h' ∷ b'o' ∷ b's' ∷ b't' ∷ b'I' ∷ b'd' ∷ b'=' ∷ b's' ∷ b':' ∷ b'W' ∷ b'i' ∷ b'n' ∷ b'-'
        ∷ b'9' ∷ b'9' ∷ b'C' ∷ b'B' ∷ b'-' ∷ b'D' ∷ b'4' ∷ b'9' ∷ b'D' ∷ b'-' ∷ b'5' ∷ b'4' ∷ b'4'
        ∷ b'2' ∷ b'-' ∷ b'0' ∷ b'7' ∷ b'B' ∷ b'B' ∷ lf ∷ [])
    ++ (b'v' ∷ b'm' ∷ b'U' ∷ b'u' ∷ b'i' ∷ b'd' ∷ b'=' ∷ b's' ∷ b':' ∷ b'8' ∷ b'b' ∷ b'5' ∷ b'3'
        ∷ b'0' ∷ b'b' ∷ b'c' ∷ b'8' ∷ b'-' ∷ b'7' ∷ b'6' ∷ b'c' ∷ b'5' ∷ b'-' ∷ b'4' ∷ b'1' ∷ b'3'
        ∷ b'9' ∷ b'-' ∷ b'a' ∷ b'2' ∷ b'e' ∷ b'a' ∷ b'-' ∷ b'0' ∷ b'f' ∷ b'a' ∷ b'b' ∷ b'd' ∷ b'3'
        ∷ b'9' ∷ b'4' ∷ b'd' ∷ b'3' ∷ b'0' ∷ b'5' ∷ lf ∷ [])
    ++ (b'b' ∷ b'r' ∷ b'a' ∷ b'n' ∷ b'd' ∷ b'I' ∷ b'd' ∷ b'=' ∷ b's' ∷ b':' ∷ b'v' ∷ b'y' ∷ b'k'
        ∷ b'o' ∷ b'n' ∷ lf ∷ [])
    ++ (b'}' ∷ b';' ∷ b';' ∷ lf ∷ [])
