-- ===== src/Http.antt =====
-- The HTTP scan: `makeHTTPGrabber` of zlib/grabber.go. ztools/http, a copy of the library of Go, is a
-- parameter, as the network is.
pub mod Host
pub mod Grab
pub mod Hops
pub mod Limits
pub mod Localhost
pub mod Script
mod Tests
use tls_banner_grab_go.Base.{ℕ, List, [], Option, none}

-- `http.Response`, as far as the scan reads and sets it. The length is `none` for a negative one.
pub record Response : Type 0 where
  pub head : List ℕ
  pub content_length : Option ℕ
  pub body_text : List ℕ
  pub body_sha256 : Option (List ℕ)

-- `HTTP` of zlib/http.go, but for the two of a proxy, which nothing sets.
pub record HttpLog : Type 0 where
  pub response : Option Response
  pub redirect_response_chain : List Response

-- `new(HTTP)`
abbrev pub new_http_log : HttpLog
new_http_log = record { response = none; redirect_response_chain = [] }
