-- ===== src/Net.antt =====
-- The parts of Go that the scanners stand on: error values, results, slices and `net.Conn`.
pub mod Buffered
pub mod Gives
pub mod Script
pub mod Slices
pub mod Stream
pub mod Text
use tls_banner_grab_go.Base.{ℕ, ◌≤◌, ◌<◌, String, List, ◌++◌, Option, length, drop, replicate, All}
use tls_banner_grab_go.Base.Int.{ℤ}

-- What a network call can fail with: the end of the stream, a `net.Error` whose `Timeout()` holds,
-- and any other error.
pub data NetError : Type 0 where
  eof timeout : NetError
  other : ℕ → NetError

-- Go's `error`: an error of the network, or one of the program's own, with its text or
-- with its text and the number or the error that `fmt` puts behind it.
pub data Error : Type 0 where
  net : NetError → Error
  new : String → Error
  newf : String → ℕ → Error
  newi : String → ℤ → Error
  wrap : String → Error → Error

-- What a call ends with. `panic` is a Go panic, such as an index out of range. `stuck` is no Go
-- value: the fuel of a loop ran out.
pub data Result {ℓ} (A : Type ℓ) : Type ℓ where
  ok : A → Result A
  err : Error → Result A
  panic stuck : Result A

infixl 5 ◌>>=◌ ◌>>◌
abbrev pub ◌>>=◌ {ℓ κ} : {A : Type ℓ} {B : Type κ} → Result A → (A → Result B) → Result B
ok a >>= f = f a
err e >>= f = err e
panic >>= f = panic
stuck >>= f = stuck

abbrev pub ◌>>◌ {ℓ} : {B : Type ℓ} → Result (Unit {0}) → Result B → Result B
m >> k = m >>= λ _. k

abbrev pub IsByte : ℕ → Type 0
IsByte b = b < 256

-- `n, err := conn.Read(p)`: `n` is the length of `bytes`, which are what the call put into `p`.
pub record ReadResult : Type 0 where
  pub bytes : List ℕ
  pub error : Option NetError

-- `n, err := conn.Write(p)`
pub record WriteResult : Type 0 where
  pub count : ℕ
  pub error : Option NetError

-- A connection of Go's standard library, over the states `S` of the peer and the network. A read is
-- given the length of its buffer. The laws are the contract of `io.Reader`.
pub record NetConn (S : Type 0) : Type 0 where
  pub read : ℕ → S → ReadResult × S
  pub write : List ℕ → S → WriteResult × S
  pub read-le : (n : ℕ) (s : S) → length (read n s).0.bytes ≤ n
  pub read-IsByte : (n : ℕ) (s : S) → All IsByte (read n s).0.bytes

-- The bytes of a buffer after a read into its front.
unfoldable pub fill : List ℕ → List ℕ → List ℕ
fill got buffer = got ++ drop (length got) buffer

-- `make([]byte, n)`
unfoldable pub make : ℕ → List ℕ
make n = replicate n 0
