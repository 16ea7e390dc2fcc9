-- ===== src/Lib.antt =====
-- A model of ZGrab 1.0, the banner grabber: the exchanges with a server that it scans, and the
-- packets that they are made of.
--
-- The program (main.go, zlib/) reads targets and hands them to workers; each connects to its target
-- and runs the exchanges that the flags ask for. `GrabBanner` of zlib/grabber.go dials, sets the
-- connection up and runs the steps in turn, over the `Conn` of zlib/conn.go; each step fills a part of the
-- log, and its error names a component and ends the grab. The exchanges share nothing but the connection,
-- so that each is a part of its own here, over the same connection:
--
-- Net: errors, results, buffers, and `net.Conn` as a record of a read and a write over the states of
--   the peer, with the contract of `io.Reader` as laws. Net/Script and Net/Stream are connections for
--   runs, Net/Gives is the interface of a peer that sends a known stream in pieces, and Net/Slices
--   has slices with their capacity.
-- Telnet: ztools/telnet. `negotiate_options` is `NegotiateOptions`, with one function for the
--   commands of a read and one for a command; `get_telnet_banner` is `GetTelnetBanner`.
--   Telnet/Json has the JSON of an option.
-- Modbus: zlib/modbus.go and `SendModbusEcho` of zlib/conn.go. `parse_self` is `ParseSelf`,
--   `get_modbus_response` is `GetModbusResponse`.
-- Bacnet: ztools/scada/bacnet and `BACNetVendorQuery` of zlib/conn.go. A decoder returns what it read
--   and what is left over, where the source sets a receiver.
-- Siemens: ztools/scada/siemens. `get_s7_banner` is `GetS7Banner`, over the functions for its stages.
-- Dnp3: ztools/scada/dnp3. Dnp3/Checksum has the division that the table of `Crc16` stands for, over the
--   exclusive or of Base/Xor.
-- Ftp: ztools/ftp and `ReadUntilRegex` of ztools/util.
-- Smb: ztools/smb. Smb/Encoder has `Marshal` and `Unmarshal` of encoder.go over values as reflection
--   sees them, Smb/Messages the structs, and `get_smb_banner` of Smb/Session is `GetSMBBanner`, which
--   reads through the `bufio.Reader` of Net/Buffered.
-- Fox: ztools/scada/fox. `get_fox_banner` is `GetFoxBanner`, with the chain of its tests as a table.
-- Conn: zlib/conn.go. An operation takes the connection with its log and the state of the peer and
--   returns both with its error. `tls_handshake` is `TLSHandshake`; Conn/Mail has SMTP, POP3 and IMAP
--   with STARTTLS, and Conn/Scans the exchanges above as operations of a connection. Conn/Keeps and
--   its like say what every operation leaves alone.
-- Config: zlib/config.go; Config/Defaults is what the flags of main.go bind where none is given.
-- Http: `makeHTTPGrabber` of zlib/grabber.go. Http/Grab has the loop of the client around its
--   `CheckRedirect`, Http/Host the tests of hosts and ports, and Http/Hops what holds of such a loop.
-- Grabber: zlib/grabber.go. `make_tls_config` and `configure` are `makeTLSConfig` and the beginning of
--   `makeGrabber`; Grabber/Steps has its steps as a list, and `grab_banner`, which is `GrabBanner`.
--   Grabber/Handler is `MakeHandler` with the JSON of a grab.
-- Targets: the decoders of zlib/grabber.go, and the loop of ztools/processing that reads them.
-- Workers: ztools/processing and zlib/processing.go. The goroutines of `Process` and the counter of a
--   `GrabWorker` are the cases of a relation `Step` on one state with the channels, so that a theorem
--   on `Steps` holds for every order in which they run.
-- Flags: `init` of main.go, whose fatal errors are `none`, and what `main` hands to `Process`.
--   Flags/HttpScans puts the handler, the workers and the flags together for a scan over HTTP.
-- Summary: summary.go, and the summary that `main` makes of the counters.
--
-- A call that can end in a Go panic returns a `Result`, with `panic` as a value. Bytes and words are
-- natural numbers with the wrap-around written out. What a log holds as a string is its bytes.
--
-- Loops whose end the peer decides run on fuel, which counts the reads, and are `stuck` without it: a
-- telnet server can send commands for ever. The fuel to give is one for each round of a telnet dialogue
-- and one for each byte of the buffer or the reply that Modbus, FTP and mail read.
-- The loop over the commands of one read has fuel for the length of the buffer, of which each command
-- takes three bytes. The client of an HTTP scan has fuel for one redirect more than the limit, or for
-- one where the limit is negative, which is enough, and the SMB probe wants one for each byte of the message and one more.
--
-- Parameters are `net.Dial`, `Close`, the addresses and names, the engine of regular expressions,
-- the TLS library with its lists of cipher suites, encoding/json, encoding/asn1, times with their
-- text, the parsers of URLs and of CSV, the HTTP client of ztools/http as what it does between two
-- calls of `CheckRedirect`, and what the handler makes of an object in each run. A read is taken to
-- leave the rest of its buffer alone. A write of the output does not fail.
--
-- An `int` has 64 bits. The limits of an HTTP scan keep their sign, since the flags accept a negative
-- one, and the product of the size with 1024 wraps. The other options of this type are natural numbers:
-- `init` refuses a negative number of processors, or an SMB protocol, as it refuses 0, and the limit of
-- the telnet banner is taken not to be negative.
--
-- Not modelled: the deadlines of zlib/conn.go; of zlib/grabber.go SSH, which is a parameter of the
-- grabber; the marshalling of the tags `len` and `offset` of ztools/smb, which no struct that is
-- sent has. A grab is without its time, and `UnmarshalJSON` of zlib/zgrab.go is not implemented
-- there. The CONNECT requests of zlib/conn.go, the headers of zlib/http.go and `TLDMatches` of
-- ztools/util are called by nothing. Files are input and output, and so is what main.go does behind
-- its checks of the flags, whose upper case is that of ASCII. Copies of other projects (ztools/http,
-- ztools/xssh, ztools/zct, ztools/zlog, vendor) are left out.
pub mod Base
pub mod Net
pub mod Telnet
pub mod Modbus
pub mod Bacnet
pub mod Siemens
pub mod Dnp3
pub mod Ftp
pub mod Smb
pub mod Http
pub mod Config
pub mod Conn
pub mod Fox
pub mod Grabber
pub mod Summary
pub mod Targets
pub mod Workers
pub mod Flags
