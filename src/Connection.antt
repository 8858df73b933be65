-- ===== src/Connection.antt =====
-- libmeshias/libmeshias.c: how a client of the library connects to the daemon. What the system's calls
-- return is given.
pub mod Scanning
use meshias.Base.{
  ℕ, ◌==◌, leb, Bool, true, false, Option, none, some, List, [], ◌∷◌, if◌then◌else◌, ℤ, negsuc,
  eqb_ℤ, length,
}
use meshias.Tools.Terminal.{skip_space, scan_word}

-- `meshias_connection_t`; `other_type` is any other value of the enumeration's integer.
pub data ConnectionType : Type 0 where
  unix_socket tcp_socket other_type : ConnectionType

-- `meshias_connection_unix` and `meshias_connection_tcp`, by what is set in them.
pub data Connection : Type 0 where
  unix_connection : (socket : ℤ) (path : List ℕ) → Connection
  tcp_connection : (socket : ℤ) (port ip : ℕ) → Connection

-- A connection, a null pointer, or a write behind an array.
pub data AllocResult : Type 0 where
  allocated : Connection → AllocResult
  null overrun : AllocResult

-- What the calls return: `resolved` is the address that `gethostbyname` finds for a host.
pub record ConnectCalls : Type 0 where
  pub socket : ℤ
  pub resolved : List ℕ → Option ℕ
  pub connect : ℤ

-- `strcpy` into `sun_path`, which has 108 bytes, one of them for the NUL.
abbrev pub sun_path_size : ℕ
sun_path_size = 108

unfoldable pub meshias_connection_alloc_unix : ConnectCalls → List ℕ → AllocResult
meshias_connection_alloc_unix calls path =
    if eqb_ℤ calls.socket (negsuc 0)
    then null
    else if leb sun_path_size (length path)
    then overrun
    else if eqb_ℤ calls.connect (negsuc 0)
    then null
    else allocated (unix_connection calls.socket path)

unfoldable pub meshias_connection_alloc_tcp : ConnectCalls → List ℕ → ℕ → AllocResult
meshias_connection_alloc_tcp calls host port =
    if eqb_ℤ calls.socket (negsuc 0) then null else elim (calls.resolved host) [
      | none ↦ null
      | some ip ↦
          if eqb_ℤ calls.connect (negsuc 0)
          then null
          else allocated (tcp_connection calls.socket port ip)
    ]

abbrev pub host_size : ℕ
host_size = 255

-- `sscanf(path, "%s:%d", host, &port)`: the host, and the port where both are read. `read_port` is
-- what `%d` makes of the characters behind the colon.
unfoldable pub scan_port : (List ℕ → Option ℕ) → List ℕ → Option ℕ
scan_port read_port [] = none
scan_port read_port (c ∷ rest) = if c == 58 then read_port rest else none

unfoldable pub connect_scanned : ConnectCalls → List ℕ → Option ℕ → AllocResult
unfolding meshias_connection_alloc_tcp
connect_scanned calls host none = null
connect_scanned calls host (some port) = meshias_connection_alloc_tcp calls host port

unfoldable pub meshias_connection_alloc :
    (List ℕ → Option ℕ) → ConnectCalls → ConnectionType → List ℕ → AllocResult
unfolding meshias_connection_alloc_unix scan_port connect_scanned skip_space scan_word
meshias_connection_alloc read_port calls unix_socket path = meshias_connection_alloc_unix calls path
meshias_connection_alloc read_port calls tcp_socket path =
    let (host, rest) = scan_word (skip_space path) in
    if leb host_size (length host)
    then overrun
    else connect_scanned calls host (if length host == 0 then none else scan_port read_port rest)
meshias_connection_alloc read_port calls other_type path = null
