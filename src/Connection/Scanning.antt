-- ===== src/Connection/Scanning.antt =====
-- What `sscanf` leaves for the port.
use meshias.Base.{
  ℕ, ◌==◌, ◌≡◌, refl, ap, leb, Bool, true, false, Option, none, List, [], ◌∷◌, if◌then◌else◌, arith,
  length,
}
use meshias.Tools.Terminal.{skip_space, scan_word}
use meshias.Connection.{
  ConnectCalls, tcp_socket, null, overrun, host_size, scan_port, connect_scanned,
  meshias_connection_alloc,
}

-- A word ends at white space or with the text, so no colon is behind it.
scan_port-none :
    (read_port : List ℕ → Option ℕ) (text : List ℕ) → scan_port read_port (scan_word text).1 ≡ none
unfolding scan_word scan_port
scan_port-none read_port [] = refl
scan_port-none read_port (c ∷ rest) = ground (arith, scan_port-none read_port rest)

none_either : (b : Bool) (o : Option ℕ) → o ≡ none → (if b then none else o) ≡ none
none_either true o h = refl
none_either false o h = h

-- The library makes no TCP connection, whatever the path is and whatever the calls return: `%s` takes the
-- colon and the port with the host, so that none is left to read. The result is a null pointer, and where
-- the first word of the path does not fit into the array for the host, a write behind that array.
pub connection_alloc-tcp :
    (read_port : List ℕ → Option ℕ) (calls : ConnectCalls) (path : List ℕ)
    → meshias_connection_alloc read_port calls tcp_socket path
      ≡ (if leb host_size (length (scan_word (skip_space path)).0) then overrun else null)
unfolding meshias_connection_alloc connect_scanned
connection_alloc-tcp read_port calls path =
    let (host, rest) = scan_word (skip_space path) in
    ap (λ port. if leb host_size (length host) then overrun else connect_scanned calls host port)
      (none_either (length host == 0) (scan_port read_port rest)
        (scan_port-none read_port (skip_space path)))
