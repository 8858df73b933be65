-- ===== src/Comm/Format.antt =====
-- The lines that meshias_daemon/communication_interface.c prints.
use meshias.Base.{
  Bool, ◌||◌, ℕ, suc, ◌+◌, leb, List, [], ◌∷◌, ◌++◌, ℤ, pos, negsuc, digits, take, length, map,
}
use meshias.Word.{signed32}
use meshias.Route.{MshRoute}
use meshias.State.{Statistics}

-- `%d`; a 32-bit number has at most ten digits.
unfoldable pub print_int : ℤ → List ℕ → List ℕ
print_int (pos n) rest = digits 10 n rest
print_int (negsuc n) rest = 45 ∷ digits 10 (suc n) rest

-- "%d#%d#...%d\n"
unfoldable pub print_line : List ℤ → List ℕ
unfolding print_int
print_line [] = 10 ∷ []
print_line (x ∷ []) = print_int x (10 ∷ [])
print_line (x ∷ y ∷ more) = print_int x (35 ∷ print_line (y ∷ more))

-- The counters in the order in which they are printed.
abbrev pub statistics_counters : Statistics → List ℕ
statistics_counters stats =
    stats.packets_dropped ∷ stats.no_address_received ∷ stats.no_payload_received
    ∷ stats.send_aodv_errors ∷ stats.send_aodv_incomplete ∷ stats.rreq_incorrect_size
    ∷ stats.rrep_incorrect_size ∷ stats.rerr_incorrect_size ∷ stats.rerr_dest_cont_zero
    ∷ stats.rrep_ack_incorrect_size ∷ stats.aodv_incorrect_type ∷ stats.no_ttl_received
    ∷ stats.error_aodv_recv ∷ stats.error_nfq_recv ∷ stats.error_unix_recv ∷ stats.invalid_route
    ∷ []

-- `%d` reads each counter as an `int`.
abbrev pub statistics_fields : Statistics → List ℤ
statistics_fields stats = map signed32 (statistics_counters stats)

-- The text that `snprintf` leaves in a buffer: one byte is for the NUL.
abbrev pub truncated : ℕ → List ℕ → List ℕ
truncated (suc n) text = take n text
truncated _ text = []

unfoldable pub get_statistics : ℕ → Statistics → List ℕ
unfolding print_line
get_statistics bufsize stats = truncated bufsize (print_line (statistics_fields stats))

-- The prefix length, the flags and the hop count are narrower than an `int`.
abbrev pub route_fields : MshRoute → List ℤ
route_fields route =
    signed32 route.dst_ip
    ∷ pos route.prefix_sz
    ∷ signed32 route.dest_seq_num
    ∷ pos route.flags
    ∷ pos route.hop_count
    ∷ signed32 route.next_hop
    ∷ signed32 route.net_iface
    ∷ []

-- The line of a route; `add_route` puts it into its buffer and returns its length.
unfoldable pub add_route : MshRoute → List ℕ
unfolding print_line
add_route route = print_line (route_fields route)

-- `struct route_data`, with what the buffer holds up to `number`, and whether a byte was written at or
-- behind the `size` bytes that the buffer has.
pub record RouteData : Type 0 where
  pub number : ℕ
  pub size : ℕ
  pub buf : List ℕ
  pub past_end : Bool

-- `snprintf` is told the size of the whole buffer, and writes a NUL behind the line.
unfoldable pub add_route_cb : MshRoute → RouteData → RouteData
unfolding add_route
add_route_cb route rd =
    let line = add_route route in
    record {
      number = rd.number + length line;
      size = rd.size;
      buf = rd.buf ++ truncated rd.size line;
      past_end = rd.past_end || leb rd.size (rd.number + length (truncated rd.size line));
    }
