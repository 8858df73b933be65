-- ===== src/Comm.antt =====
-- meshias_daemon/communication_interface.c: the commands that come over the TCP socket of the control
-- port, and their replies. Opening and closing the socket is not modelled.
pub mod Format
pub mod Readback
pub mod Bounds
pub mod Sending
pub mod Commands
use meshias.Base.{
  ◌==◌, ℕ, zero, suc, ◌+◌, ltb, leb, Bool, true, false, Option, none, some, List, [], ◌∷◌, ◌++◌,
  if◌then◌else◌, length, take, codes, starts_with,
}
use meshias.State.{MshData, Statistics, stats_reset, send, emit}
use meshias.Route.{MshRoute}
use meshias.RoutingTable.{routing_table_foreach}
use meshias.Comm.Format.{get_statistics, RouteData, add_route_cb}
use meshias.Act.{Act, pure, gets, modify, ◌>>=◌, ◌>>◌, choose, when, if_found}

abbrev pub msg_help : List ℕ
msg_help = codes "help"

abbrev pub msg_quit : List ℕ
msg_quit = codes "quit"

abbrev pub msg_kill : List ℕ
msg_kill = codes "kill"

abbrev pub msg_restart : List ℕ
msg_restart = codes "restart"

abbrev pub msg_show_routes : List ℕ
msg_show_routes = codes "showroutes"

abbrev pub msg_show_statistics : List ℕ
msg_show_statistics = codes "showstatistics"

abbrev pub msg_clean_statistics : List ℕ
msg_clean_statistics = codes "cleanstatistics"

abbrev pub stats_size : ℕ
stats_size = 5000

-- The loop of `routing_table_foreach` with `add_route_cb`, whose `data` is local to `get_routes`.
unfoldable pub add_routes : (ℕ → MshRoute) → List ℕ → RouteData → RouteData
add_routes routes [] rd = rd
add_routes routes (p ∷ rest) rd = add_routes routes rest (add_route_cb (routes p) rd)

unfoldable pub get_routes : ℕ → MshData → RouteData
unfolding add_routes
get_routes bufsize s =
    add_routes s.routes s.routing_table
      (record { number = 0; size = bufsize; buf = []; past_end = false })

-- What `send_msg` hands to `send`, piece by piece, on fuel: each piece is 1024 bytes long, whatever is
-- left of the text.
unfoldable pub send_pieces : (fuel : ℕ) (buf : List ℕ) (sended size : ℕ) → Act MshData Unit
send_pieces zero buf sended size = pure tt
send_pieces (suc fuel) buf sended size =
    when (ltb sended size) do emit (send buf sended 1024); send_pieces fuel buf (sended + 1024) size

-- `size` rounds are more than enough.
unfoldable pub send_msg : List ℕ → ℕ → Act MshData Unit
unfolding send_pieces
send_msg buf size = send_pieces size buf 0 size

unfoldable pub set_end : Act MshData Unit
set_end s = (tt, record s { end = true })

unfoldable pub clear_stats : Act MshData Unit
clear_stats s = (tt, record s { stats = stats_reset })

-- "ACK" with its NUL
abbrev pub ack : List ℕ
ack = codes "ACK" ++ 0 ∷ []

-- The reply to a command, if it is one, and what the command changes.
unfoldable pub reply_to : List ℕ → Act MshData (Option (List ℕ))
unfolding set_end clear_stats
reply_to command =
    choose (starts_with msg_kill command) (do set_end; pure (some ack))
      (choose (starts_with msg_restart command) (pure (some ack)) (
        choose (starts_with msg_show_routes command)
          (gets (λ s. some (get_routes stats_size s).buf))
          (choose (starts_with msg_show_statistics command)
            (gets (λ s. some (get_statistics stats_size s.stats)))
            (choose (starts_with msg_clean_statistics command)
              (do clear_stats; gets (λ s. some (get_statistics stats_size s.stats))) (pure none)))))

unfoldable pub comm_interface_process_command : List ℕ → Act MshData Unit
unfolding reply_to send_msg
comm_interface_process_command command = do
  reply ← reply_to command
  if_found reply (λ tosend. send_msg tosend (length tosend)) (pure tt)

-- The text before the first NUL.
unfoldable pub c_string : List ℕ → List ℕ
c_string [] = []
c_string (c ∷ rest) = let more = c_string rest in if c == 0 then [] else c ∷ more

abbrev pub comm_bufsize : ℕ
comm_bufsize = 128

pub data CommResult : Type 0 where
  processed written_outside : CommResult

-- `received` is what `recv` gives, none where it returns -1. A NUL is written behind it, which is in
-- front of the buffer if there is nothing, and behind the buffer if it is full.
unfoldable pub comm_interface_receive_packets : Option (List ℕ) → Act MshData CommResult
unfolding comm_interface_process_command c_string
comm_interface_receive_packets none = pure written_outside
comm_interface_receive_packets (some received) =
    choose (ltb (length received) comm_bufsize)
      (do comm_interface_process_command (c_string received); pure processed) (pure written_outside)
