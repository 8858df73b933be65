-- ===== src/Tests/Comm.antt =====
-- Runs of the theorems about the control socket and its client.
use meshias.Base.{◌≡◌, ◌+◌, ◌/◌, refl, true, false, leb, [], codes, starts_with, length, arith}
use meshias.State.{Statistics, stats_reset}
use meshias.Comm.{stats_size, get_routes, send_pieces, comm_interface_process_command, reply_to}
use meshias.Comm.Bounds.{lines_of, get_routes_exact, get_routes-fits}
use meshias.Comm.Sending.{pieces_sent, send_pieces-enough}
use meshias.Comm.Commands.{commanded, replied, process_command-commanded}
use meshias.Tools.{commands, expand, check_command, among, is_help_command, is_quit_command}
use meshias.Tools.Answers.{is_some, reply_to-expand}
use meshias.Act.{after, returned}
use meshias.Tests.{busy}

process_command-commanded_example :
    after (comm_interface_process_command (codes "kill")) busy
    ≡ record (commanded (codes "kill") busy) {
      trace = replied (returned (reply_to (codes "kill")) busy) [];
    }
process_command-commanded_example = process_command-commanded (codes "kill") busy

send_pieces-enough_example :
    after (send_pieces 9 (codes "ACK") 0 3) busy
    ≡ record busy { trace = pieces_sent (codes "ACK") ((3 + 1023) / 1024) 0 [] }
send_pieces-enough_example = send_pieces-enough 9 (codes "ACK") 3 busy (ground arith)

abbrev counted : Statistics
counted = record stats_reset { packets_dropped = 4294967295; invalid_route = 12 }

get_routes_exact_example :
    ((get_routes stats_size busy).buf ≡ lines_of busy.routes busy.routing_table)
    × ((get_routes stats_size busy).past_end
        ≡ leb 5000 (length (lines_of busy.routes busy.routing_table)))
get_routes_exact_example = get_routes_exact busy

get_routes-fits_example : (get_routes stats_size busy).past_end ≡ false
get_routes-fits_example = get_routes-fits busy (ground arith)

-- `4` is short for `showroutes`.
reply_to-expand_example : is_some (returned (reply_to (expand commands (codes "4"))) busy) ≡ true
unfolding check_command among is_help_command is_quit_command starts_with
reply_to-expand_example = reply_to-expand (codes "4") busy refl refl refl
