-- ===== src/Tests/Loop.antt =====
-- Runs of the theorems about the daemon's whole life.
use mathlib.Core.Option
use meshias.Base.{
  ◌≡◌, ◌≤◌, ◌+◌, refl, pos, true, All, none, some, List, [], ◌∷◌, ◌++◌, codes, starts_with, arith,
}
use meshias.State.{MshData, nf_drop}
use meshias.Comm.{c_string}
use meshias.PacketsFifo.Laws.{tally, settle, settled}
use meshias.Loop.{
  Ready, Select, timed_out, ready, nfq_packet, recvmsg_failed, main, main_loop, msh_data_shutdown,
}
use meshias.Loop.Startup.{InitCalls}
use meshias.Loop.Verdicts.{captured_times, main_verdicts}
use meshias.Loop.Always.{main_invariants}
use meshias.Loop.Searches.{main_requests}
use meshias.Loop.Words.{main_statistics}
use meshias.Alarm.{rreq_alarm, alarm_pending}
use meshias.Invariant.Requests.Queue.{DistinctPtr}
use meshias.Comm.{reply_to}
use meshias.Comm.Format.{statistics_fields}
use meshias.Comm.Readback.{read_line}
use meshias.Loop.Ending.{Kills, kill-main_loop}
use meshias.Loop.Shutdown.{shutdown_exact}
use meshias.Invariant.Table.{TableOk}
use meshias.Invariant.Alarms.{AlarmsOk}
use meshias.Act.{after, returned}
use meshias.Tests.{busy, noon, outgoing}

-- A start that goes well.
abbrev calls : InitCalls
calls = record {
  argc = 2;
  uid = 0;
  fds_allocated = true;
  nfq = record {
    nfq_open = true;
    unbind_pf = pos 0;
    bind_pf = pos 0;
    create_queue = true;
    set_mode = pos 0;
    fd = 4;
  };
  aodv = record { socket = pos 5; set_broadcast = pos 0; set_recvttl = pos 0; bind = pos 0 };
  comm = record { socket = pos 6; set_reuseaddr = pos 0; bind = pos 0; listen = pos 0 };
  link = some 3;
  local = 16777226;
  broadcast = 4294967050;
}

-- A packet to 12, and a failed reception.
abbrev traffic : Ready
traffic = record { nfqueue = some (nfq_packet outgoing); daemon = some recvmsg_failed; comm = none }

abbrev kill_command : Ready
kill_command = record { nfqueue = none; daemon = none; comm = some (some (codes "kill")) }

abbrev session : List Select
session = ready traffic ∷ timed_out ∷ ready kill_command ∷ []

abbrev unborn : MshData
unborn = record busy { alarms = [] }

main_verdicts_example :
    tally 9 (after (main calls session noon) unborn)
    ≤ settled 9 unborn.trace + captured_times 9 session
main_verdicts_example = main_verdicts 9 calls session noon unborn

main_invariants_example :
    TableOk (after (main calls session noon) unborn)
    × AlarmsOk (after (main calls session noon) unborn)
main_invariants_example = main_invariants calls session noon unborn refl

main_requests_example :
    All
      (λ e. alarm_pending (rreq_alarm e.ptr) (after (main calls session noon) unborn).alarms ≡ true)
      (after (main calls session noon) unborn).rreq_queue
    × DistinctPtr (after (main calls session noon) unborn).rreq_queue
main_requests_example = main_requests calls session noon unborn refl

main_statistics_example :
    Option.map
      (read_line 16)
      (returned (reply_to (codes "showstatistics")) (after (main calls session noon) unborn))
    ≡ some (some (statistics_fields (after (main calls session noon) unborn).stats))
unfolding starts_with
main_statistics_example =
    main_statistics calls session noon unborn (codes "showstatistics") (ground arith) refl

kill_command-Kills : Kills kill_command (codes "kill")
unfolding starts_with c_string
kill_command-Kills = record { arrives = refl; fits = ground arith; kill = refl }

kill-main_loop_example :
    (returned (main_loop (session ++ ready kill_command ∷ []) noon) busy ≡ true)
    × (main_loop ((session ++ ready kill_command ∷ []) ++ session) noon busy
        ≡ main_loop (session ++ ready kill_command ∷ []) noon busy)
kill-main_loop_example =
    kill-main_loop session session kill_command (codes "kill") noon busy kill_command-Kills

shutdown_exact_example :
    ((after msh_data_shutdown busy).packets_queue ≡ [])
    × ((after msh_data_shutdown busy).rreq_queue ≡ [])
    × ((after msh_data_shutdown busy).routing_table ≡ 1 ∷ [])
    × ((after msh_data_shutdown busy).trace ≡ settle nf_drop busy.packets_queue [])
shutdown_exact_example = shutdown_exact busy
