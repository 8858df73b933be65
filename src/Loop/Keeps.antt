-- ===== src/Loop/Keeps.antt =====
-- A property that the steps and the commands keep is kept by the main loop.
use meshias.Base.{arith, ℕ, refl, Option, none, some, List, [], ◌∷◌}
use meshias.Time.{Timeval}
use meshias.State.{MshData, gettimeofday}
use meshias.Packet.Check.{Msghdr}
use meshias.Logic.Receive.{aodv_process_packet}
use meshias.Nfqueue.{NfqData, manage_packet}
use meshias.Comm.{comm_interface_process_command, comm_interface_receive_packets}
use meshias.Daemon.{process_alarms, do_alarm_run}
use meshias.Loop.{
  NfqRead, AodvRead, nfq_failed, nfq_nothing, nfq_packet, recvmsg_failed, recvmsg_message, Ready,
  Select, timed_out, ready, count_nfq_recv, count_aodv_recv, nfqueue_receive_packet,
  aodv_socket_receive_packet, look_ahead, wake, receive, turn, main_loop,
}
use meshias.Act.Keeps.{Keeps, keeps_rules}
use meshias.Invariant.Steps.{Steps, expiry, Counts}
use meshias.Invariant.Reach.{alarm_run-Keeps}

nfq_counted : Counts count_nfq_recv
nfq_counted = record { at = λ st. refl; fits = λ st h. ground (arith, h) }

aodv_counted : Counts count_aodv_recv
aodv_counted = record { at = λ st. refl; fits = λ st h. ground (arith, h) }

module _ {P : MshData → Type 0} (steps : Steps P) (retry : (p : ℕ) → Keeps P (expiry p))
    (message : (msg : Msghdr) (n stray : ℕ) → Keeps P (aodv_process_packet msg n stray))
    (command : (c : List ℕ) → Keeps P (comm_interface_process_command c)) where
  clock_kept : Keeps P gettimeofday
  clock_kept = steps.clock

  pub message-Keeps : (read : AodvRead) → Keeps P (aodv_socket_receive_packet read)
  unfolding aodv_socket_receive_packet
  message-Keeps recvmsg_failed = steps.count _ aodv_counted
  message-Keeps (recvmsg_message msg n stray) = message msg n stray

  pub comm-Keeps : (received : Option (List ℕ)) → Keeps P (comm_interface_receive_packets received)
  unfolding comm_interface_receive_packets
  comm-Keeps none = search keeps_rules
  comm-Keeps (some text) = search (keeps_rules, command) depth 10

  pub look_ahead-Keeps : (next : Timeval) → Keeps P (look_ahead next)
  unfolding look_ahead
  look_ahead-Keeps next = search (keeps_rules, clock_kept) depth 20

  run_kept : Keeps P do_alarm_run
  run_kept = alarm_run-Keeps steps retry

  alarms-Keeps : (next : Option Timeval) → Keeps P (process_alarms next)
  unfolding process_alarms
  alarms-Keeps none = search keeps_rules
  alarms-Keeps (some time) = search (keeps_rules, run_kept) depth 10

  pub wake-Keeps : (next : Timeval) → Keeps P (wake next)
  unfolding wake
  wake-Keeps next = search (keeps_rules, look_ahead-Keeps, alarms-Keeps) depth 20

module _ {P : MshData → Type 0} (steps : Steps P)
    (captured_kept : (nfa : NfqData) → Keeps P (manage_packet nfa))
    (retry : (p : ℕ) → Keeps P (expiry p))
    (message : (msg : Msghdr) (n stray : ℕ) → Keeps P (aodv_process_packet msg n stray))
    (command : (c : List ℕ) → Keeps P (comm_interface_process_command c)) where
  packet-Keeps : (read : NfqRead) → Keeps P (nfqueue_receive_packet read)
  unfolding nfqueue_receive_packet
  packet-Keeps nfq_failed = steps.count _ nfq_counted
  packet-Keeps nfq_nothing = search keeps_rules
  packet-Keeps (nfq_packet packet) = search (keeps_rules, captured_kept) depth 10

  receive-Keeps : (r : Ready) → Keeps P (receive r)
  unfolding receive
  receive-Keeps r =
      search
        (
          keeps_rules,
          packet-Keeps,
          message-Keeps steps retry message command,
          comm-Keeps steps retry message command,
        )
        depth 20

  pub turn-Keeps : (report : Select) (next : Timeval) → Keeps P (turn report next)
  unfolding turn
  turn-Keeps timed_out next = wake-Keeps steps retry message command next
  turn-Keeps (ready r) next =
      search
        (
          keeps_rules,
          receive-Keeps,
          look_ahead-Keeps steps retry message command,
          wake-Keeps steps retry message command,
        )
        depth 20

  pub main_loop-Keeps : (reports : List Select) (next : Timeval) → Keeps P (main_loop reports next)
  unfolding main_loop
  main_loop-Keeps [] next = search keeps_rules
  main_loop-Keeps (report ∷ reports) next =
      search (keeps_rules, turn-Keeps, main_loop-Keeps reports) depth 20
