-- ===== src/Tests.antt =====
-- Runs of the theorems at concrete states of the daemon.
mod Alarms
mod Requests
mod Tables
mod Loop
mod Comm
mod Client
mod Wire
mod Retries
mod Release
use meshias.Base.{◌≡◌, refl, false, none, some, List, [], ◌∷◌, pos, arith, ◌+◌}
use meshias.Time.{Timeval, timer_lt, zero_time, timersub, set_alarm_time, get_alarm_time}
use meshias.Time.Laws.{usecs, usecs-timersub, get_alarm_time-set_alarm_time}
use meshias.Config.{expanding_ring_search_ttl}
use meshias.Alarm.{route_alarm, rreq_alarm, flush_alarm, AlarmBlock, add_alarm, run_queue}
use meshias.Alarm.Order.{IsOrdered, PendingOnce, count, count-add_alarm, run_queue-due}
use meshias.Route.{MshRoute, msh_route_alloc}
use meshias.State.{MshData, stats_reset, set_verdict, nf_accept, nf_drop}
use meshias.PacketsFifo.{packets_fifo_process_route, packets_fifo_drop_packets, serves}
use meshias.PacketsFifo.Laws.{
  unpicked, picked, settle, tally, process_route_exact, drop_packets_exact, tally-process_route,
  tally-drop_packets,
}
use meshias.RoutingTable.{routing_table_find_by_ip, routing_table_del, returns}
use meshias.RoutingTable.Find.{find_by_ip-first_to, routing_table_del_exact}
use meshias.Packet.{
  AodvPkt, AodvRreq, AodvRrep, aodv_pkt_prepare_rreq, aodv_pkt_prepare_rrep, put_rreq, put_rrep,
}
use meshias.Packet.Check.{aodv_pkt_check}
use meshias.Packet.Codec.{RreqFits, RrepFits, check-prepared_rreq, check-prepared_rrep}
use meshias.Act.{after}
use meshias.Nfqueue.{NfqData, manage_packet}
use meshias.Daemon.{here, next, captured, alarmed, do_alarm_run}
use meshias.Invariant.Packets.{tally-process_packet, tally-alarm_run}
use meshias.Invariant.Table.{TableOk}
use meshias.Invariant.Table.Always.{Reach-TableOk, Reach-find}
use meshias.Invariant.Types.{Reach-no_incorrect_type}
use meshias.Logic.Reply.{aodv_answer_to_rreq}
use meshias.Logic.Receive.{aodv_process_packet}
use meshias.Logic.Answers.{own_reply, answer_to_rreq-trace}
use meshias.Nfqueue.{manage_output_packet, nfqueue_packet_get_dest}
use meshias.Nfqueue.Fate.{fate, with_fate, manage_packet-fate}
use meshias.Nfqueue.Verdicts.{
  settled_and_waiting, with_accepted, with_waiting, way_known, manage_output_packet-sees,
}
use meshias.Word.{htonl}
use meshias.State.{sendto}
use meshias.Packet.{default_ttl}
use meshias.Packet.Check.{Msghdr}
use meshias.Daemon.{received, Reach}
use meshias.Base.{◌==◌, ◌≤◌, if◌then◌else◌}
use meshias.Invariant.Alarms.{AlarmsOk}

abbrev pub noon : Timeval
noon = record { tv_sec = 100; tv_usec = 0 }

-- A route to 10, in the cell 1 of the heap.
abbrev to_ten : MshRoute
to_ten = record msh_route_alloc { dst_ip = 10; flags = 2; next_hop = 10 }

-- One route, one pending alarm, and two waiting packets.
abbrev pub busy : MshData
busy = record {
  clock = λ n. record { tv_sec = 200 + n; tv_usec = 0 };
  add_results = λ n. pos 0;
  send_results = λ n. pos 24;
  verdict_results = λ n. pos 0;
  freed_dst = λ p. 10;
  trace = [];
  routes = λ p. to_ten;
  next_ptr = 5;
  alarms = record { tv = noon; owner = flush_alarm } ∷ [];
  routing_table = 1 ∷ [];
  rreq_queue = [];
  packets_queue = record { id = 7; dest = 10 } ∷ record { id = 8; dest = 11 } ∷ [];
  net_iface = 3;
  ip_addr = 1;
  broadcast_addr = 255;
  seq_num = 4;
  rreq_id = 6;
  num_rreq_sent = 0;
  stats = stats_reset;
  end = false;
}

abbrev two_alarms : List AlarmBlock
two_alarms =
    record { tv = noon; owner = flush_alarm }
    ∷ record { tv = record { tv_sec = 300; tv_usec = 5 }; owner = route_alarm 1 }
    ∷ []

two_alarms-IsOrdered : IsOrdered two_alarms
unfolding timer_lt
two_alarms-IsOrdered = ((refl, tt), (tt, tt))

one_alarm-PendingOnce : PendingOnce busy.alarms
one_alarm-PendingOnce (route_alarm p) = ground arith
one_alarm-PendingOnce (rreq_alarm p) = ground arith
one_alarm-PendingOnce flush_alarm = ground arith

two_alarms-PendingOnce : PendingOnce two_alarms
two_alarms-PendingOnce (route_alarm p) = ground arith
two_alarms-PendingOnce (rreq_alarm p) = ground arith
two_alarms-PendingOnce flush_alarm = ground arith

busy-AlarmsOk : AlarmsOk busy
busy-AlarmsOk = record { ordered = (tt, tt); once = one_alarm-PendingOnce }

-- A packet to 12, to which no route is known.
abbrev pub outgoing : NfqData
outgoing = record {
  packet_hdr = some (record { packet_id = 9; hook = 3 });
  iphdr = some (record { protocol = 6; saddr = 1; daddr = 12 });
  udp_dest = none;
  uninit = 0;
}

process_route_exact_example :
    ((after (packets_fifo_process_route 1) busy).packets_queue
      ≡ unpicked (serves (busy.routes 1)) busy.packets_queue)
    × ((after (packets_fifo_process_route 1) busy).trace
        ≡ settle nf_accept (picked (serves (busy.routes 1)) busy.packets_queue) busy.trace)
process_route_exact_example = process_route_exact 1 busy

find_by_ip-first_to_example : routing_table_find_by_ip 10 busy ≡ some 1
find_by_ip-first_to_example = find_by_ip-first_to 10 busy (refl, tt)

routing_table_del_exact_example : routing_table_del 1 busy ≡ (returns (pos 1), busy)
routing_table_del_exact_example = routing_table_del_exact 1 busy

abbrev pub request : AodvRreq
request = record {
  type = 1;
  reserved2 = 0;
  flags = 4;
  reserved = 0;
  hop_count = 2;
  rreq_id = 77;
  dest_ip_addr = 167772161;
  dest_seq_num = 5;
  orig_ip_addr = 167772162;
  orig_seq_num = 9;
}

abbrev reply : AodvRrep
reply = record {
  type = 2;
  reserved2 = 0;
  flags = 0;
  prefix_sz = 0;
  reserved = 0;
  hop_count = 1;
  dest_ip_addr = 167772161;
  dest_seq_num = 5;
  orig_ip_addr = 167772162;
  lifetime = 6000;
}

request-RreqFits : RreqFits request
request-RreqFits = record {
  reserved2 = omega arith;
  rreq_id = omega arith;
  dest_ip_addr = omega arith;
  dest_seq_num = omega arith;
  orig_ip_addr = omega arith;
  orig_seq_num = omega arith;
}

reply-RrepFits : RrepFits reply
reply-RrepFits = record {
  reserved2 = omega arith;
  prefix_sz = omega arith;
  dest_ip_addr = omega arith;
  dest_seq_num = omega arith;
  orig_ip_addr = omega arith;
  lifetime = omega arith;
}

abbrev pub blank : AodvPkt
blank = record { payload = []; address = 12; ttl = 3; stray = 0 }

check-prepared_rreq_example :
    aodv_pkt_check (record blank { payload = put_rreq (aodv_pkt_prepare_rreq request) [] }) busy
    ≡ (some (record blank { payload = put_rreq request [] }), busy)
check-prepared_rreq_example = check-prepared_rreq request [] blank busy refl request-RreqFits

check-prepared_rrep_example :
    aodv_pkt_check (record blank { payload = put_rrep (aodv_pkt_prepare_rrep reply) [] }) busy
    ≡ (some (record blank { payload = put_rrep reply [] }), busy)
check-prepared_rrep_example = check-prepared_rrep reply [] blank busy refl reply-RrepFits

run_queue-due_example :
    run_queue (record { tv_sec = 200; tv_usec = 0 }) two_alarms [] ≡ flush_alarm ∷ []
unfolding timer_lt
run_queue-due_example =
    run_queue-due (record { tv_sec = 200; tv_usec = 0 }) two_alarms two_alarms-IsOrdered

usecs-timersub_example :
    usecs (timersub noon (record { tv_sec = 99; tv_usec = 400 }))
      + usecs (record { tv_sec = 99; tv_usec = 400 })
    ≡ usecs noon
usecs-timersub_example =
    usecs-timersub noon (record { tv_sec = 99; tv_usec = 400 }) (omega arith) (omega arith)
      (omega arith) (omega arith)

pub busy-TableOk : TableOk busy
busy-TableOk = record { host = (refl, tt); distinct = (tt, tt); allocated = (omega arith, tt) }

-- A message of 24 bytes from the address 12, of a type that does not exist.
abbrev strange : Msghdr
strange = record {
  msg_namelen = 16;
  msg_name = 12;
  msg_iovlen = 1;
  iov_base = 9 ∷ 0 ∷ 0 ∷ 0 ∷ [];
  msg_controllen = 0;
  msg_control = [];
}

Reach-no_incorrect_type_example :
    (after (aodv_process_packet strange 4 0) busy).stats.aodv_incorrect_type ≡ 0
Reach-no_incorrect_type_example = Reach-no_incorrect_type (next here (received strange 4 0))

-- A request for this node.
abbrev for_us : AodvRreq
for_us = record request { dest_ip_addr = 1 }

manage_packet-fate_example :
    settled_and_waiting (after (manage_packet outgoing) busy)
    ≡ with_fate (fate outgoing busy) outgoing (settled_and_waiting busy)
manage_packet-fate_example = manage_packet-fate outgoing busy

alarm_run-table : (after do_alarm_run busy).routing_table ≡ 1 ∷ []
unfolding do_alarm_run meshias.Act.◌>>=◌ meshias.State.gettimeofday run_queue timer_lt
    meshias.State.set_alarm meshias.State.clear_alarm
alarm_run-table = refl

Reach-find_example :
    routing_table_find_by_ip ((after do_alarm_run busy).routes 1).dst_ip (after do_alarm_run busy)
    ≡ some 1
Reach-find_example = Reach-find (next here alarmed) [] [] 1 busy-TableOk alarm_run-table
