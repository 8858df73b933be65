-- ===== src/Invariant/Reach.antt =====
-- A property that the steps keep holds in every state that the daemon reaches.
use meshias.Base.{arith, ℕ, refl, List, [], ◌∷◌}
use meshias.Alarm.{Owner, route_alarm, rreq_alarm, flush_alarm}
use meshias.State.{MshData, Verdict, RreqEntry, gettimeofday, bump, clear_alarm, nfq_set_verdict}
use meshias.PacketsFifo.{packets_fifo_push, packets_fifo_drop_packets, count_dropped}
use meshias.Packet.{AodvPkt}
use meshias.Packet.Check.{Msghdr}
use meshias.Logic.Discovery.{update_entry, give_up, try_again, rreq_fifo_alarm_cb}
use meshias.Logic.Receive.{process_checked, aodv_process_packet, count_incorrect_type, dispatch}
use meshias.Nfqueue.{
  NfqData, accept, hold, manage_output_packet, manage_input_packet, manage_forward_packet,
  manage_packet,
}
use meshias.Daemon.{
  reset_rreq_sent, process_wait_queue_cb, alarm_function, run_alarms, do_alarm_run, Step, captured,
  received, alarmed, Reach, here, next,
}
use meshias.Act.{◌>>=◌, ◌>>◌, after}
use meshias.Act.Keeps.{Keeps, Keeps-bind, keeps_rules}
use meshias.Invariant.Steps.{Steps, Counts, expiry}
use meshias.Invariant.Handlers.{update_route-Keeps, alarm_cb-Keeps}
use meshias.Invariant.Messages.{get-Keeps, check-Keeps, rreq-Keeps, rrep-Keeps, find_route-Keeps}

dropped : Counts count_dropped
dropped = record { at = λ st. refl; fits = λ st h. ground (arith, h) }

-- The alarm of a request, for a property that does not look at the entries' fields.
module _ {P : MshData → Type 0} (steps : Steps P)
    (no_alarm : (p : ℕ) → Keeps P (clear_alarm (rreq_alarm p)))
    (entry : (p : ℕ) (f : RreqEntry → RreqEntry) → Keeps P (update_entry p f))
    (drop : (dest : ℕ) → Keeps P (packets_fifo_drop_packets dest)) where
  give_up-Keeps : (e : RreqEntry) → Keeps P (give_up e)
  unfolding give_up
  give_up-Keeps e = search (keeps_rules, steps.delete_entry, drop, steps.count, dropped) depth 20

  try_again-Keeps : (e : RreqEntry) (n : ℕ) → Keeps P (try_again e n)
  unfolding try_again
  try_again-Keeps e n =
      search (keeps_rules, update_route-Keeps steps, steps.alarm, find_route-Keeps steps, entry)
        depth 20

  callback-Keeps : (p : ℕ) → Keeps P (rreq_fifo_alarm_cb p)
  unfolding rreq_fifo_alarm_cb
  callback-Keeps p =
      search (keeps_rules, steps.delete_entry, entry, give_up-Keeps, try_again-Keeps) depth 20

  pub rreq_alarm-Keeps : (p : ℕ) → Keeps P (expiry p)
  rreq_alarm-Keeps p = Keeps-bind _ _ (no_alarm p) λ _. callback-Keeps p

module _ {P : MshData → Type 0} (steps : Steps P)
    (verdict : (id : ℕ) (v : Verdict) → Keeps P (nfq_set_verdict id v))
    (packet : (id dest : ℕ) → Keeps P (packets_fifo_push id dest)) where
  hold-Keeps : (id dest : ℕ) → Keeps P (hold id dest)
  unfolding hold
  hold-Keeps id dest = search (keeps_rules, packet, find_route-Keeps steps) depth 20

  output-Keeps : (nfa : NfqData) → Keeps P (manage_output_packet nfa)
  unfolding manage_output_packet
  output-Keeps nfa = search (keeps_rules, verdict, update_route-Keeps steps, hold-Keeps) depth 20

  input-Keeps : (nfa : NfqData) → Keeps P (manage_input_packet nfa)
  unfolding manage_input_packet
  input-Keeps nfa = search (keeps_rules, verdict, update_route-Keeps steps) depth 20

  forward-Keeps : (nfa : NfqData) → Keeps P (manage_forward_packet nfa)
  unfolding manage_forward_packet
  forward-Keeps nfa = search (keeps_rules, verdict, update_route-Keeps steps) depth 20

  accept-Keeps : (nfa : NfqData) → Keeps P (accept nfa)
  unfolding accept
  accept-Keeps nfa = verdict _ _

  pub manage_packet-Keeps : (nfa : NfqData) → Keeps P (manage_packet nfa)
  unfolding manage_packet
  manage_packet-Keeps nfa =
      search (keeps_rules, accept-Keeps, output-Keeps, input-Keeps, forward-Keeps) depth 20

-- A run of the alarms.
module _ {P : MshData → Type 0} (steps : Steps P) (retry : (p : ℕ) → Keeps P (expiry p)) where
  now-Keeps : Keeps P gettimeofday
  now-Keeps = steps.clock

  reset-Keeps : Keeps P reset_rreq_sent
  reset-Keeps = steps.request_reset

  flush_kept : Keeps P process_wait_queue_cb
  unfolding process_wait_queue_cb
  flush_kept = search (keeps_rules, reset-Keeps, steps.alarm) depth 20

  -- One alarm, which is taken out of the tree first.
  run-Keeps : (o : Owner) → Keeps P (do clear_alarm o; alarm_function o)
  unfolding alarm_function
  run-Keeps (route_alarm p) = Keeps-bind _ _ (steps.no_route_alarm p) λ _. alarm_cb-Keeps steps p
  run-Keeps (rreq_alarm p) = retry p
  run-Keeps flush_alarm = Keeps-bind _ _ steps.no_flush_alarm λ _. flush_kept

  alarms-Keeps : (queue : List Owner) → Keeps P (run_alarms queue)
  unfolding run_alarms ◌>>=◌
  alarms-Keeps [] = record { at = λ s h. h }
  alarms-Keeps (o ∷ rest) = record {
    at = λ s h.
        (alarms-Keeps rest).at (after (do clear_alarm o; alarm_function o) s)
          ((run-Keeps o).at s h);
  }

  pub alarm_run-Keeps : Keeps P do_alarm_run
  unfolding do_alarm_run
  alarm_run-Keeps = search (keeps_rules, now-Keeps, alarms-Keeps) depth 20

-- The steps, and with them what they do not cover.
module _ {P : MshData → Type 0} (steps : Steps P)
    (captured_kept : (nfa : NfqData) → Keeps P (manage_packet nfa))
    (retry : (p : ℕ) → Keeps P (expiry p))
    (message : (msg : Msghdr) (n stray : ℕ) → Keeps P (aodv_process_packet msg n stray)) where
  pub Step-Keeps : {s t : MshData} → Step s t → P s → P t
  Step-Keeps {s} (captured packet) h = (captured_kept packet).at s h
  Step-Keeps {s} (received msg n stray) h = (message msg n stray).at s h
  Step-Keeps {s} alarmed h = (alarm_run-Keeps steps retry).at s h

  pub Reach-Keeps : {s t : MshData} → Reach s t → P s → P t
  Reach-Keeps here h = h
  Reach-Keeps (next r st) h = Step-Keeps st (Reach-Keeps r h)

module _ {P : MshData → Type 0} (steps : Steps P)
    (other_type : Keeps P (bump count_incorrect_type)) where
  dispatch-Keeps : (pkt : AodvPkt) → Keeps P (dispatch pkt)
  unfolding dispatch
  dispatch-Keeps pkt = search (keeps_rules, rreq-Keeps steps, rrep-Keeps steps) depth 20

  checked-Keeps : (pkt : AodvPkt) → Keeps P (process_checked pkt)
  unfolding process_checked
  checked-Keeps pkt = search (keeps_rules, dispatch-Keeps) depth 20

  pub message-Keeps : (msg : Msghdr) (n stray : ℕ) → Keeps P (aodv_process_packet msg n stray)
  unfolding aodv_process_packet
  message-Keeps msg n stray =
      search (keeps_rules, get-Keeps steps, check-Keeps steps, checked-Keeps) depth 20
