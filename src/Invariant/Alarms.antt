-- ===== src/Invariant/Alarms.antt =====
-- The pending alarms stay ordered, and no alarm is pending twice, whatever the daemon does.
use meshias.Base.{ℕ, List, ◌≡◌, refl}
use meshias.Time.{Timeval}
use meshias.Alarm.{Owner}
use meshias.Alarm.Order.{
  IsOrdered, PendingOnce, add_alarm-IsOrdered, add_alarm-PendingOnce, del_alarm-IsOrdered,
  del_alarm-PendingOnce,
}
use meshias.Route.Ops.{unlink}
use meshias.State.{
  MshData, Verdict, PacketObj, update_route, emit, new_ptr, new_route, nfq_set_verdict, bump,
  set_alarm, clear_alarm, gettimeofday,
}
use meshias.PacketsFifo.{count_dropped, packets_fifo_push, set_packets}
use meshias.RreqFifo
use meshias.RoutingTable
use meshias.RoutingTable.{add_to_kernel}
use meshias.Packet.Check.{send_bytes}
use meshias.Logic.Discovery.{next_rreq, count_rreq_sent, update_entry}
use meshias.Logic.Reply.{renew_seq_num}
use meshias.Daemon.{reset_rreq_sent}
use meshias.Act.{Act}
use meshias.Invariant.Basics.{Basics, process_route-Keeps, drop_packets-Keeps}
use meshias.Act.Keeps.{Keeps}

pub record AlarmsOk (s : MshData) : Type 0 where
  pub ordered : IsOrdered s.alarms
  pub once : PendingOnce s.alarms

set_alarm-AlarmsOk : (o : Owner) (delay : Timeval) → Keeps AlarmsOk (set_alarm o delay)
unfolding set_alarm
set_alarm-AlarmsOk o delay = record {
  at = λ s h. record {
    ordered = add_alarm-IsOrdered o delay (s.clock 0) s.alarms h.ordered;
    once = add_alarm-PendingOnce o delay (s.clock 0) s.alarms h.once;
  };
}

clear_alarm-AlarmsOk : (o : Owner) → Keeps AlarmsOk (clear_alarm o)
unfolding clear_alarm
clear_alarm-AlarmsOk o = record {
  at = λ s h. record {
    ordered = del_alarm-IsOrdered o s.alarms h.ordered;
    once = del_alarm-PendingOnce o s.alarms h.once;
  };
}

-- A step that leaves the alarms alone.
module _ {A : Type 0} where
  pub unchanged :
      (m : Act MshData A) → ((s : MshData) → (m s).1.alarms ≡ s.alarms) → Keeps AlarmsOk m
  unchanged m e = record { at = λ s h. record { ordered = rw e h.ordered; once = rw e h.once } }

pub verdict_kept : (id : ℕ) (v : Verdict) → Keeps AlarmsOk (nfq_set_verdict id v)
unfolding nfq_set_verdict
verdict_kept id v = unchanged _ λ s. refl

pub dropped_kept : Keeps AlarmsOk (bump count_dropped)
unfolding bump
dropped_kept = unchanged _ λ s. refl

pub packets_kept : (queue : List PacketObj) → Keeps AlarmsOk (set_packets queue)
unfolding set_packets
packets_kept queue = unchanged _ λ s. refl

pub push_kept : (id dest : ℕ) → Keeps AlarmsOk (packets_fifo_push id dest)
unfolding packets_fifo_push
push_kept id dest = unchanged _ λ s. refl

pub AlarmsOk-Basics : Basics AlarmsOk
unfolding update_route new_ptr new_route gettimeofday emit nfq_set_verdict bump unlink
    RoutingTable.list_add add_to_kernel send_bytes next_rreq count_rreq_sent reset_rreq_sent
    renew_seq_num packets_fifo_push set_packets RreqFifo.list_add RreqFifo.list_del update_entry
AlarmsOk-Basics = record {
  write = λ p f. unchanged _ λ s. refl;
  new_address = unchanged _ λ s. refl;
  allocate = unchanged _ λ s. refl;
  clock = unchanged _ λ s. refl;
  kernel_del = λ n. unchanged _ λ s. refl;
  kernel_gateway = λ n ip len. unchanged _ λ s. refl;
  count = λ f _. unchanged _ λ s. refl;
  alarm = set_alarm-AlarmsOk;
  no_alarm = clear_alarm-AlarmsOk;
  remove = λ p. unchanged _ λ s. refl;
  link = λ p. unchanged _ λ s. refl;
  kernel = λ n r. unchanged _ λ s. refl;
  send = λ pkt. unchanged _ λ s. refl;
  request = unchanged _ λ s. refl;
  request_count = unchanged _ λ s. refl;
  request_reset = unchanged _ λ s. refl;
  renew = λ n. unchanged _ λ s. refl;
  process_route = process_route-Keeps verdict_kept dropped_kept packets_kept;
  drop_packets = drop_packets-Keeps verdict_kept dropped_kept packets_kept;
  entry_add = λ e. unchanged _ λ s. refl;
  entry_del = λ p. unchanged _ λ s. refl;
  entry = λ p f. unchanged _ λ s. refl;
}
