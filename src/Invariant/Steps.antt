-- ===== src/Invariant/Steps.antt =====
-- The steps of the handlers, as hypotheses on a property of the state.
use meshias.Base.{ℕ, ◌≡◌, ◌<◌, pos, All}
use meshias.Word.{u32_mod}
use meshias.Comm.Format.{statistics_counters}
use meshias.Time.{Timeval}
use meshias.Alarm.{Owner, route_alarm, rreq_alarm, flush_alarm}
use meshias.Route.{MshRoute}
use meshias.Route.Ops.{unlink}
use meshias.State.{
  MshData, rtnl_route_del, rtnl_route_set_gateway, Statistics, update_route, gettimeofday, emit,
  bump, set_alarm, clear_alarm,
}
use meshias.RreqFifo.{rreq_fifo_entry_delete, rreq_fifo_push, rreq_fifo_push_owned}
use meshias.Packet.{AodvPkt, AodvRreq, AodvRrep}
use meshias.Packet.Check.{send_bytes}
use meshias.Logic.Discovery.{next_rreq, count_rreq_sent, rreq_fifo_alarm_cb}
use meshias.Logic.Reply.{renew_seq_num}
use meshias.Logic.Rreq
use meshias.Logic.Rrep
use meshias.Daemon.{reset_rreq_sent}
use meshias.Act.{Act, ◌>>◌}
use meshias.Act.Keeps.{Keeps}

-- A change of a route that leaves alone what the routing table is searched by.
pub record KeepsKey (f : MshRoute → MshRoute) : Type 0 where
  pub dst_ip : (r : MshRoute) → (f r).dst_ip ≡ r.dst_ip
  pub prefix_sz : (r : MshRoute) → (f r).prefix_sz ≡ r.prefix_sz

-- The counters of the statistics are words of 32 bits.
abbrev pub CountersFit : Statistics → Type 0
CountersFit st = All (λ x. x < u32_mod) (statistics_counters st)

-- A change of the counters other than `aodv_incorrect_type`, within their width.
pub record Counts (f : Statistics → Statistics) : Type 0 where
  pub at : (st : Statistics) → (f st).aodv_incorrect_type ≡ st.aodv_incorrect_type
  pub fits : (st : Statistics) → CountersFit st → CountersFit (f st)

-- The steps outside the alarm of a route request and the handling of a captured packet.
pub record Steps (P : MshData → Type 0) : Type 0 where
  pub write : (p : ℕ) (f : MshRoute → MshRoute) → KeepsKey f → Keeps P (update_route p f)
  pub clock : Keeps P gettimeofday
  pub kernel_del : (n : ℕ) → Keeps P (emit (rtnl_route_del n))
  pub kernel_gateway : (n ip len : ℕ) → Keeps P (emit (rtnl_route_set_gateway n ip len))
  pub count : (f : Statistics → Statistics) → Counts f → Keeps P (bump f)
  pub alarm : (o : Owner) (delay : Timeval) → Keeps P (set_alarm o delay)
  pub no_route_alarm : (p : ℕ) → Keeps P (clear_alarm (route_alarm p))
  pub no_flush_alarm : Keeps P (clear_alarm flush_alarm)
  pub remove : (p : ℕ) → Keeps P (unlink p)
  pub send : (pkt : AodvPkt) → Keeps P (send_bytes pkt)
  pub request : Keeps P next_rreq
  pub request_count : Keeps P count_rreq_sent
  pub request_reset : Keeps P reset_rreq_sent
  pub renew : (n : ℕ) → Keeps P (renew_seq_num n)
  pub push : (rreq_id dst : ℕ) → Keeps P (rreq_fifo_push rreq_id dst)
  pub push_owned : (rreq_id dst : ℕ) → Keeps P (rreq_fifo_push_owned rreq_id dst (pos 0))
  pub delete_entry : (p : ℕ) → Keeps P (rreq_fifo_entry_delete p)
  pub add_prev_hop : (prev_hop : ℕ) → Keeps P (Rreq.add_prev_hop prev_hop)
  pub add_orig : (prev_hop : ℕ) (rreq : AodvRreq) (l : ℕ) → Keeps P (Rreq.add_orig prev_hop rreq l)
  pub create_prev_hop : (prev_hop : ℕ) → Keeps P (Rrep.create_prev_hop prev_hop)
  pub create_dest : (prev_hop : ℕ) (rrep : AodvRrep) → Keeps P (Rrep.create_dest prev_hop rrep)

-- The alarm of a request runs out: it is not pending any more when its callback runs.
abbrev pub expiry : ℕ → Act MshData Unit
expiry p = do clear_alarm (rreq_alarm p); rreq_fifo_alarm_cb p
