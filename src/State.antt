-- ===== src/State.antt =====
-- The daemon's global data: meshias_daemon/msh_data.h, meshias_daemon/statistics.h, the objects on
-- the C heap, and what the daemon exchanges with the kernel.
-- What system and library calls return is not the daemon's code: it is read from streams that the
-- state holds, one entry for each call. What the daemon asks of them is recorded in `trace`, the
-- newest event first.
use meshias.Base.{ℕ, ◌+◌, ◌==◌, Bool, Option, List, ◌∷◌, if◌then◌else◌, ℤ}
use meshias.Time.{Timeval, timeradd}
use meshias.Alarm.{Owner, route_alarm, AlarmBlock, add_alarm, del_alarm}
use meshias.Route.{MshRoute, msh_route_alloc}
use meshias.Act.{Act}

pub data Verdict : Type 0 where
  nf_drop nf_accept : Verdict

-- The attributes that `routing_table_add` gives to an object of libnl.
pub record RtnlRoute : Type 0 where
  pub oif : ℕ
  pub dst : ℕ
  pub dst_len : ℕ
  pub gateway : Option ℕ

-- A call of the kernel or of a library. `sendto` has the TTL, the raw address and the payload; `send`
-- has the text that the buffer begins with, and which part of the buffer is sent.
pub data Event : Type 0 where
  set_verdict : ℕ → Verdict → Event
  rtnl_route_add : ℕ → RtnlRoute → Event
  rtnl_route_del : ℕ → Event
  rtnl_route_set_gateway : ℕ → ℕ → ℕ → Event
  sendto : ℕ → ℕ → List ℕ → Event
  send : (buf : List ℕ) (offset length : ℕ) → Event

-- statistics.h
pub record Statistics : Type 0 where
  pub packets_dropped : ℕ
  pub no_address_received : ℕ
  pub no_payload_received : ℕ
  pub no_ttl_received : ℕ
  pub send_aodv_errors : ℕ
  pub send_aodv_incomplete : ℕ
  pub aodv_incorrect_type : ℕ
  pub rreq_incorrect_size : ℕ
  pub rrep_incorrect_size : ℕ
  pub rerr_incorrect_size : ℕ
  pub rrep_ack_incorrect_size : ℕ
  pub rerr_dest_cont_zero : ℕ
  pub error_aodv_recv : ℕ
  pub error_nfq_recv : ℕ
  pub error_unix_recv : ℕ
  pub invalid_route : ℕ

-- `stats_init` and `stats_reset`
abbrev pub stats_reset : Statistics
stats_reset = record {
  packets_dropped = 0;
  no_address_received = 0;
  no_payload_received = 0;
  no_ttl_received = 0;
  send_aodv_errors = 0;
  send_aodv_incomplete = 0;
  aodv_incorrect_type = 0;
  rreq_incorrect_size = 0;
  rrep_incorrect_size = 0;
  rerr_incorrect_size = 0;
  rrep_ack_incorrect_size = 0;
  rerr_dest_cont_zero = 0;
  error_aodv_recv = 0;
  error_nfq_recv = 0;
  error_unix_recv = 0;
  invalid_route = 0;
}

-- rreq_fifo.h; `ptr` is the entry's address, by which its alarm knows it.
pub record RreqEntry : Type 0 where
  pub ptr : ℕ
  pub rreq_id : ℕ
  pub dst : ℕ
  pub prev_tries : ℤ

-- packets_fifo.h
pub record PacketObj : Type 0 where
  pub id : ℕ
  pub dest : ℕ

-- msh_data.h. `routes` is the heap of route objects; `routing_table` holds the addresses on
-- `route_list`, from its head; addresses from `next_ptr` on are free. `freed_dst` is what the memory of
-- a freed route request holds in the place of its destination: the code reads it there.
pub record MshData : Type 0 where
  pub clock : ℕ → Timeval
  pub add_results : ℕ → ℤ
  pub send_results : ℕ → ℤ
  pub verdict_results : ℕ → ℤ
  pub freed_dst : ℕ → ℕ
  pub trace : List Event
  pub routes : ℕ → MshRoute
  pub next_ptr : ℕ
  pub alarms : List AlarmBlock
  pub routing_table : List ℕ
  pub rreq_queue : List RreqEntry
  pub packets_queue : List PacketObj
  pub net_iface : ℕ
  pub ip_addr : ℕ
  pub broadcast_addr : ℕ
  pub seq_num : ℕ
  pub rreq_id : ℕ
  pub num_rreq_sent : ℕ
  pub stats : Statistics
  pub end : Bool

-- Writing one cell of the heap.
abbrev pub put : (ℕ → MshRoute) → ℕ → MshRoute → ℕ → MshRoute
put heap p route q = if p == q then route else heap q

unfoldable pub route_at : ℕ → Act MshData MshRoute
route_at p s = (s.routes p, s)

unfoldable pub update_route : ℕ → (MshRoute → MshRoute) → Act MshData Unit
update_route p f s = (tt, record s { routes = put s.routes p (f (s.routes p)) })

-- `calloc` of an object that is no route
unfoldable pub new_ptr : Act MshData ℕ
new_ptr s = (s.next_ptr, record s { next_ptr = s.next_ptr + 1 })

-- `msh_route_alloc` where the object outlives the call
unfoldable pub new_route : Act MshData ℕ
new_route s = (
  s.next_ptr,
  record s { next_ptr = s.next_ptr + 1; routes = put s.routes s.next_ptr msh_route_alloc },
)

unfoldable pub gettimeofday : Act MshData Timeval
gettimeofday s = (s.clock 0, record s { clock = λ n. s.clock (n + 1) })

unfoldable pub emit : Event → Act MshData Unit
emit e s = (tt, record s { trace = e ∷ s.trace })

-- `nfq_set_verdict`
unfoldable pub nfq_set_verdict : ℕ → Verdict → Act MshData ℤ
nfq_set_verdict id v s = (
  s.verdict_results 0,
  record s { trace = set_verdict id v ∷ s.trace; verdict_results = λ n. s.verdict_results (n + 1) },
)

unfoldable pub bump : (Statistics → Statistics) → Act MshData Unit
bump f s = (tt, record s { stats = f s.stats })

-- The `tv` field of a route's alarm; the other blocks' times are read from the pending alarms only.
abbrev pub store_tv : Owner → Timeval → (ℕ → MshRoute) → ℕ → MshRoute
store_tv (route_alarm p) tv heap = put heap p (record (heap p) { alarm_tv = tv })
store_tv _ tv heap = heap

-- `add_alarm`
unfoldable pub set_alarm : Owner → Timeval → Act MshData Unit
set_alarm o delay s = (
  tt,
  record s {
    clock = λ n. s.clock (n + 1);
    alarms = add_alarm o delay (s.clock 0) s.alarms;
    routes = store_tv o (timeradd delay (s.clock 0)) s.routes;
  },
)

-- `del_alarm`
unfoldable pub clear_alarm : Owner → Act MshData Unit
clear_alarm o s = (tt, record s { alarms = del_alarm o s.alarms })
