-- ===== src/Invariant/Basics.antt =====
-- Properties that look neither at the search key of a route nor at the entries of the queues: the
-- single writes keep them, and so every step does.
use meshias.Act.{Act}
use meshias.Base.{ℕ, ℤ, pos, List, [], ◌∷◌, Bool}
use meshias.Time.{Timeval}
use meshias.Alarm.{Owner}
use meshias.Route.{MshRoute}
use meshias.Route.Ops.{
  unlink, msh_route_updated, routing_table_route_updated_cb, msh_route_set_next_hop,
  msh_route_set_lifetime,
}
use meshias.State.{
  MshData, rtnl_route_del, rtnl_route_set_gateway, Verdict, Statistics, RtnlRoute, RreqEntry,
  PacketObj, update_route, route_at, emit, new_ptr, new_route, nfq_set_verdict, bump, set_alarm,
  clear_alarm, gettimeofday,
}
use meshias.PacketsFifo.{
  packet_obj_accept, packet_obj_drop, set_packets, sweep, packets_fifo_drop_packets,
  packets_fifo_process_route, packets_fifo_delete, count_dropped,
}
use meshias.RreqFifo
use meshias.RreqFifo.{rreq_fifo_push, rreq_fifo_push_owned, rreq_fifo_entry_delete}
use meshias.RoutingTable
use meshias.RoutingTable.{add_to_kernel, enter_route, routing_table_add}
use meshias.Packet.{AodvPkt, AodvRreq, AodvRrep}
use meshias.Packet.Check.{Msghdr, send_bytes}
use meshias.Logic.Discovery.{next_rreq, count_rreq_sent, update_entry}
use meshias.Logic.Reply.{renew_seq_num}
use meshias.Logic.Rreq.{add_prev_hop, add_orig}
use meshias.Logic.Rrep.{create_prev_hop, create_dest}
use meshias.Logic.Receive.{aodv_process_packet}
use meshias.Nfqueue.{NfqData, manage_packet}
use meshias.Daemon.{reset_rreq_sent, Reach}
use meshias.Act.Keeps.{Keeps, Keeps-bind, Keeps-when, Keeps-pure, keeps_rules}
use meshias.Invariant.Steps.{Steps, Counts}
use meshias.Invariant.Reach.{rreq_alarm-Keeps, Reach-Keeps}

pub record Basics (P : MshData → Type 0) : Type 0 where
  pub write : (p : ℕ) (f : MshRoute → MshRoute) → Keeps P (update_route p f)
  pub new_address : Keeps P new_ptr
  pub allocate : Keeps P new_route
  pub clock : Keeps P gettimeofday
  pub kernel_del : (n : ℕ) → Keeps P (emit (rtnl_route_del n))
  pub kernel_gateway : (n ip len : ℕ) → Keeps P (emit (rtnl_route_set_gateway n ip len))
  pub count : (f : Statistics → Statistics) → Counts f → Keeps P (bump f)
  pub alarm : (o : Owner) (delay : Timeval) → Keeps P (set_alarm o delay)
  pub no_alarm : (o : Owner) → Keeps P (clear_alarm o)
  pub remove : (p : ℕ) → Keeps P (unlink p)
  pub link : (p : ℕ) → Keeps P (RoutingTable.list_add p)
  pub kernel : (n : ℕ) (r : RtnlRoute) → Keeps P (add_to_kernel n r)
  pub send : (pkt : AodvPkt) → Keeps P (send_bytes pkt)
  pub request : Keeps P next_rreq
  pub request_count : Keeps P count_rreq_sent
  pub request_reset : Keeps P reset_rreq_sent
  pub renew : (n : ℕ) → Keeps P (renew_seq_num n)
  pub process_route : (p : ℕ) → Keeps P (packets_fifo_process_route p)
  pub drop_packets : (dest : ℕ) → Keeps P (packets_fifo_drop_packets dest)
  pub entry_add : (e : RreqEntry) → Keeps P (RreqFifo.list_add e)
  pub entry_del : (p : ℕ) → Keeps P (RreqFifo.list_del p)
  pub entry : (p : ℕ) (f : RreqEntry → RreqEntry) → Keeps P (update_entry p f)

-- The loops over the packet queue, from their single writes.
module _ {P : MshData → Type 0} (verdict : (id : ℕ) (v : Verdict) → Keeps P (nfq_set_verdict id v))
    (count : Keeps P (bump count_dropped))
    (packets : (queue : List PacketObj) → Keeps P (set_packets queue)) where
  sweep-Keeps :
      (test : PacketObj → Bool) (handle : PacketObj → Act MshData Unit)
      → ((packet : PacketObj) → Keeps P (handle packet))
      → (queue : List PacketObj) → Keeps P (sweep test handle queue)
  unfolding sweep
  sweep-Keeps test handle k [] = Keeps-pure []
  sweep-Keeps test handle k (e ∷ rest) =
      Keeps-bind _ _ (Keeps-when _ _ (k e))
        λ _. Keeps-bind _ _ (sweep-Keeps test handle k rest) λ _. Keeps-pure _

  accept-Keeps : (packet : PacketObj) → Keeps P (packet_obj_accept packet)
  unfolding packet_obj_accept
  accept-Keeps packet = search (keeps_rules, verdict) depth 10

  drop-Keeps : (packet : PacketObj) → Keeps P (packet_obj_drop packet)
  unfolding packet_obj_drop
  drop-Keeps packet = search (keeps_rules, verdict) depth 10

  pub drop_packets-Keeps : (dest : ℕ) → Keeps P (packets_fifo_drop_packets dest)
  unfolding packets_fifo_drop_packets
  drop_packets-Keeps dest = search (keeps_rules, sweep-Keeps, drop-Keeps, packets) depth 20

  pub delete-Keeps : Keeps P packets_fifo_delete
  unfolding packets_fifo_delete
  delete-Keeps = search (keeps_rules, sweep-Keeps, drop-Keeps, packets) depth 20

  route_at-Keeps : (p : ℕ) → Keeps P (route_at p)
  unfolding route_at
  route_at-Keeps p = record { at = λ s h. h }

  pub process_route-Keeps : (p : ℕ) → Keeps P (packets_fifo_process_route p)
  unfolding packets_fifo_process_route
  process_route-Keeps p =
      search (keeps_rules, route_at-Keeps, sweep-Keeps, accept-Keeps, packets) depth 20

-- The single writes of the operations that enter a route.
pub record RouteParts (P : MshData → Type 0) : Type 0 where
  pub write : (p : ℕ) (f : MshRoute → MshRoute) → Keeps P (update_route p f)
  pub new_address : Keeps P new_ptr
  pub allocate : Keeps P new_route
  pub kernel_gateway : (n ip len : ℕ) → Keeps P (emit (rtnl_route_set_gateway n ip len))
  pub alarm : (o : Owner) (delay : Timeval) → Keeps P (set_alarm o delay)
  pub link : (p : ℕ) → Keeps P (RoutingTable.list_add p)
  pub kernel : (n : ℕ) (r : RtnlRoute) → Keeps P (add_to_kernel n r)
  pub process_route : (p : ℕ) → Keeps P (packets_fifo_process_route p)

module _ {P : MshData → Type 0} (b : RouteParts P) where
  read_route-Keeps : (p : ℕ) → Keeps P (route_at p)
  unfolding route_at
  read_route-Keeps p = record { at = λ s h. h }

  address-Keeps : Keeps P new_ptr
  address-Keeps = b.new_address

  allocate-Keeps : Keeps P new_route
  allocate-Keeps = b.allocate

  set_lifetime-Keeps : (p lifetime : ℕ) → Keeps P (msh_route_set_lifetime p lifetime)
  unfolding msh_route_set_lifetime
  set_lifetime-Keeps p lifetime = search (keeps_rules, read_route-Keeps, b.write, b.alarm) depth 20

  next_hop-Keeps : (p ip : ℕ) → Keeps P (msh_route_set_next_hop p ip)
  unfolding msh_route_set_next_hop msh_route_updated routing_table_route_updated_cb
  next_hop-Keeps p ip = search (keeps_rules, read_route-Keeps, b.write, b.kernel_gateway) depth 20

  enter-Keeps : (p n : ℕ) → Keeps P (enter_route p n)
  unfolding enter_route
  enter-Keeps p n =
      search (keeps_rules, b.write, set_lifetime-Keeps, b.link, b.process_route) depth 20

  table_add-Keeps : (p : ℕ) → Keeps P (routing_table_add p)
  unfolding routing_table_add
  table_add-Keeps p =
      search (keeps_rules, read_route-Keeps, address-Keeps, b.kernel, enter-Keeps) depth 20

  pub add_prev_hop-Keeps : (ip : ℕ) → Keeps P (add_prev_hop ip)
  unfolding add_prev_hop
  add_prev_hop-Keeps ip =
      search (keeps_rules, allocate-Keeps, b.write, next_hop-Keeps, table_add-Keeps) depth 20

  pub add_orig-Keeps : (ip : ℕ) (rreq : AodvRreq) (l : ℕ) → Keeps P (add_orig ip rreq l)
  unfolding add_orig
  add_orig-Keeps ip rreq l =
      search
        (keeps_rules, allocate-Keeps, b.write, next_hop-Keeps, set_lifetime-Keeps, table_add-Keeps)
        depth 30

  pub create_prev_hop-Keeps : (ip : ℕ) → Keeps P (create_prev_hop ip)
  unfolding create_prev_hop
  create_prev_hop-Keeps ip =
      search (keeps_rules, allocate-Keeps, b.write, next_hop-Keeps, table_add-Keeps) depth 20

  pub create_dest-Keeps : (ip : ℕ) (rrep : AodvRrep) → Keeps P (create_dest ip rrep)
  unfolding create_dest
  create_dest-Keeps ip rrep =
      search (keeps_rules, allocate-Keeps, b.write, next_hop-Keeps, table_add-Keeps) depth 30

module _ {P : MshData → Type 0} (b : Basics P) where
  new_address-Keeps : Keeps P new_ptr
  new_address-Keeps = b.new_address

  route_parts : RouteParts P
  route_parts = record {
    write = b.write;
    new_address = b.new_address;
    allocate = b.allocate;
    kernel_gateway = b.kernel_gateway;
    alarm = b.alarm;
    link = b.link;
    kernel = b.kernel;
    process_route = b.process_route;
  }

  push-Keeps : (rreq_id dst : ℕ) → Keeps P (rreq_fifo_push rreq_id dst)
  unfolding rreq_fifo_push
  push-Keeps rreq_id dst = search (keeps_rules, new_address-Keeps, b.alarm, b.entry_add) depth 20

  push_owned-Keeps : (rreq_id dst : ℕ) (n : ℤ) → Keeps P (rreq_fifo_push_owned rreq_id dst n)
  unfolding rreq_fifo_push_owned
  push_owned-Keeps rreq_id dst n =
      search (keeps_rules, new_address-Keeps, b.alarm, b.entry_add) depth 20

  entry_delete-Keeps : (p : ℕ) → Keeps P (rreq_fifo_entry_delete p)
  unfolding rreq_fifo_entry_delete
  entry_delete-Keeps p = search (keeps_rules, b.no_alarm, b.entry_del) depth 20

  pub Basics-Steps : Steps P
  Basics-Steps = record {
    write = λ p f _. b.write p f;
    clock = b.clock;
    kernel_del = b.kernel_del;
    kernel_gateway = b.kernel_gateway;
    count = b.count;
    alarm = b.alarm;
    no_route_alarm = λ p. b.no_alarm _;
    no_flush_alarm = b.no_alarm _;
    remove = b.remove;
    send = b.send;
    request = b.request;
    request_count = b.request_count;
    request_reset = b.request_reset;
    renew = b.renew;
    push = push-Keeps;
    push_owned = λ rreq_id dst. push_owned-Keeps rreq_id dst (pos 0);
    delete_entry = entry_delete-Keeps;
    add_prev_hop = add_prev_hop-Keeps route_parts;
    add_orig = add_orig-Keeps route_parts;
    create_prev_hop = create_prev_hop-Keeps route_parts;
    create_dest = create_dest-Keeps route_parts;
  }

  pub Basics-Reach :
      ((nfa : NfqData) → Keeps P (manage_packet nfa))
      → ((msg : Msghdr) (n stray : ℕ) → Keeps P (aodv_process_packet msg n stray))
      → {s t : MshData} → Reach s t
      → P s
      → P t
  Basics-Reach captured_kept message =
      Reach-Keeps Basics-Steps captured_kept
        (rreq_alarm-Keeps Basics-Steps (λ p. b.no_alarm _) b.entry b.drop_packets) message
