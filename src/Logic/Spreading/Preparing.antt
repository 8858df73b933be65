-- ===== src/Logic/Spreading/Preparing.antt =====
-- The routes that a request brings are entered in silence.
use meshias.Base.{ℕ, ◌≡◌, refl, List}
use meshias.Time.{Timeval}
use meshias.Alarm.{Owner}
use meshias.Route.{MshRoute}
use meshias.Route.Ops.{
  routing_table_route_updated_cb, msh_route_updated, msh_route_set_next_hop, msh_route_set_lifetime,
  msh_route_get_lifetime,
}
use meshias.State.{
  MshData, RreqEntry, PacketObj, Verdict, rtnl_route_set_gateway, route_at, update_route, emit,
  new_ptr, new_route, set_alarm, bump, nfq_set_verdict, gettimeofday,
}
use meshias.PacketsFifo.{count_dropped, set_packets}
use meshias.RreqFifo
use meshias.RreqFifo.{rreq_fifo_push}
use meshias.RoutingTable
use meshias.RoutingTable.{add_to_kernel}
use meshias.Packet.{AodvRreq}
use meshias.Logic.Rreq.{add_prev_hop, add_orig, renew_prev_hop, update_orig, reverse_route}
use meshias.Act.{Act}
use meshias.Act.Keeps.{Keeps, keeps_rules}
use meshias.Invariant.Basics.{RouteParts, add_prev_hop-Keeps, add_orig-Keeps, process_route-Keeps}
use meshias.Logic.Spreading.{messages, Silent, Silent-refl, silent}

module _ (start : MshData) where
  abbrev Quiet : MshData → Type 0
  Quiet = Silent start

  -- The field by field form.
  still :
      {A : Type 0} (m : Act MshData A)
      → ((s : MshData) → messages (m s).1.trace ≡ messages s.trace)
      → ((s : MshData) → (m s).1.ip_addr ≡ s.ip_addr)
      → ((s : MshData) → (m s).1.broadcast_addr ≡ s.broadcast_addr)
      → ((s : MshData) → (m s).1.seq_num ≡ s.seq_num)
      → Keeps Quiet m
  still m sent ip_addr broadcast_addr seq_num = silent start m λ s. record {
    sent = sent s;
    ip_addr = ip_addr s;
    broadcast_addr = broadcast_addr s;
    seq_num = seq_num s;
  }

  read_kept : (p : ℕ) → Keeps Quiet (route_at p)
  unfolding route_at
  read_kept p = silent start _ Silent-refl

  write_kept : (p : ℕ) (f : MshRoute → MshRoute) → Keeps Quiet (update_route p f)
  unfolding update_route
  write_kept p f = still _ (λ s. refl) (λ s. refl) (λ s. refl) λ s. refl

  alarm_kept : (o : Owner) (delay : Timeval) → Keeps Quiet (set_alarm o delay)
  unfolding set_alarm
  alarm_kept o delay = still _ (λ s. refl) (λ s. refl) (λ s. refl) λ s. refl

  clock_kept : Keeps Quiet gettimeofday
  unfolding gettimeofday
  clock_kept = still _ (λ s. refl) (λ s. refl) (λ s. refl) λ s. refl

  gateway_kept : (n ip len : ℕ) → Keeps Quiet (emit (rtnl_route_set_gateway n ip len))
  unfolding emit
  gateway_kept n ip len = still _ (λ s. refl) (λ s. refl) (λ s. refl) λ s. refl

  address_kept : Keeps Quiet new_ptr
  unfolding new_ptr
  address_kept = still _ (λ s. refl) (λ s. refl) (λ s. refl) λ s. refl

  entry_kept : (e : RreqEntry) → Keeps Quiet (RreqFifo.list_add e)
  unfolding RreqFifo.list_add
  entry_kept e = still _ (λ s. refl) (λ s. refl) (λ s. refl) λ s. refl

  verdict_kept : (id : ℕ) (v : Verdict) → Keeps Quiet (nfq_set_verdict id v)
  unfolding nfq_set_verdict
  verdict_kept id v = still _ (λ s. refl) (λ s. refl) (λ s. refl) λ s. refl

  dropped_kept : Keeps Quiet (bump count_dropped)
  unfolding bump
  dropped_kept = still _ (λ s. refl) (λ s. refl) (λ s. refl) λ s. refl

  packets_kept : (packets : List PacketObj) → Keeps Quiet (set_packets packets)
  unfolding set_packets
  packets_kept packets = still _ (λ s. refl) (λ s. refl) (λ s. refl) λ s. refl

  parts : RouteParts Quiet
  unfolding new_route RoutingTable.list_add add_to_kernel
  parts = record {
    write = write_kept;
    new_address = address_kept;
    allocate = still _ (λ s. refl) (λ s. refl) (λ s. refl) λ s. refl;
    kernel_gateway = gateway_kept;
    alarm = alarm_kept;
    link = λ p. still _ (λ s. refl) (λ s. refl) (λ s. refl) λ s. refl;
    kernel = λ n r. still _ (λ s. refl) (λ s. refl) (λ s. refl) λ s. refl;
    process_route = process_route-Keeps verdict_kept dropped_kept packets_kept;
  }

  prev_hop_kept : (prev_hop : ℕ) → Keeps Quiet (add_prev_hop prev_hop)
  prev_hop_kept = add_prev_hop-Keeps parts

  orig_kept : (ip : ℕ) (rreq : AodvRreq) (l : ℕ) → Keeps Quiet (add_orig ip rreq l)
  orig_kept = add_orig-Keeps parts

  lifetime_kept : (p lifetime : ℕ) → Keeps Quiet (msh_route_set_lifetime p lifetime)
  unfolding msh_route_set_lifetime
  lifetime_kept p lifetime = search (keeps_rules, read_kept, write_kept, alarm_kept) depth 20

  left_kept : (p : ℕ) → Keeps Quiet (msh_route_get_lifetime p)
  unfolding msh_route_get_lifetime
  left_kept p = search (keeps_rules, clock_kept, read_kept) depth 20

  next_hop_kept : (p ip : ℕ) → Keeps Quiet (msh_route_set_next_hop p ip)
  unfolding msh_route_set_next_hop msh_route_updated routing_table_route_updated_cb
  next_hop_kept p ip = search (keeps_rules, read_kept, write_kept, gateway_kept) depth 20

  pub renew-Silent : (prev_hop : ℕ) → Keeps (Silent start) (renew_prev_hop prev_hop)
  unfolding renew_prev_hop
  renew-Silent prev_hop = search (keeps_rules, lifetime_kept, prev_hop_kept) depth 20

  pub push-Silent : (rreq_id dst : ℕ) → Keeps (Silent start) (rreq_fifo_push rreq_id dst)
  unfolding rreq_fifo_push
  push-Silent rreq_id dst = search (keeps_rules, address_kept, alarm_kept, entry_kept) depth 20

  update_kept : (ip : ℕ) (rreq : AodvRreq) (l p : ℕ) → Keeps Quiet (update_orig ip rreq l p)
  unfolding update_orig
  update_kept ip rreq l p =
      search (keeps_rules, read_kept, left_kept, write_kept, next_hop_kept, lifetime_kept) depth 40

  pub reverse-Silent : (ip : ℕ) (rreq : AodvRreq) → Keeps (Silent start) (reverse_route ip rreq)
  unfolding reverse_route
  reverse-Silent ip rreq = search (keeps_rules, clock_kept, update_kept, orig_kept) depth 20
