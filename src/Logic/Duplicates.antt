-- ===== src/Logic/Duplicates.antt =====
-- A request that was seen before.
pub mod Again
use meshias.Base.{ℕ, ◌≡◌, refl, ◌∙◌, ap, Bool, true, false, List}
use meshias.Alarm.{Owner}
use meshias.Time.{Timeval}
use meshias.Route.{MshRoute}
use meshias.Route.Ops.{
  routing_table_route_updated_cb, msh_route_updated, msh_route_set_next_hop, msh_route_set_lifetime,
}
use meshias.State.{
  MshData, Event, RreqEntry, PacketObj, Verdict, RtnlRoute, route_at, update_route, emit, new_ptr,
  new_route, set_alarm, bump, nfq_set_verdict,
}
use meshias.PacketsFifo.{count_dropped, set_packets, packets_fifo_process_route}
use meshias.RreqFifo.{rreq_fifo_contains}
use meshias.RoutingTable
use meshias.RoutingTable.{routing_table_add, enter_route, add_to_kernel}
use meshias.Packet.{AodvPkt, get_rreq, aodv_pkt_get_address}
use meshias.Logic.Rreq.{add_prev_hop, renew_prev_hop, aodv_process_rreq}
use meshias.Act.{Act, pure, gets, ◌>>=◌, choose, after}
use meshias.Act.Keeps.{Keeps, keeps_rules}
use meshias.Invariant.Basics.{process_route-Keeps}

module _ (queue : List RreqEntry) where
  abbrev pub QueueIs : MshData → Type 0
  QueueIs s = s.rreq_queue ≡ queue

  pub quiet :
      {A : Type 0} (m : Act MshData A)
      → ((s : MshData) → (m s).1.rreq_queue ≡ s.rreq_queue)
      → Keeps QueueIs m
  quiet m e = record { at = λ s h. e s ∙ h }

  pub read_kept : (p : ℕ) → Keeps QueueIs (route_at p)
  unfolding route_at
  read_kept p = quiet _ λ s. refl

  pub write_kept : (p : ℕ) (f : MshRoute → MshRoute) → Keeps QueueIs (update_route p f)
  unfolding update_route
  write_kept p f = quiet _ λ s. refl

  alarm_kept : (o : Owner) (delay : Timeval) → Keeps QueueIs (set_alarm o delay)
  unfolding set_alarm
  alarm_kept o delay = quiet _ λ s. refl

  emit_kept : (e : Event) → Keeps QueueIs (emit e)
  unfolding emit
  emit_kept e = quiet _ λ s. refl

  address_kept : Keeps QueueIs new_ptr
  unfolding new_ptr
  address_kept = quiet _ λ s. refl

  pub route_kept : Keeps QueueIs new_route
  unfolding new_route
  route_kept = quiet _ λ s. refl

  kernel_kept : (n : ℕ) (r : RtnlRoute) → Keeps QueueIs (add_to_kernel n r)
  unfolding add_to_kernel
  kernel_kept n r = quiet _ λ s. refl

  link_kept : (p : ℕ) → Keeps QueueIs (RoutingTable.list_add p)
  unfolding RoutingTable.list_add
  link_kept p = quiet _ λ s. refl

  verdict_kept : (id : ℕ) (v : Verdict) → Keeps QueueIs (nfq_set_verdict id v)
  unfolding nfq_set_verdict
  verdict_kept id v = quiet _ λ s. refl

  dropped_kept : Keeps QueueIs (bump count_dropped)
  unfolding bump
  dropped_kept = quiet _ λ s. refl

  packets_kept : (packets : List PacketObj) → Keeps QueueIs (set_packets packets)
  unfolding set_packets
  packets_kept packets = quiet _ λ s. refl

  process_kept : (p : ℕ) → Keeps QueueIs (packets_fifo_process_route p)
  process_kept = process_route-Keeps verdict_kept dropped_kept packets_kept

  pub lifetime_kept : (p lifetime : ℕ) → Keeps QueueIs (msh_route_set_lifetime p lifetime)
  unfolding msh_route_set_lifetime
  lifetime_kept p lifetime = search (keeps_rules, read_kept, write_kept, alarm_kept) depth 20

  pub next_hop_kept : (p ip : ℕ) → Keeps QueueIs (msh_route_set_next_hop p ip)
  unfolding msh_route_set_next_hop msh_route_updated routing_table_route_updated_cb
  next_hop_kept p ip = search (keeps_rules, read_kept, write_kept, emit_kept) depth 20

  enter_kept : (p nlroute : ℕ) → Keeps QueueIs (enter_route p nlroute)
  unfolding enter_route
  enter_kept p nlroute =
      search (keeps_rules, write_kept, lifetime_kept, link_kept, process_kept) depth 20

  pub add_kept : (p : ℕ) → Keeps QueueIs (routing_table_add p)
  unfolding routing_table_add
  add_kept p = search (keeps_rules, read_kept, address_kept, kernel_kept, enter_kept) depth 20

  pub prev_hop_kept : (prev_hop : ℕ) → Keeps QueueIs (renew_prev_hop prev_hop)
  unfolding renew_prev_hop add_prev_hop
  prev_hop_kept prev_hop =
      search (keeps_rules, route_kept, write_kept, next_hop_kept, add_kept, lifetime_kept) depth 20

seen_before :
    (b : Bool) (m : Act MshData Unit) (s : MshData) → b ≡ true → choose b (pure tt) m s ≡ (tt, s)
unfolding choose pure
seen_before true m s h = refl
seen_before false m s h = cc

-- A request whose identifier and destination are in the queue already is discarded: it renews the
-- route to the node that it came from, and does nothing else.
pub process_rreq-seen :
    (pkt : AodvPkt) (s : MshData)
    → rreq_fifo_contains s.rreq_queue
        (get_rreq pkt.payload).rreq_id
        (get_rreq pkt.payload).dest_ip_addr
      ≡ true
    → after (aodv_process_rreq pkt) s ≡ after (renew_prev_hop (aodv_pkt_get_address pkt)) s
unfolding aodv_process_rreq ◌>>=◌ gets
process_rreq-seen pkt s seen =
    let prev_hop = aodv_pkt_get_address pkt in
    let same = (prev_hop_kept s.rreq_queue prev_hop).at s refl in
    ap (λ r. r.1)
      (seen_before _ _ (renew_prev_hop prev_hop s).1 (
        ap
          (λ q.
            rreq_fifo_contains q (get_rreq pkt.payload).rreq_id (get_rreq pkt.payload).dest_ip_addr)
          same
        ∙ seen))
