-- ===== src/Logic/Delivery/Rest.antt =====
-- What `aodv_process_rrep` does once it has the routes: the packets are left alone.
use meshias.Base.{ℕ, ◌≡◌, refl, false, Bool, none, some, List, ◌||◌, ◌==◌, ◌∙◌, sym, subst}
use meshias.Time.{Timeval}
use meshias.Alarm.{Owner}
use meshias.Route.Ops.{msh_route_get_lifetime, msh_route_set_lifetime}
use meshias.State.{MshData, Verdict, PacketObj, gettimeofday, clear_alarm, route_at}
use meshias.RreqFifo
use meshias.RreqFifo.{rreq_fifo_del, rreq_fifo_entry_delete}
use meshias.RoutingTable.{routing_table_find_by_ip}
use meshias.RoutingTable.Find.{find_by_ip-first_to}
use meshias.Packet.{AodvPkt, AodvRrep}
use meshias.Logic.Rrep.{
  prev_hop_route, dest_route, take_reply, is_better, extend_next_hop, forward_rrep,
}
use meshias.Nfqueue.Verdicts.{Sees, quiet, read_kept, write_kept, lifetime_kept, packet_kept}
use meshias.Act.{Act, pure, gets, ◌>>=◌, choose, if_found, when, after}
use meshias.Act.Keeps.{Keeps, keeps_rules}
use meshias.Act.Leads.{Leads, Keeps-Leads, Leads-bind}
use meshias.Config.{active_route_timeout}
use meshias.Logic.Delivery.{delivered, Waits, next_hop_kept}
use meshias.Logic.Delivery.Adding.{created, none_first}

-- What follows the creation of the route leaves the packets alone.
module _ (seen : List (ℕ × Verdict) × List PacketObj) where
  clock_kept : Keeps (Sees seen) gettimeofday
  unfolding gettimeofday
  clock_kept = quiet seen _ λ s. refl

  clear_kept : (o : Owner) → Keeps (Sees seen) (clear_alarm o)
  unfolding clear_alarm
  clear_kept o = quiet seen _ λ s. refl

  unlist_kept : (p : ℕ) → Keeps (Sees seen) (RreqFifo.list_del p)
  unfolding RreqFifo.list_del
  unlist_kept p = quiet seen _ λ s. refl

  take_kept : (p prev_hop : ℕ) (rrep : AodvRrep) → Keeps (Sees seen) (take_reply p prev_hop rrep)
  unfolding take_reply
  take_kept p prev_hop rrep =
      search (keeps_rules, write_kept, next_hop_kept, clock_kept, lifetime_kept) depth 30

  answered_kept : (rreq_id dst : ℕ) → Keeps (Sees seen) (rreq_fifo_del rreq_id dst)
  unfolding rreq_fifo_del rreq_fifo_entry_delete
  answered_kept rreq_id dst = search (keeps_rules, clear_kept, unlist_kept) depth 20

  left_kept : (p : ℕ) → Keeps (Sees seen) (msh_route_get_lifetime p)
  unfolding msh_route_get_lifetime
  left_kept p = search (keeps_rules, clock_kept, read_kept) depth 20

  forward_kept :
      (pkt : AodvPkt) (rrep : AodvRrep) (p q : ℕ) (now : Timeval)
      → Keeps (Sees seen) (forward_rrep pkt rrep p q now)
  unfolding forward_rrep extend_next_hop
  forward_kept pkt rrep p q now =
      search (keeps_rules, read_kept, write_kept, packet_kept, left_kept, lifetime_kept) depth 40

-- The handler once it has both routes, and once it has the route to the neighbour.
abbrev pub updated_by : AodvPkt → AodvRrep → ℕ → ℕ → ℕ × Bool → Act MshData Unit
updated_by pkt rrep prev_hop p r = do
  route ← route_at r.0
  when (r.1 || is_better route rrep) do
    now ← take_reply r.0 prev_hop rrep
    ip_addr ← gets (λ s. s.ip_addr)
    rreq_id ← gets (λ s. s.rreq_id)
    choose (ip_addr == rrep.orig_ip_addr) (rreq_fifo_del rreq_id rrep.dest_ip_addr)
        (forward_rrep pkt rrep p r.0 now)

abbrev pub with_prev_hop : AodvPkt → AodvRrep → ℕ → ℕ → Act MshData Unit
with_prev_hop pkt rrep prev_hop p = do
  r ← dest_route prev_hop rrep
  updated_by pkt rrep prev_hop p r

dest_route-found :
    (prev_hop q : ℕ) (rrep : AodvRrep) (s : MshData)
    → routing_table_find_by_ip rrep.dest_ip_addr s ≡ some q
    → dest_route prev_hop rrep s ≡ ((q, false), s)
unfolding dest_route gets ◌>>=◌
dest_route-found prev_hop q rrep s h = rw h (unfold if_found pure in refl)

pub prev_hop_lem :
    (prev_hop n : ℕ) (s : MshData)
    → routing_table_find_by_ip prev_hop s ≡ some n
    → prev_hop_route prev_hop s ≡ (n, after (msh_route_set_lifetime n active_route_timeout) s)
unfolding prev_hop_route gets ◌>>=◌
prev_hop_lem prev_hop n s h = rw h (unfold if_found pure in refl)

module _ (seen : List (ℕ × Verdict) × List PacketObj) where
  -- The rest of the handler.
  rest_kept :
      (pkt : AodvPkt) (rrep : AodvRrep) (prev_hop p q : ℕ) (is_new : Bool)
      → Keeps (Sees seen) (updated_by pkt rrep prev_hop p (q, is_new))
  rest_kept pkt rrep prev_hop p q is_new =
      search (keeps_rules, read_kept, take_kept, answered_kept, forward_kept) depth 30

  -- Where there is a route already, none is created.
  pub known_dest :
      (pkt : AodvPkt) (rrep : AodvRrep) (prev_hop p q : ℕ) (s : MshData)
      → routing_table_find_by_ip rrep.dest_ip_addr s ≡ some q
      → Sees seen s
      → Sees seen (after (with_prev_hop pkt rrep prev_hop p) s)
  unfolding ◌>>=◌
  known_dest pkt rrep prev_hop p q s found h =
      subst
        (λ (r : (ℕ × Bool) × MshData). Sees seen (after (updated_by pkt rrep prev_hop p r.0) r.1))
        (sym (dest_route-found prev_hop q rrep s found))
        ((rest_kept pkt rrep prev_hop p q false).at s h)

module _ (dest : ℕ) (seen : List (ℕ × Verdict) × List PacketObj) where
  dest_lem :
      (prev_hop : ℕ) (rrep : AodvRrep)
      → rrep.dest_ip_addr ≡ dest
      → Leads (Waits dest dest seen) (λ _. Sees (delivered dest seen)) (dest_route prev_hop rrep)
  unfolding dest_route gets ◌>>=◌
  dest_lem prev_hop rrep same = record {
    ends = λ s h.
        let absent : routing_table_find_by_ip rrep.dest_ip_addr s ≡ none =
          find_by_ip-first_to rrep.dest_ip_addr s h.table.host
          ∙ none_first s.routes rrep.dest_ip_addr s.routing_table (rw same h.none_to) in
        rw absent (unfold if_found pure in (created dest dest seen prev_hop rrep same).ends s h);
  }

  pub from_prev_hop :
      (pkt : AodvPkt) (rrep : AodvRrep) (prev_hop p : ℕ)
      → rrep.dest_ip_addr ≡ dest
      → Leads
          (Waits dest dest seen)
          (λ _. Sees (delivered dest seen))
          (with_prev_hop pkt rrep prev_hop p)
  from_prev_hop pkt rrep prev_hop p same =
      Leads-bind _ _ (dest_lem prev_hop rrep same)
        λ r. Keeps-Leads _ (rest_kept (delivered dest seen) pkt rrep prev_hop p r.0 r.1)
