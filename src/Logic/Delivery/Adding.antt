-- ===== src/Logic/Delivery/Adding.antt =====
-- A route to the destination of a reply is created and added: the packets for it are accepted.
use meshias.Base.{ℕ, ◌==◌, ◌≡◌, refl, ◌∙◌, ap, none, List, [], ◌∷◌, arith}
use mathlib.Core.Path.{fun_ext}
use meshias.Route.{
  MshRoute, msh_route_alloc, msh_route_set_dst_ip, rtfind_by_dest_longest_prefix_matching,
}
use meshias.Route.Compare.{compare-host}
use meshias.State.{
  MshData, Verdict, PacketObj, Event, nf_accept, set_verdict, put, route_at, update_route, new_ptr,
  new_route,
}
use meshias.PacketsFifo.{serves, packets_fifo_process_route}
use meshias.PacketsFifo.Laws.{picked, settle, process_route_exact}
use meshias.RoutingTable
use meshias.RoutingTable.{
  routing_table_find, routing_table_add, enter_route, add_to_kernel, add_failed, make_rtnl_route,
}
use meshias.RoutingTable.Find.{find-first_to, first_to}
use meshias.Packet.{AodvRrep}
use meshias.Logic.Rrep.{create_dest}
use meshias.Nfqueue.Verdicts.{settled_and_waiting, verdicts, Sees}
use meshias.Act.{Act, gets, ◌>>=◌, choose, if_found}
use meshias.Act.Keeps.{Keeps}
use meshias.Act.Leads.{Leads, Leads-bind, Leads-after, Leads-pure}
use meshias.Invariant.Key.{key_rules}
use meshias.Invariant.Keys.{SameKeys-refl}
use meshias.Invariant.Table.{NoneTo}
use meshias.Invariant.Table.Entering.{allocates, set_dst-Fresh, NoneTo-put}
use meshias.Logic.Delivery.{
  accept_all, delivered, Waits, Prepared, Entering, Steady, Steady-Entering, write-Steady,
  lifetime-Steady, next_hop-Steady,
}

-- A host route serves just the packets for its destination.
serves-host :
    (route : MshRoute) (packet : PacketObj)
    → route.prefix_sz ≡ 0
    → serves route packet ≡ (packet.dest == route.dst_ip)
unfolding serves msh_route_set_dst_ip
serves-host route packet h =
    ground (arith, compare-host (msh_route_set_dst_ip packet.dest msh_route_alloc) route h)

pub none_first :
    (routes : ℕ → MshRoute) (ip : ℕ) (l : List ℕ) → NoneTo routes ip l → first_to routes ip l ≡ none
none_first routes ip [] h = refl
none_first routes ip (p ∷ rest) h = ground (arith, none_first routes ip rest h.1)

verdicts-settle :
    (packets : List PacketObj) (trace : List Event)
    → verdicts (settle nf_accept packets trace) ≡ accept_all packets (verdicts trace)
verdicts-settle [] trace = refl
verdicts-settle (packet ∷ rest) trace =
    verdicts-settle rest (set_verdict packet.id nf_accept ∷ trace)

module _ (dest other : ℕ) (seen : List (ℕ × Verdict) × List PacketObj) where
  pub allocated : Leads (Waits dest other seen) (Prepared dest other seen) new_route
  unfolding new_route
  allocated = record {
    ends = λ s h.
        let fresh = allocates.ends s h.table in
        record {
          fresh = fresh;
          waits = record {
            table = fresh.table;
            none_to =
                NoneTo-put s.routes s.next_ptr _ dest s.routing_table fresh.unlisted h.none_to;
            none_other =
                NoneTo-put s.routes s.next_ptr _ other s.routing_table fresh.unlisted h.none_other;
            view = h.view;
            kernel = h.kernel;
          };
        };
  }

  pub set_dst :
      (p : ℕ)
      → Leads
          (Prepared dest other seen p)
          (λ _. Entering dest other seen p)
          (update_route p (msh_route_set_dst_ip dest))
  unfolding update_route msh_route_set_dst_ip
  set_dst p = record {
    ends = λ s h.
        let fresh = (set_dst-Fresh p dest).at s h.fresh in
        let none_to : NoneTo (put s.routes p (record (s.routes p) { dst_ip = dest })) dest
            s.routing_table =
          NoneTo-put s.routes p _ dest s.routing_table h.fresh.unlisted h.waits.none_to in
        let dst : (put s.routes p (record (s.routes p) { dst_ip = dest }) p).dst_ip ≡ dest =
          ground arith in
        record {
          ready = record {
            table = fresh.table;
            host = fresh.host;
            below = fresh.below;
            none_to = rw dst none_to;
          };
          dst = dst;
          waits = record {
            table = fresh.table;
            none_to = none_to;
            none_other =
                NoneTo-put s.routes p _ other s.routing_table h.fresh.unlisted h.waits.none_other;
            view = h.waits.view;
            kernel = h.waits.kernel;
          };
        };
  }

  -- The kernel has the route.
  record Taken (p : ℕ) (s : MshData) : Type 0 where
    pub host : (s.routes p).prefix_sz ≡ 0
    pub dst : (s.routes p).dst_ip ≡ dest
    pub view : settled_and_waiting s ≡ seen

  Steady-Taken : {A : Type 0} (p : ℕ) (m : Act MshData A) → Steady m → Keeps (Taken p) m
  Steady-Taken p m steady = record {
    at = λ s h.
        let k = (steady.same s).at s (SameKeys-refl s) in
        record {
          host = k.prefix_sz p ∙ h.host;
          dst = k.dst_ip p ∙ h.dst;
          view = (steady.sees seen).at s h.view;
        };
  }

  linked : (p : ℕ) → Keeps (Taken p) (RoutingTable.list_add p)
  unfolding RoutingTable.list_add
  linked p = record { at = λ s h. record { host = h.host; dst = h.dst; view = h.view } }

  processed :
      (p : ℕ) → Leads (Taken p) (λ _. Sees (delivered dest seen)) (packets_fifo_process_route p)
  processed p = record {
    ends = λ s h.
        let test : serves (s.routes p) ≡ (λ packet. packet.dest == dest) =
          fun_ext (λ packet.
            serves-host (s.routes p) packet h.host ∙ ap (λ ip. packet.dest == ip) h.dst) in
        rw ((process_route_exact p s).0, (process_route_exact p s).1, test)
          (rw (verdicts-settle (picked (λ packet. packet.dest == dest) s.packets_queue) s.trace)
            (ap (delivered dest) h.view));
  }

  enters :
      (p nlroute : ℕ) → Leads (Taken p) (λ _. Sees (delivered dest seen)) (enter_route p nlroute)
  unfolding enter_route
  enters p nlroute = Leads-after _ _ (Steady-Taken p _ (write-Steady p _ (search key_rules))) λ _.
      Leads-after _ _ (Steady-Taken p _ (lifetime-Steady p _)) λ _.
        Leads-after _ _ (Steady-Taken p _ (write-Steady p _ (search key_rules))) λ _.
          Leads-after _ _ (linked p) λ _. Leads-bind _ _ (processed p) λ _. Leads-pure _ λ s h. h

  -- The addition of the route, which the search does not find and the kernel takes.
  pub added :
      (p : ℕ)
      → Leads (Entering dest other seen p) (λ _. Sees (delivered dest seen)) (routing_table_add p)
  unfolding routing_table_add ◌>>=◌ route_at gets new_ptr add_to_kernel
  added p = record {
    ends = λ s h.
        let absent : routing_table_find (s.routes p) rtfind_by_dest_longest_prefix_matching s
            ≡ none =
          find-first_to (s.routes p) s h.ready.table.host
          ∙ none_first s.routes (s.routes p).dst_ip s.routing_table h.ready.none_to in
        rw absent (
          unfold if_found in
          rw (h.waits.kernel 0) (
            unfold choose in
            (enters p s.next_ptr).ends _
              (record { host = h.ready.host; dst = h.dst; view = h.waits.view })));
  }

  pub created :
      (prev_hop : ℕ) (rrep : AodvRrep)
      → rrep.dest_ip_addr ≡ dest
      → Leads (Waits dest other seen) (λ _. Sees (delivered dest seen)) (create_dest prev_hop rrep)
  unfolding create_dest
  created prev_hop rrep same = Leads-bind _ _ allocated λ p.
      Leads-bind _ _ (rw same (set_dst p)) λ _.
        Leads-after _ _ (Steady-Entering dest other seen p _ (next_hop-Steady p prev_hop)) λ _.
          Leads-after _ _
            (Steady-Entering dest other seen p _ (write-Steady p _ (search key_rules)))
            λ _.
              Leads-after _ _
                (Steady-Entering dest other seen p _ (write-Steady p _ (search key_rules)))
                λ _. Leads-bind _ _ (added p) λ _. Leads-pure _ λ s h. h
