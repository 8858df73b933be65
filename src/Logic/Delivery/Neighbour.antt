-- ===== src/Logic/Delivery/Neighbour.antt =====
-- A route to the neighbour that a reply came from is created and added.
use meshias.Base.{
  ℕ, ◌+◌, ◌==◌, ◌≡◌, ◌≢◌, refl, sym, subst, ◌∙◌, ℤ, false, none, some, List, arith, if◌then◌else◌,
  ==_ne,
}
use meshias.Route.{rtfind_by_dest_longest_prefix_matching}
use meshias.State.{MshData, Verdict, PacketObj, nfq_set_verdict, bump, route_at, new_ptr}
use meshias.PacketsFifo.{count_dropped, set_packets, packets_fifo_process_route}
use meshias.RoutingTable
use meshias.RoutingTable.{
  routing_table_find, routing_table_find_by_ip, routing_table_add, enter_route, add_to_kernel,
  add_failed,
}
use meshias.RoutingTable.Find.{find-first_to, find_by_ip-first_to}
use meshias.RoutingTable.View.{RouteMap, view, insert_new, routing_table_add-insert}
use meshias.Logic.Rrep.{create_prev_hop}
use meshias.Nfqueue.Verdicts.{settled_and_waiting}
use meshias.Act.{gets, ◌>>=◌, choose, if_found, after}
use meshias.Act.Keeps.{Keeps, keeps_rules}
use meshias.Act.Leads.{Leads, Leads-bind, Leads-after, Leads-pure}
use meshias.Invariant.Basics.{process_route-Keeps}
use meshias.Invariant.Key.{key_rules}
use meshias.Logic.Delivery.{
  delivered, Waits, Entering, Steady-Entering, write-Steady, next_hop-Steady, AddsAre, write_adds,
  lifetime_adds,
}
use meshias.Logic.Delivery.Adding.{none_first, allocated, set_dst, added}

-- Adding a route asks the kernel once.
module _ (answers : ℕ → ℤ) where
  verdict_adds : (id : ℕ) (v : Verdict) → Keeps (AddsAre answers) (nfq_set_verdict id v)
  unfolding nfq_set_verdict
  verdict_adds id v = record { at = λ s h. h }

  dropped_adds : Keeps (AddsAre answers) (bump count_dropped)
  unfolding bump
  dropped_adds = record { at = λ s h. h }

  packets_adds : (queue : List PacketObj) → Keeps (AddsAre answers) (set_packets queue)
  unfolding set_packets
  packets_adds queue = record { at = λ s h. h }

  process_adds : (p : ℕ) → Keeps (AddsAre answers) (packets_fifo_process_route p)
  process_adds = process_route-Keeps verdict_adds dropped_adds packets_adds

  link_adds : (p : ℕ) → Keeps (AddsAre answers) (RoutingTable.list_add p)
  unfolding RoutingTable.list_add
  link_adds p = record { at = λ s h. h }

  enter_adds : (p n : ℕ) → Keeps (AddsAre answers) (enter_route p n)
  unfolding enter_route
  enter_adds p n = search (keeps_rules, write_adds, lifetime_adds, link_adds, process_adds) depth 20

inserted :
    (k dest p ip : ℕ) (m : RouteMap)
    → k ≡ dest
    → m dest ≡ none
    → insert_new k p m ip ≡ (if ip == dest then some p else m ip)
inserted k dest p ip m e h =
    subst (λ d. insert_new d p m ip ≡ (if ip == dest then some p else m ip)) (sym e)
      (rw (insert_new, h) refl)

-- After the addition.
pub record Created (dest other : ℕ) (seen : List (ℕ × Verdict) × List PacketObj) (p : ℕ)
    (s : MshData) : Type 0 where
  pub settled : settled_and_waiting s ≡ delivered dest seen
  pub found : routing_table_find_by_ip dest s ≡ some p
  pub missed : other ≢ dest → routing_table_find_by_ip other s ≡ none
  pub kernel : (k : ℕ) → add_failed (s.add_results k) ≡ false

module _ (dest other : ℕ) (seen : List (ℕ × Verdict) × List PacketObj) where
  absent :
      (p : ℕ) (s : MshData)
      → Entering dest other seen p s
      → routing_table_find (s.routes p) rtfind_by_dest_longest_prefix_matching s ≡ none
  absent p s h =
      find-first_to (s.routes p) s h.ready.table.host
      ∙ none_first s.routes (s.routes p).dst_ip s.routing_table h.ready.none_to

  kernel_after :
      (p : ℕ) (s : MshData)
      → Entering dest other seen p s
      → (after (routing_table_add p) s).add_results ≡ (λ n. s.add_results (n + 1))
  unfolding routing_table_add ◌>>=◌ route_at gets new_ptr add_to_kernel if_found routing_table_find
  kernel_after p s h = rw (absent p s h) (
      rw (h.waits.kernel 0)
        (unfold choose in (enter_adds (λ n. s.add_results (n + 1)) p s.next_ptr).at _ refl))

  find_after :
      (p ip : ℕ) (s : MshData)
      → Entering dest other seen p s
      → routing_table_find_by_ip ip (after (routing_table_add p) s)
        ≡ (if ip == dest then some p else routing_table_find_by_ip ip s)
  find_after p ip s h =
      let none_there : routing_table_find_by_ip dest s ≡ none =
        find_by_ip-first_to dest s h.ready.table.host
        ∙ none_first s.routes dest s.routing_table h.waits.none_to in
      routing_table_add-insert p ip s h.ready.table.host h.ready.host
      ∙ rw (h.waits.kernel 0) (inserted (s.routes p).dst_ip dest p ip (view s) h.dst none_there)

  addition :
      (p : ℕ)
      → Leads (Entering dest other seen p) (λ _. Created dest other seen p) (routing_table_add p)
  addition p = record {
    ends = λ s h. record {
      settled = (added dest other seen p).ends s h;
      found = find_after p dest s h ∙ ground arith;
      missed = λ differs.
          find_after p other s h
          ∙ rw (==_ne other dest differs) (
              find_by_ip-first_to other s h.ready.table.host
              ∙ none_first s.routes other s.routing_table h.waits.none_other);
      kernel = λ k. rw (kernel_after p s h) (h.waits.kernel (k + 1));
    };
  }

  pub create_prev_hop-Created :
      Leads (Waits dest other seen) (λ p. Created dest other seen p) (create_prev_hop dest)
  unfolding create_prev_hop
  create_prev_hop-Created = Leads-bind _ _ (allocated dest other seen) λ p.
      Leads-bind _ _ (set_dst dest other seen p) λ _.
        Leads-after _ _ (Steady-Entering dest other seen p _ (next_hop-Steady p dest)) λ _.
          Leads-after _ _
            (Steady-Entering dest other seen p _ (write-Steady p _ (search key_rules)))
            λ _. Leads-bind _ _ (addition p) λ _. Leads-pure _ λ s h. h
