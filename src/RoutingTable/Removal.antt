-- ===== src/RoutingTable/Removal.antt =====
-- The end of a route, as a removal from the map of routes.
use meshias.Base.{
  ℕ, ◌==◌, ◌≡◌, refl, sym, subst, ◌∙◌, ap, true, none, some, List, [], ◌∷◌, if◌then◌else◌, All-map,
  arith,
}
use meshias.Route.{MshRoute, msh_route_set_rtnl_route}
use meshias.Route.Ops.{
  list_del, unlink, action_destroy, routing_table_route_updated_cb, msh_route_updated,
  msh_route_destroy,
}
use meshias.Alarm.{route_alarm}
use meshias.State.{MshData, rtnl_route_del, route_at, update_route, emit, clear_alarm}
use meshias.RoutingTable.Find.{AllHost, first_to, find_by_ip-first_to}
use meshias.RoutingTable.View.{RouteMap, view, SameHeap, first_to-same}
use meshias.Act.{Act, after, ◌>>=◌}
use meshias.Act.Branch.{when-true}
use meshias.Act.Keeps.{Keeps, keeps_rules}
use meshias.Act.Leads.{Leads, Leads-bind, Keeps-Leads}
use meshias.Invariant.Key.{key_rules}
use meshias.Invariant.Keys.{SameKeys, SameKeys-refl, write-Same, read-Same, emit-Same, clear-Same}
use meshias.Invariant.Table.{NoneTo, DistinctTo, TableOk, unlink-TableOk}

abbrev pub remove_key : ℕ → RouteMap → RouteMap
remove_key dst m ip = if ip == dst then none else m ip

module _ (routes : ℕ → MshRoute) (ip : ℕ) where
  first_to-none : (table : List ℕ) → NoneTo routes ip table → first_to routes ip table ≡ none
  first_to-none [] h = refl
  first_to-none (q ∷ rest) h = ground (arith, h.0, first_to-none rest h.1)

  first_to-list_del :
      (p : ℕ) (table : List ℕ)
      → DistinctTo routes table
      → first_to routes (routes p).dst_ip table ≡ some p
      → first_to routes ip (list_del p table)
        ≡ (if ip == (routes p).dst_ip then none else first_to routes ip table)
  unfolding list_del
  first_to-list_del p [] distinct found = cc
  first_to-list_del p (q ∷ rest) distinct found =
      ground (arith, found, distinct.0, first_to-none rest, first_to-list_del p rest distinct.1)

record Leaves (start : MshData) (left : List ℕ) (s : MshData) : Type 0 where
  pub heap : SameHeap start s
  pub table : s.routing_table ≡ left

module _ (start : MshData) (left : List ℕ) where
  left_alone :
      {A : Type 0} (m : Act MshData A)
      → ((s : MshData) → Keeps (SameKeys s) m)
      → Keeps (Leaves start left) m
  left_alone m same = record {
    at = λ s h.
        let k = (same s).at s (SameKeys-refl s) in
        record {
          heap = record {
            dst_ip = λ q. k.dst_ip q ∙ h.heap.dst_ip q;
            prefix_sz = λ q. k.prefix_sz q ∙ h.heap.prefix_sz q;
          };
          table = k.table ∙ h.table;
        };
  }

  read-Leaves : (p : ℕ) → Keeps (Leaves start left) (route_at p)
  read-Leaves p = left_alone _ λ s. read-Same s p

  forget-Leaves :
      (p : ℕ) → Keeps (Leaves start left) (update_route p (msh_route_set_rtnl_route none))
  forget-Leaves p = left_alone _ λ s. search (key_rules, write-Same)

  kernel-Leaves : (n : ℕ) → Keeps (Leaves start left) (emit (rtnl_route_del n))
  kernel-Leaves n = left_alone _ λ s. emit-Same s _

  alarm-Leaves : (p : ℕ) → Keeps (Leaves start left) (clear_alarm (route_alarm p))
  alarm-Leaves p = left_alone _ λ s. clear-Same s _

module _ (start : MshData) (p : ℕ) where
  unlink_lem :
      (left : List ℕ) → Leads (Leaves start left) (λ _. Leaves start (list_del p left)) (unlink p)
  unfolding unlink
  unlink_lem left = record {
    ends = λ s h. record {
      heap = record { dst_ip = h.heap.dst_ip; prefix_sz = h.heap.prefix_sz };
      table = ap (list_del p) h.table;
    };
  }

  callback_lem :
      (left : List ℕ)
      → Leads
          (Leaves start left)
          (λ _. Leaves start (list_del p left))
          (routing_table_route_updated_cb p action_destroy)
  unfolding routing_table_route_updated_cb
  callback_lem left =
      Leads-bind _ _ (unlink_lem left) λ _.
        Keeps-Leads _ (search (keeps_rules, read-Leaves, forget-Leaves, kernel-Leaves) depth 20)

destroy_lem :
    (p : ℕ) (s : MshData)
    → (s.routes p).updated_cb ≡ true
    → Leaves s (list_del p s.routing_table) (after (msh_route_destroy p) s)
unfolding msh_route_destroy msh_route_updated route_at ◌>>=◌
destroy_lem p s linked =
    let called =
      (callback_lem s p s.routing_table).ends s
        (record { heap = record { dst_ip = λ q. refl; prefix_sz = λ q. refl }; table = refl }) in
    (alarm-Leaves s (list_del p s.routing_table) p).at _ (
      subst (λ (m : Act MshData Unit). Leaves s (list_del p s.routing_table) (after m s))
        (sym (
          when-true (s.routes p).updated_cb (routing_table_route_updated_cb p action_destroy)
            linked))
        called)

-- In a well-formed table the end of a route that the daemon finds, and whose callback is set, is the
-- removal of its destination from a map: nothing is found there any more, and every other destination
-- keeps its route.
pub msh_route_destroy-remove :
    (p ip : ℕ) (s : MshData)
    → TableOk s
    → view s (s.routes p).dst_ip ≡ some p
    → (s.routes p).updated_cb ≡ true
    → view (after (msh_route_destroy p) s) ip ≡ remove_key (s.routes p).dst_ip (view s) ip
unfolding unlink
msh_route_destroy-remove p ip s ok found linked =
    let t = after (msh_route_destroy p) s in
    let end = destroy_lem p s linked in
    let hosts = ((unlink-TableOk p).at s ok).host in
    find_by_ip-first_to ip t (
      subst (AllHost t.routes) (sym end.table)
        (All-map (λ q e. end.heap.prefix_sz q ∙ e) (list_del p s.routing_table) hosts))
    ∙ first_to-same s.routes t.routes ip t.routing_table end.heap.dst_ip
    ∙ ap (first_to s.routes ip) end.table
    ∙ first_to-list_del s.routes ip p s.routing_table ok.distinct
        (sym (find_by_ip-first_to (s.routes p).dst_ip s ok.host) ∙ found)
    ∙ ap (λ o. if ip == (s.routes p).dst_ip then none else o)
        (sym (find_by_ip-first_to ip s ok.host))
