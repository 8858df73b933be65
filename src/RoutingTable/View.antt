-- ===== src/RoutingTable/View.antt =====
-- The routing table as a map from destinations to routes.
use meshias.Base.{
  ℕ, ◌==◌, ◌≡◌, refl, sym, subst, ◌∙◌, ap, Bool, true, false, Option, none, some, List, [], ◌∷◌,
  if◌then◌else◌, All-map, pos, negsuc, ℤ,
}
use meshias.Route.{MshRoute, rtfind_by_dest_longest_prefix_matching}
use meshias.State.{MshData, RtnlRoute, route_at, new_ptr}
use meshias.RoutingTable
use meshias.RoutingTable.{
  routing_table_find, routing_table_find_by_ip, routing_table_add, enter_route, add_to_kernel,
  add_failed,
}
use meshias.RoutingTable.Find.{AllHost, first_to, find_by_ip-first_to, find-first_to}
use meshias.RoutingTable.Adding.{routing_table_add-result}
use meshias.Act.{Act, after}
use meshias.Act.Keeps.{Keeps, Keeps-bind, Keeps-pure, keeps_rules}
use meshias.Invariant.Key.{key_rules}
use meshias.Invariant.Keys.{
  SameKeys, SameKeys-refl, write-Same, read-Same, address-Same, kernel-Same, set_lifetime-Same,
  process_route-Same,
}

abbrev pub RouteMap : Type 0
RouteMap = ℕ → Option ℕ

-- What the daemon finds.
abbrev pub view : MshData → RouteMap
view s ip = routing_table_find_by_ip ip s

-- A new key with its route; an old key keeps the one that it has.
abbrev pub insert_new : ℕ → ℕ → RouteMap → RouteMap
insert_new dst p m ip = elim (m dst) [ some q ↦ m ip | none ↦ if ip == dst then some p else m ip ]

-- No route of the heap changes its key.
pub record SameHeap (start s : MshData) : Type 0 where
  pub dst_ip : (q : ℕ) → (s.routes q).dst_ip ≡ (start.routes q).dst_ip
  pub prefix_sz : (q : ℕ) → (s.routes q).prefix_sz ≡ (start.routes q).prefix_sz

module _ (start : MshData) where
  keyed :
      {A : Type 0} (m : Act MshData A)
      → ((s : MshData) → Keeps (SameKeys s) m)
      → Keeps (SameHeap start) m
  keyed m same = record {
    at = λ s h.
        let k = (same s).at s (SameKeys-refl s) in
        record {
          dst_ip = λ q. k.dst_ip q ∙ h.dst_ip q;
          prefix_sz = λ q. k.prefix_sz q ∙ h.prefix_sz q;
        };
  }

  link-SameHeap : (p : ℕ) → Keeps (SameHeap start) (RoutingTable.list_add p)
  unfolding RoutingTable.list_add
  link-SameHeap p = record { at = λ s h. record { dst_ip = h.dst_ip; prefix_sz = h.prefix_sz } }

  enter-SameHeap : (p nlroute : ℕ) → Keeps (SameHeap start) (enter_route p nlroute)
  unfolding enter_route
  enter-SameHeap p nlroute = Keeps-bind _ _ (keyed _ λ s. search (key_rules, write-Same)) λ _.
      Keeps-bind _ _ (keyed _ λ s. set_lifetime-Same s p _) λ _.
        Keeps-bind _ _ (keyed _ λ s. search (key_rules, write-Same)) λ _.
          Keeps-bind _ _ (link-SameHeap p)
            λ _. Keeps-bind _ _ (keyed _ λ s. process_route-Same s p) λ _. Keeps-pure _

  read-SameHeap : (p : ℕ) → Keeps (SameHeap start) (route_at p)
  read-SameHeap p = keyed _ λ s. read-Same s p

  address-SameHeap : Keeps (SameHeap start) new_ptr
  address-SameHeap = keyed _ address-Same

  kernel-SameHeap : (n : ℕ) (r : RtnlRoute) → Keeps (SameHeap start) (add_to_kernel n r)
  kernel-SameHeap n r = keyed _ λ s. kernel-Same s n r

  add-SameHeap : (p : ℕ) → Keeps (SameHeap start) (routing_table_add p)
  unfolding routing_table_add
  add-SameHeap p =
      search (keeps_rules, read-SameHeap, address-SameHeap, kernel-SameHeap, enter-SameHeap) depth
        20

pub first_to-same :
    (old new : ℕ → MshRoute) (ip : ℕ) (table : List ℕ)
    → ((q : ℕ) → (new q).dst_ip ≡ (old q).dst_ip)
    → first_to new ip table ≡ first_to old ip table
first_to-same old new ip [] same = refl
first_to-same old new ip (q ∷ rest) same = rw (same q, first_to-same old new ip rest same) refl

-- The table that an addition leaves, by what was found and what the kernel said.
abbrev table_after : Option ℕ → Bool → ℕ → List ℕ → List ℕ
table_after (some q) failed p table = table
table_after none true p table = table
table_after none false p table = p ∷ table

outcome_table :
    (found : Option ℕ) (failed : Bool) (p : ℕ) (table : List ℕ)
    → (elim found as (λ _. ℤ × List ℕ) [
      | some q ↦ (pos 1, table)
      | none ↦ if failed then (negsuc 0, table) else (pos 0, p ∷ table)
    ]).1
      ≡ table_after found failed p table
outcome_table (some q) failed p table = refl
outcome_table none true p table = refl
outcome_table none false p table = refl

table_after-AllHost :
    (found : Option ℕ) (failed : Bool) (routes : ℕ → MshRoute) (p : ℕ) (table : List ℕ)
    → (routes p).prefix_sz ≡ 0
    → AllHost routes table
    → AllHost routes (table_after found failed p table)
table_after-AllHost (some q) failed routes p table host all = all
table_after-AllHost none true routes p table host all = all
table_after-AllHost none false routes p table host all = (host, all)

-- The same as a map.
map_after :
    (found : Option ℕ) (failed : Bool) (routes : ℕ → MshRoute) (p ip : ℕ) (table : List ℕ)
    (m : RouteMap)
    → m (routes p).dst_ip ≡ found
    → m ip ≡ first_to routes ip table
    → first_to routes ip (table_after found failed p table)
      ≡ (if failed then m else insert_new (routes p).dst_ip p m) ip
map_after (some q) true routes p ip table m known same = sym same
map_after none true routes p ip table m known same = sym same
map_after (some q) false routes p ip table m known same = rw (insert_new, known) (sym same)
map_after none false routes p ip table m known same =
    rw (insert_new, known) (ap (λ o. if ip == (routes p).dst_ip then some p else o) (sym same))

-- In a table of host routes an addition of a host route is, for whoever looks routes up, the insertion
-- of a new key into a map: it does nothing where the kernel refuses the route or the destination has a
-- route already, and otherwise the destination has the new route and every other one what it had.
pub routing_table_add-insert :
    (p ip : ℕ) (s : MshData)
    → AllHost s.routes s.routing_table
    → (s.routes p).prefix_sz ≡ 0
    → view (after (routing_table_add p) s) ip
      ≡ (if add_failed (s.add_results 0) then view s else insert_new (s.routes p).dst_ip p (view s))
          ip
routing_table_add-insert p ip s all host =
    let t = after (routing_table_add p) s in
    let found = routing_table_find (s.routes p) rtfind_by_dest_longest_prefix_matching s in
    let failed = add_failed (s.add_results 0) in
    let heap = (add-SameHeap s p).at s (record { dst_ip = λ q. refl; prefix_sz = λ q. refl }) in
    let table : t.routing_table ≡ table_after found failed p s.routing_table =
      ap (λ (o : ℤ × List ℕ). o.1) (routing_table_add-result p s)
      ∙ outcome_table found failed p s.routing_table in
    let hosts =
      All-map (λ q e. heap.prefix_sz q ∙ e) (table_after found failed p s.routing_table)
        (table_after-AllHost found failed s.routes p s.routing_table host all) in
    find_by_ip-first_to ip t (subst (AllHost t.routes) (sym table) hosts)
    ∙ first_to-same s.routes t.routes ip t.routing_table heap.dst_ip
    ∙ ap (first_to s.routes ip) table
    ∙ map_after found failed s.routes p ip s.routing_table (view s)
        (find_by_ip-first_to (s.routes p).dst_ip s all ∙ sym (find-first_to (s.routes p) s all))
        (find_by_ip-first_to ip s all)
