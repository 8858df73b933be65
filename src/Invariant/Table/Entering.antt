-- ===== src/Invariant/Table/Entering.antt =====
-- A route enters the table only where the table has none to its address.
use meshias.Base.{ℕ, negsuc, ◌≡◌, ◌≢◌, sym, ◌∙◌, none, List, [], ◌∷◌, arith, All, All-map}
use meshias.Route.{
  MshRoute, msh_route_alloc, rtfind_by_dest_longest_prefix_matching, msh_route_set_dst_ip,
}
use meshias.State.{MshData, put, update_route, route_at, new_ptr, new_route}
use meshias.RoutingTable
use meshias.RoutingTable.{
  enter_route, routing_table_add, routing_table_find, add_to_kernel, make_rtnl_route, add_failed,
}
use meshias.RoutingTable.Find.{AllHost, first_to, find-first_to}
use meshias.Packet.{AodvRreq, AodvRrep}
use meshias.Logic.Rreq.{add_prev_hop, add_orig}
use meshias.Logic.Rrep.{create_prev_hop, create_dest}
use meshias.Act.{Act, pure, gets, ◌>>=◌, ◌>>◌, choose}
use meshias.Act.Branch.{found-if}
use meshias.Act.Keeps.{Keeps, Keeps-gets}
use meshias.Act.Leads.{Leads, Leads-bind, Leads-after, Leads-pure, Leads-choose}
use meshias.Route.Ops.{msh_route_set_lifetime, msh_route_set_next_hop}
use meshias.Invariant.Steps.{KeepsKey}
use meshias.Invariant.Key.{key_rules}
use meshias.Invariant.Keys.{
  SameKeys, SameKeys-refl, write-Same, address-Same, kernel-Same, set_lifetime-Same, next_hop-Same,
  process_route-Same,
}
use meshias.Invariant.Table.{
  NoneTo, DistinctTo, TableOk, Ready, Fresh, TableOk-same, Ready-same, Fresh-same,
}

module _ {A : Type 0} (m : Act MshData A)
    (same : (start : MshData) → Keeps (SameKeys start) m) where
  pub still_TableOk : Keeps TableOk m
  still_TableOk = record { at = λ s h. TableOk-same s _ ((same s).at s (SameKeys-refl s)) h }

  still_Ready : (p : ℕ) → Keeps (Ready p) m
  still_Ready p = record { at = λ s h. Ready-same p s _ ((same s).at s (SameKeys-refl s)) h }

  still_Fresh : (p : ℕ) → Keeps (Fresh p) m
  still_Fresh p = record { at = λ s h. Fresh-same p s _ ((same s).at s (SameKeys-refl s)) h }

enters : (p : ℕ) → Leads (Ready p) (λ _. TableOk) (RoutingTable.list_add p)
unfolding RoutingTable.list_add
enters p = record {
  ends = λ s h. record {
    host = (h.host, h.table.host);
    distinct = (h.none_to, h.table.distinct);
    allocated = (h.below, h.table.allocated);
  };
}

enter-TableOk : (p nlroute : ℕ) → Leads (Ready p) (λ _. TableOk) (enter_route p nlroute)
unfolding enter_route
enter-TableOk p nlroute =
    Leads-after _ _ (still_Ready _ (λ start. search (key_rules, write-Same)) p) λ _.
      Leads-after _ _ (still_Ready _ (λ start. set_lifetime-Same start p _) p) λ _.
        Leads-after _ _ (still_Ready _ (λ start. search (key_rules, write-Same)) p) λ _.
          Leads-bind _ _ (enters p) λ _.
            Leads-after _ _ (still_TableOk _ λ start. process_route-Same start p)
              λ _. Leads-pure _ λ s h. h

-- What is left of `routing_table_add` where the table has no route to the address.
kernel_first :
    (p : ℕ) (route : MshRoute)
    → Leads
        (Ready p)
        (λ _. TableOk)
        do
          nlroute ← new_ptr
          net_iface ← gets (λ s. s.net_iface)
          errno ← add_to_kernel nlroute (make_rtnl_route net_iface route)
          choose (add_failed errno) (pure (negsuc 0)) (enter_route p nlroute)
kernel_first p route = Leads-after _ _ (still_Ready _ address-Same p) λ nlroute.
    Leads-after _ _ (still_Ready _ (λ start. Keeps-gets _) p) λ iface.
      Leads-after _ _ (still_Ready _ (λ start. kernel-Same start _ _) p)
        λ errno. Leads-choose _ _ _ (Leads-pure _ λ s h. h.table) (enter-TableOk p nlroute)

pub none_listed :
    (routes : ℕ → MshRoute) (ip : ℕ) (l : List ℕ) → first_to routes ip l ≡ none → NoneTo routes ip l
none_listed routes ip [] h = tt
none_listed routes ip (p ∷ rest) h = ground (arith, none_listed routes ip rest)

-- Writing a route that is not listed.
module _ (routes : ℕ → MshRoute) (p : ℕ) (r : MshRoute) where
  AllHost-put : (l : List ℕ) → All (λ q. q ≢ p) l → AllHost routes l → AllHost (put routes p r) l
  AllHost-put [] u h = tt
  AllHost-put (q ∷ rest) u h = ground (arith, AllHost-put rest u.1 h.1)

  pub NoneTo-put :
      (ip : ℕ) (l : List ℕ) → All (λ q. q ≢ p) l → NoneTo routes ip l → NoneTo (put routes p r) ip l
  NoneTo-put ip [] u h = tt
  NoneTo-put ip (q ∷ rest) u h = ground (arith, NoneTo-put ip rest u.1 h.1)

  DistinctTo-put :
      (l : List ℕ) → All (λ q. q ≢ p) l → DistinctTo routes l → DistinctTo (put routes p r) l
  DistinctTo-put [] u h = tt
  DistinctTo-put (q ∷ rest) u h =
      ground (arith, NoneTo-put (routes q).dst_ip rest u.1 h.0, DistinctTo-put rest u.1 h.1)

adds : (p : ℕ) → Leads (Fresh p) (λ _. TableOk) (routing_table_add p)
unfolding routing_table_add ◌>>=◌ route_at gets
adds p = record {
  ends = λ s h.
      found-if (routing_table_find (s.routes p) rtfind_by_dest_longest_prefix_matching s) _ _ s
        TableOk (λ q _. h.table)
        λ absent. (kernel_first p (s.routes p)).ends s (record {
          table = h.table;
          host = h.host;
          below = h.below;
          none_to =
              none_listed s.routes (s.routes p).dst_ip s.routing_table
                (sym (find-first_to (s.routes p) s h.table.host) ∙ absent);
        });
}

pub allocates : Leads TableOk Fresh new_route
unfolding new_route
allocates = record {
  ends = λ s h.
      let u = All-map (λ q b. λ e. omega (arith, b, e)) s.routing_table h.allocated in
      record {
        table = record {
          host = AllHost-put s.routes s.next_ptr msh_route_alloc s.routing_table u h.host;
          distinct =
              DistinctTo-put s.routes s.next_ptr msh_route_alloc s.routing_table u h.distinct;
          allocated = All-map (λ q b. omega (arith, b)) s.routing_table h.allocated;
        };
        host = ground arith;
        below = omega arith;
        unlisted = u;
      };
}

pub set_dst-Fresh : (p ip : ℕ) → Keeps (Fresh p) (update_route p (msh_route_set_dst_ip ip))
unfolding update_route msh_route_set_dst_ip
set_dst-Fresh p ip = record {
  at = λ s h. record {
    table = record {
      host = AllHost-put s.routes p _ s.routing_table h.unlisted h.table.host;
      distinct = DistinctTo-put s.routes p _ s.routing_table h.unlisted h.table.distinct;
      allocated = h.table.allocated;
    };
    host = ground (arith, h.host);
    below = h.below;
    unlisted = h.unlisted;
  };
}

-- Setting up a fresh route, one write after the other.
module _ (p : ℕ) where
  write-Fresh : (f : MshRoute → MshRoute) → KeepsKey f → Keeps (Fresh p) (update_route p f)
  write-Fresh f k = still_Fresh _ (λ start. write-Same start p f k) p

  next_hop-Fresh : (ip : ℕ) → Keeps (Fresh p) (msh_route_set_next_hop p ip)
  next_hop-Fresh ip = still_Fresh _ (λ start. next_hop-Same start p ip) p

  lifetime-Fresh : (lifetime : ℕ) → Keeps (Fresh p) (msh_route_set_lifetime p lifetime)
  lifetime-Fresh lifetime = still_Fresh _ (λ start. set_lifetime-Same start p lifetime) p

  added_result :
      {A : Type 0} (a : A) → Leads (Fresh p) (λ _. TableOk) (routing_table_add p >> pure a)
  added_result a = Leads-bind _ _ (adds p) λ _. Leads-pure a λ s h. h

ruleset fresh_rules = (
  Leads-after, added_result, write-Fresh, next_hop-Fresh, lifetime-Fresh, set_dst-Fresh, key_rules,
)

Leads-Keeps : {A : Type 0} (m : Act MshData A) → Leads TableOk (λ _. TableOk) m → Keeps TableOk m
Leads-Keeps m l = record { at = l.ends }

pub add_prev_hop-TableOk : (ip : ℕ) → Keeps TableOk (add_prev_hop ip)
unfolding add_prev_hop
add_prev_hop-TableOk ip = Leads-Keeps _ (Leads-bind _ _ allocates λ p. search fresh_rules depth 20)

pub create_prev_hop-TableOk : (ip : ℕ) → Keeps TableOk (create_prev_hop ip)
unfolding create_prev_hop
create_prev_hop-TableOk ip =
    Leads-Keeps _ (Leads-bind _ _ allocates λ p. search fresh_rules depth 20)

pub add_orig-TableOk : (ip : ℕ) (rreq : AodvRreq) (l : ℕ) → Keeps TableOk (add_orig ip rreq l)
unfolding add_orig
add_orig-TableOk ip rreq l =
    Leads-Keeps _ (Leads-bind _ _ allocates λ p. search fresh_rules depth 30)

pub create_dest-TableOk : (ip : ℕ) (rrep : AodvRrep) → Keeps TableOk (create_dest ip rrep)
unfolding create_dest
create_dest-TableOk ip rrep =
    Leads-Keeps _ (Leads-bind _ _ allocates λ p. search fresh_rules depth 30)
