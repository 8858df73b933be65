-- ===== src/RoutingTable/Find.antt =====
-- The search of the routing table, for tables of host routes (`prefix_sz` is 0, and nothing in the
-- daemon sets it otherwise).
use meshias.Base.{
  ℕ, ◌==◌, ◌≡◌, refl, Option, none, some, List, [], ◌∷◌, if◌then◌else◌, arith, All, pos,
}
use meshias.Route.{MshRoute, msh_route_compare, rtfind_by_dest_longest_prefix_matching}
use meshias.Route.Compare.{compare-host}
use meshias.State.{MshData, route_at}
use meshias.RoutingTable.{
  find_in, routing_table_find, routing_table_find_by_ip, routing_table_del, DelResult, returns,
  null_dereference,
}
use meshias.Act.{pure, ◌>>=◌, if_found}

-- The routes of a list have no prefix.
abbrev pub AllHost : (ℕ → MshRoute) → List ℕ → Type 0
AllHost routes = All (λ p. (routes p).prefix_sz ≡ 0)

-- The first route to an address.
abbrev pub first_to : (ℕ → MshRoute) → ℕ → List ℕ → Option ℕ
first_to routes ip [] = none
first_to routes ip (p ∷ rest) = if ip == (routes p).dst_ip then some p else first_to routes ip rest

matches :
    (route entry : MshRoute)
    → entry.prefix_sz ≡ 0
    → (msh_route_compare route entry rtfind_by_dest_longest_prefix_matching == 0)
      ≡ (route.dst_ip == entry.dst_ip)
matches route entry h = ground (arith, compare-host route entry h)

find_in-first_to :
    (routes : ℕ → MshRoute) (route : MshRoute) (table : List ℕ)
    → AllHost routes table
    → find_in routes route rtfind_by_dest_longest_prefix_matching table
      ≡ first_to routes route.dst_ip table
unfolding find_in
find_in-first_to routes route [] h = refl
find_in-first_to routes route (p ∷ rest) h =
    rw (matches route (routes p) h.0, find_in-first_to routes route rest h.1)

-- In a table of host routes the search by an address finds the first route to just that address, or
-- none.
pub find_by_ip-first_to :
    (ip : ℕ) (s : MshData)
    → AllHost s.routes s.routing_table
    → routing_table_find_by_ip ip s ≡ first_to s.routes ip s.routing_table
unfolding routing_table_find_by_ip
find_by_ip-first_to ip s h = find_in-first_to s.routes _ s.routing_table h

pub find-first_to :
    (route : MshRoute) (s : MshData)
    → AllHost s.routes s.routing_table
    → routing_table_find route rtfind_by_dest_longest_prefix_matching s
      ≡ first_to s.routes route.dst_ip s.routing_table
unfolding routing_table_find
find-first_to route s h = find_in-first_to s.routes route s.routing_table h

-- What a deletion comes to, by the routes in the table.
abbrev pub deletion : List ℕ → DelResult
deletion [] = null_dereference
deletion (q ∷ rest) = returns (pos 1)

found_any :
    (routes : ℕ → MshRoute) (route : MshRoute) (table : List ℕ) (s : MshData)
    → if_found
        (find_in routes route 0 table)
        (λ _. pure (returns (pos 1)))
        (pure null_dereference)
        s
      ≡ (deletion table, s)
unfolding find_in if_found pure msh_route_compare
found_any routes route [] s = refl
found_any routes route (q ∷ rest) s = refl

-- `routing_table_del` removes nothing and asks nothing of the kernel: on a table with a route it
-- returns 1, and on an empty one it reads through a null pointer.
pub routing_table_del_exact :
    (p : ℕ) (s : MshData) → routing_table_del p s ≡ (deletion s.routing_table, s)
unfolding routing_table_del routing_table_find route_at ◌>>=◌
routing_table_del_exact p s = found_any s.routes (s.routes p) s.routing_table s
