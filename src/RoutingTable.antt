-- ===== src/RoutingTable.antt =====
-- meshias_daemon/routing_table.c. A route is known by its address on the heap of `MshData`.
pub mod Find
pub mod Adding
pub mod View
pub mod Removal
use meshias.Base.{
  ℕ, ◌+◌, ◌==◌, ◌!=◌, Bool, true, false, not, ◌&&◌, Option, none, some, List, [], ◌∷◌,
  if◌then◌else◌, ℤ, pos, negsuc, ltb_ℤ, eqb_ℤ,
}
use meshias.Word.{u32}
use meshias.Config.{active_route_timeout}
use meshias.Route.{
  MshRoute, msh_route_alloc, msh_route_set_dst_ip, msh_route_compare, test_flag,
  rtfind_by_dest_longest_prefix_matching, rtflag_valid_entry, rtflag_has_nexthop,
  msh_route_set_rtnl_route, msh_route_set_updated_callback,
}
use meshias.Route.Ops.{msh_route_set_lifetime}
use meshias.State.{
  MshData, RtnlRoute, Statistics, rtnl_route_add, route_at, update_route, new_ptr, bump,
}
use meshias.PacketsFifo.{packets_fifo_process_route}
use meshias.Act.{Act, pure, gets, ◌>>=◌, ◌>>◌, choose, when, if_found}

-- The loop of `routing_table_find`, from the head of the list.
unfoldable pub find_in : (ℕ → MshRoute) → MshRoute → ℕ → List ℕ → Option ℕ
find_in routes route attr_flags [] = none
find_in routes route attr_flags (entry ∷ rest) =
    if msh_route_compare route (routes entry) attr_flags == 0
    then some entry
    else find_in routes route attr_flags rest

unfoldable pub routing_table_find : MshRoute → ℕ → MshData → Option ℕ
unfolding find_in
routing_table_find route attr_flags s = find_in s.routes route attr_flags s.routing_table

unfoldable pub routing_table_find_by_ip : ℕ → MshData → Option ℕ
unfolding routing_table_find msh_route_set_dst_ip
routing_table_find_by_ip addr =
    routing_table_find (msh_route_set_dst_ip addr msh_route_alloc)
      rtfind_by_dest_longest_prefix_matching

-- The libnl object that `routing_table_add` fills in.
unfoldable pub make_rtnl_route : ℕ → MshRoute → RtnlRoute
unfolding test_flag
make_rtnl_route net_iface route = record {
  oif = net_iface;
  dst = route.dst_ip;
  dst_len = route.prefix_sz;
  gateway =
      if test_flag rtflag_has_nexthop route && route.dst_ip != route.next_hop
      then some route.next_hop
      else none;
}

-- `rtnl_route_add`
unfoldable pub add_to_kernel : ℕ → RtnlRoute → Act MshData ℤ
add_to_kernel nlroute attributes s = (
  s.add_results 0,
  record s {
    trace = rtnl_route_add nlroute attributes ∷ s.trace;
    add_results = λ n. s.add_results (n + 1);
  },
)

unfoldable pub list_add : ℕ → Act MshData Unit
list_add p s = (tt, record s { routing_table = p ∷ s.routing_table })

-- A negative result other than -17, which says that the kernel has the route already.
abbrev pub add_failed : ℤ → Bool
add_failed errno = ltb_ℤ errno (pos 0) && not (eqb_ℤ errno (negsuc 16))

-- What `routing_table_add` does once the kernel has the route.
unfoldable pub enter_route : ℕ → ℕ → Act MshData ℤ
enter_route p nlroute = do
  update_route p (msh_route_set_rtnl_route (some nlroute))
  msh_route_set_lifetime p active_route_timeout
  update_route p (msh_route_set_updated_callback true 0)
  list_add p
  packets_fifo_process_route p
  pure (pos 0)

unfoldable pub routing_table_add : ℕ → Act MshData ℤ
unfolding enter_route
routing_table_add p = do
  route ← route_at p
  found ← gets (routing_table_find route rtfind_by_dest_longest_prefix_matching)
  if_found found (λ _. pure (pos 1))
      do
        nlroute ← new_ptr
        net_iface ← gets (λ s. s.net_iface)
        errno ← add_to_kernel nlroute (make_rtnl_route net_iface route)
        choose (add_failed errno) (pure (negsuc 0)) (enter_route p nlroute)

pub data DelResult : Type 0 where
  returns : ℤ → DelResult
  null_dereference : DelResult

-- The test is `found != 0`, so what follows it reads `found->flags` through a null pointer.
unfoldable pub routing_table_del : ℕ → Act MshData DelResult
routing_table_del p = do
  route ← route_at p
  found ← gets (routing_table_find route 0)
  if_found found (λ _. pure (returns (pos 1))) (pure null_dereference)

-- Reset the lifetime of a route and of the route to its next hop.
unfoldable pub refresh : ℕ → ℕ → Act MshData Unit
refresh p ip = do
  msh_route_set_lifetime p active_route_timeout
  route ← route_at p
  when (route.next_hop != ip) do
    found ← gets (routing_table_find_by_ip route.next_hop)
    if_found found (λ q. msh_route_set_lifetime q active_route_timeout) (pure tt)

abbrev pub count_invalid : Statistics → Statistics
count_invalid stats = record stats { invalid_route = u32 (stats.invalid_route + 1) }

-- The part of `routing_table_update_route` about the destination: is the packet's way known?
unfoldable pub update_destination : ℕ → Act MshData Bool
unfolding refresh
update_destination dst_ip = do
  found ← gets (routing_table_find_by_ip dst_ip)
  if_found found
      (λ p. do
        route ← route_at p
        choose (not (test_flag rtflag_valid_entry route)) (do bump count_invalid; pure false)
            (do refresh p dst_ip; pure true))
      (pure false)

-- The part about the originator, whose address 0 stands for none.
unfoldable pub update_origin : ℕ → Act MshData Unit
unfolding refresh
update_origin orig_ip = when (orig_ip != 0) do
  found ← gets (routing_table_find_by_ip orig_ip)
  if_found found (λ p. refresh p orig_ip) (pure tt)

-- The assignment `invalid_route = &dst_route` sets the parameter and not what it points to, so the
-- caller's pointer stays null and there is nothing to return but the number.
unfoldable pub routing_table_update_route : ℕ → ℕ → Act MshData Bool
unfolding update_destination update_origin
routing_table_update_route dst_ip orig_ip = do
  ip_addr ← gets (λ s. s.ip_addr)
  known ← choose (dst_ip != ip_addr) (update_destination dst_ip) (pure true)
  choose known (do update_origin orig_ip; pure true) (pure false)

-- The loop of `routing_table_foreach`.
unfoldable pub foreach : (ℕ → Act MshData Unit) → List ℕ → Act MshData Unit
foreach callback_func [] = pure tt
foreach callback_func (entry ∷ rest) = do callback_func entry; foreach callback_func rest

unfoldable pub routing_table_foreach : (ℕ → Act MshData Unit) → Act MshData Unit
unfolding foreach
routing_table_foreach callback_func = do
  table ← gets (λ s. s.routing_table)
  foreach callback_func table
