-- ===== src/Route/Compare.antt =====
-- Laws of the flags, of the comparison and of the precursor list of a route.
use meshias.Base.{◌≡◌, ◌↔◌, refl, arith}
use meshias.Route.{MshRoute, msh_route_compare, rtfind_by_dest_longest_prefix_matching}

-- With no prefix the search attribute compares whole addresses.
pub compare-host :
    (first second : MshRoute)
    → second.prefix_sz ≡ 0
    → (msh_route_compare first second rtfind_by_dest_longest_prefix_matching ≡ 0)
      ↔ (first.dst_ip ≡ second.dst_ip)
unfolding msh_route_compare
compare-host first second h = rw h (ground arith)

-- Compared by no attribute, any two routes are alike.
pub compare-nothing : (first second : MshRoute) → msh_route_compare first second 0 ≡ 0
unfolding msh_route_compare
compare-nothing first second = refl
