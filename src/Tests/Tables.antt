-- ===== src/Tests/Tables.antt =====
-- Runs of the theorems about the routing table.
use meshias.Base.{◌≡◌, refl, pos, true, none, [], ◌∷◌, if◌then◌else◌, arith}
use meshias.State.{MshData}
use meshias.Route.Ops.{msh_route_destroy}
use meshias.RoutingTable.{routing_table_add, routing_table_find, add_failed}
use meshias.RoutingTable.Find.{find_by_ip-first_to}
use meshias.RoutingTable.View.{view, insert_new, routing_table_add-insert}
use meshias.RoutingTable.Removal.{msh_route_destroy-remove}
use meshias.Invariant.Table.{TableOk}
use meshias.Act.{after}
use meshias.RoutingTable.Adding.{outcome, routing_table_add-result}
use meshias.Tests.{busy}

abbrev bare : MshData
bare = record busy { routing_table = [] }

routing_table_add-result_example : outcome (routing_table_add 2 bare) ≡ (pos 0, 2 ∷ [])
unfolding routing_table_find meshias.RoutingTable.find_in
routing_table_add-result_example = routing_table_add-result 2 bare

routing_table_add-insert_example :
    view (after (routing_table_add 2) bare) 10
    ≡ (if add_failed (bare.add_results 0) then view bare else insert_new 10 2 (view bare)) 10
routing_table_add-insert_example = routing_table_add-insert 2 10 bare tt refl

-- Every cell of the heap has a route to 10 with its callback, and the one in cell 1 is listed.
abbrev linked : MshData
linked = record busy { routes = λ p. record (busy.routes p) { updated_cb = true } }

linked-TableOk : TableOk linked
linked-TableOk = record { host = (refl, tt); distinct = (tt, tt); allocated = (ground arith, tt) }

msh_route_destroy-remove_example : view (after (msh_route_destroy 1) linked) 10 ≡ none
msh_route_destroy-remove_example =
    msh_route_destroy-remove 1 10 linked linked-TableOk (find_by_ip-first_to 10 linked (refl, tt))
      refl
