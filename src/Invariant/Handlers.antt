-- ===== src/Invariant/Handlers.antt =====
-- A property that the steps keep is kept by the operations on routes, table and request queue.
use meshias.Base.{arith, ℕ, refl}
use meshias.Route.{AlarmAction, no_action, unset_valid_entry, destroy}
use meshias.Route.Ops.{
  Change, action_destroy, action_change_nexthop_ip, routing_table_route_updated_cb,
  msh_route_updated, msh_route_destroy, msh_route_set_next_hop, msh_route_set_lifetime,
  msh_route_get_lifetime, run_alarm_action, msh_route_alarm_cb,
}
use meshias.State.{MshData, route_at, gettimeofday}
use meshias.RreqFifo.{rreq_fifo_del}
use meshias.RoutingTable.{
  refresh, update_destination, update_origin, routing_table_update_route, count_invalid,
}
use meshias.Act.Keeps.{Keeps, keeps_rules}
use meshias.Invariant.Steps.{Steps, Counts}
use meshias.Invariant.Key.{key_rules}

module _ {P : MshData → Type 0} (steps : Steps P) where
  pub route_at-Keeps : (p : ℕ) → Keeps P (route_at p)
  unfolding route_at
  route_at-Keeps p = record { at = λ s h. h }

  pub set_lifetime-Keeps : (p lifetime : ℕ) → Keeps P (msh_route_set_lifetime p lifetime)
  unfolding msh_route_set_lifetime
  set_lifetime-Keeps p lifetime =
      search (keeps_rules, key_rules, route_at-Keeps, steps.write, steps.alarm) depth 20

  pub clock-Keeps : Keeps P gettimeofday
  clock-Keeps = steps.clock

  pub get_lifetime-Keeps : (p : ℕ) → Keeps P (msh_route_get_lifetime p)
  unfolding msh_route_get_lifetime
  get_lifetime-Keeps p = search (keeps_rules, route_at-Keeps, clock-Keeps) depth 20

  pub cb-Keeps : (p : ℕ) (c : Change) → Keeps P (routing_table_route_updated_cb p c)
  unfolding routing_table_route_updated_cb
  cb-Keeps p action_destroy =
      search (keeps_rules, key_rules, route_at-Keeps, steps.write, steps.kernel_del, steps.remove)
        depth 20
  cb-Keeps p action_change_nexthop_ip =
      search (keeps_rules, route_at-Keeps, steps.kernel_gateway) depth 20

  pub updated-Keeps : (p : ℕ) (c : Change) → Keeps P (msh_route_updated p c)
  unfolding msh_route_updated
  updated-Keeps p c = search (keeps_rules, route_at-Keeps, cb-Keeps) depth 20

  pub destroy-Keeps : (p : ℕ) → Keeps P (msh_route_destroy p)
  unfolding msh_route_destroy
  destroy-Keeps p = search (keeps_rules, updated-Keeps, steps.no_route_alarm) depth 20

  pub set_next_hop-Keeps : (p next_hop : ℕ) → Keeps P (msh_route_set_next_hop p next_hop)
  unfolding msh_route_set_next_hop
  set_next_hop-Keeps p next_hop =
      search (keeps_rules, key_rules, steps.write, updated-Keeps) depth 20

  pub alarm_action-Keeps : (a : AlarmAction) (p : ℕ) → Keeps P (run_alarm_action a p)
  unfolding run_alarm_action
  alarm_action-Keeps unset_valid_entry p =
      search (keeps_rules, key_rules, steps.write, steps.alarm) depth 20
  alarm_action-Keeps destroy p = destroy-Keeps p
  alarm_action-Keeps no_action p = search keeps_rules

  pub alarm_cb-Keeps : (p : ℕ) → Keeps P (msh_route_alarm_cb p)
  unfolding msh_route_alarm_cb
  alarm_cb-Keeps p = search (keeps_rules, route_at-Keeps, alarm_action-Keeps) depth 20

  pub rreq_fifo_del-Keeps : (rreq_id dst : ℕ) → Keeps P (rreq_fifo_del rreq_id dst)
  unfolding rreq_fifo_del
  rreq_fifo_del-Keeps rreq_id dst = search (keeps_rules, steps.delete_entry) depth 20

  pub refresh-Keeps : (p ip : ℕ) → Keeps P (refresh p ip)
  unfolding refresh
  refresh-Keeps p ip = search (keeps_rules, route_at-Keeps, set_lifetime-Keeps) depth 20

  invalid-Counts : Counts count_invalid
  invalid-Counts = record { at = λ st. refl; fits = λ st h. ground (arith, h) }

  pub destination-Keeps : (ip : ℕ) → Keeps P (update_destination ip)
  unfolding update_destination
  destination-Keeps ip =
      search (keeps_rules, route_at-Keeps, refresh-Keeps, steps.count, invalid-Counts) depth 20

  pub origin-Keeps : (ip : ℕ) → Keeps P (update_origin ip)
  unfolding update_origin
  origin-Keeps ip = search (keeps_rules, refresh-Keeps) depth 20

  pub update_route-Keeps : (dst orig : ℕ) → Keeps P (routing_table_update_route dst orig)
  unfolding routing_table_update_route
  update_route-Keeps dst orig = search (keeps_rules, destination-Keeps, origin-Keeps) depth 20
