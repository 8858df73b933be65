-- ===== src/Route/Ops.antt =====
-- The operations of meshias_daemon/msh_route.c that reach beyond one route object, with
-- `__routing_table_route_updated_cb` of meshias_daemon/routing_table.c, which they call back.
use meshias.Base.{ℕ, ◌==◌, not, ◌||◌, none, List, [], ◌∷◌, if◌then◌else◌}
use meshias.Time.{Timeval, timer_lt, timersub, set_alarm_time, get_alarm_time}
use meshias.Config.{delete_period}
use meshias.Alarm.{route_alarm}
use meshias.Route.{
  MshRoute, AlarmAction, no_action, unset_valid_entry, destroy, rtflag_valid_entry,
  rtflag_has_nexthop, rtflag_unmanaged, msh_route_set_flag, msh_route_unset_flag, test_flag,
  msh_route_set_rtnl_route,
}
use meshias.State.{
  MshData, rtnl_route_del, rtnl_route_set_gateway, route_at, update_route, gettimeofday, emit,
  set_alarm, clear_alarm,
}
use meshias.Act.{Act, pure, ◌>>=◌, ◌>>◌, if_found, when}

-- `change_flag`; the third flag of msh_route.h, RTACTION_UNSET_VALID_ENTRY, is an alarm action only.
pub data Change : Type 0 where
  action_destroy action_change_nexthop_ip : Change

-- `list_del` of the node of a route
unfoldable pub list_del : ℕ → List ℕ → List ℕ
list_del p [] = []
list_del p (q ∷ rest) = if q == p then rest else q ∷ list_del p rest

unfoldable pub unlink : ℕ → Act MshData Unit
unlink p s = (tt, record s { routing_table = list_del p s.routing_table })

unfoldable pub routing_table_route_updated_cb : ℕ → Change → Act MshData Unit
routing_table_route_updated_cb p action_destroy = do
  unlink p
  route ← route_at p
  update_route p (msh_route_set_rtnl_route none)
  if_found route.nlroute (λ nlroute. emit (rtnl_route_del nlroute)) (pure tt)
routing_table_route_updated_cb p action_change_nexthop_ip = do
  route ← route_at p
  if_found route.nlroute
      (λ nlroute.
        when (test_flag rtflag_has_nexthop route)
          (emit (rtnl_route_set_gateway nlroute route.next_hop route.prefix_sz)))
      (pure tt)

unfoldable pub msh_route_updated : ℕ → Change → Act MshData Unit
msh_route_updated p change_flag = do
  route ← route_at p
  when route.updated_cb (routing_table_route_updated_cb p change_flag)

unfoldable pub msh_route_destroy : ℕ → Act MshData Unit
msh_route_destroy p = do msh_route_updated p action_destroy; clear_alarm (route_alarm p)

unfoldable pub msh_route_set_next_hop : ℕ → ℕ → Act MshData Unit
msh_route_set_next_hop p next_hop = do
  update_route p (msh_route_set_flag rtflag_has_nexthop)
  update_route p (λ route. record route { next_hop = next_hop })
  msh_route_updated p action_change_nexthop_ip

unfoldable pub msh_route_set_lifetime : ℕ → ℕ → Act MshData Unit
msh_route_set_lifetime p lifetime = do
  route ← route_at p
  when (not (test_flag rtflag_unmanaged route)) do
    update_route p (msh_route_set_flag rtflag_valid_entry)
    update_route p (λ r. record r { alarm_action = unset_valid_entry })
    set_alarm (route_alarm p) (set_alarm_time lifetime)

-- `timersub(&now, &route->alarm.tv, &now)` comes after the test that `alarm.tv` is later than `now`.
unfoldable pub lifetime_left : MshRoute → Timeval → ℕ
lifetime_left route now =
    if not (test_flag rtflag_valid_entry route) || not (timer_lt now route.alarm_tv)
    then 0
    else (let left = timersub now route.alarm_tv in get_alarm_time left.tv_sec left.tv_usec)

unfoldable pub msh_route_get_lifetime : ℕ → Act MshData ℕ
msh_route_get_lifetime p = do now ← gettimeofday; route ← route_at p; pure (lifetime_left route now)

unfoldable pub run_alarm_action : AlarmAction → ℕ → Act MshData Unit
run_alarm_action unset_valid_entry p = do
  update_route p (msh_route_unset_flag rtflag_valid_entry)
  update_route p (λ r. record r { alarm_action = destroy })
  set_alarm (route_alarm p) (set_alarm_time delete_period)
run_alarm_action destroy p = msh_route_destroy p
run_alarm_action no_action p = pure tt

unfoldable pub msh_route_alarm_cb : ℕ → Act MshData Unit
unfolding run_alarm_action
msh_route_alarm_cb p = do route ← route_at p; run_alarm_action route.alarm_action p
