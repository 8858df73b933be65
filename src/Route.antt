-- ===== src/Route.antt =====
-- meshias_daemon/msh_route.h and the parts of meshias_daemon/msh_route.c that concern one route
-- object (libmeshias/msh_route.* is the same text). The setters that reach the routing table, the
-- clock or the alarms are in Route/Ops.
pub mod RtAttr
pub mod Compare
pub mod Ops
pub mod Lifetime
use meshias.Base.{
  ℕ, ◌+◌, ◌-◌, ◌%◌, ◌^◌, ◌==◌, ◌!=◌, Bool, true, false, not, ◌&&◌, ◌||◌, Option, none, some, List,
  [], ◌∷◌, if◌then◌else◌,
}
use meshias.Word.{has_flag, set_bit, unset_bit, u32_mod}
use meshias.Time.{Timeval, zero_time, timer_ne}

abbrev pub rtflag_valid_dest_seq_num : ℕ
rtflag_valid_dest_seq_num = 1

abbrev pub rtflag_valid_entry : ℕ
rtflag_valid_entry = 2

abbrev pub rtflag_has_nexthop : ℕ
rtflag_has_nexthop = 4

abbrev pub rtflag_unmanaged : ℕ
rtflag_unmanaged = 8

abbrev pub rtfind_by_dest_longest_prefix_matching : ℕ
rtfind_by_dest_longest_prefix_matching = 0x1000

-- `alarm_action`: what the route's alarm does when it goes off; 0 in a fresh object.
pub data AlarmAction : Type 0 where
  no_action : AlarmAction
  unset_valid_entry : AlarmAction
  destroy : AlarmAction

-- `updated_cb` is null or `__routing_table_route_updated_cb`, the only callback of the daemon.
-- `nlroute` names an object of libnl. `alarm_tv` is `alarm.tv`.
pub record MshRoute : Type 0 where
  pub dst_ip : ℕ
  pub prefix_sz : ℕ
  pub dest_seq_num : ℕ
  pub flags : ℕ
  pub hop_count : ℕ
  pub next_hop : ℕ
  pub net_iface : ℕ
  pub precursors_list : List ℕ
  pub updated_cb : Bool
  pub cb_data : ℕ
  pub nlroute : Option ℕ
  pub alarm_tv : Timeval
  pub alarm_action : AlarmAction

-- `msh_route_alloc`: `calloc`, then a cleared alarm and an empty list.
abbrev pub msh_route_alloc : MshRoute
msh_route_alloc = record {
  dst_ip = 0;
  prefix_sz = 0;
  dest_seq_num = 0;
  flags = 0;
  hop_count = 0;
  next_hop = 0;
  net_iface = 0;
  precursors_list = [];
  updated_cb = false;
  cb_data = 0;
  nlroute = none;
  alarm_tv = zero_time;
  alarm_action = no_action;
}

unfoldable pub msh_route_set_dst_ip : ℕ → MshRoute → MshRoute
msh_route_set_dst_ip dst_ip route = record route { dst_ip = dst_ip }

unfoldable pub msh_route_set_prefix_sz : ℕ → MshRoute → MshRoute
msh_route_set_prefix_sz prefix_sz route = record route { prefix_sz = prefix_sz }

unfoldable pub msh_route_set_flag : ℕ → MshRoute → MshRoute
unfolding set_bit
msh_route_set_flag flag route =
    if flag == rtflag_valid_dest_seq_num
    then record route { flags = set_bit rtflag_valid_dest_seq_num route.flags }
    else if flag == rtflag_valid_entry
    then record route { flags = set_bit rtflag_valid_entry route.flags }
    else if flag == rtflag_has_nexthop
    then record route { flags = set_bit rtflag_has_nexthop route.flags }
    else if flag == rtflag_unmanaged
    then record route { flags = set_bit rtflag_unmanaged route.flags }
    else route

unfoldable pub msh_route_unset_flag : ℕ → MshRoute → MshRoute
unfolding unset_bit
msh_route_unset_flag flag route =
    if flag == rtflag_valid_dest_seq_num
    then record route { flags = unset_bit rtflag_valid_dest_seq_num route.flags }
    else if flag == rtflag_valid_entry
    then record route { flags = unset_bit rtflag_valid_entry route.flags }
    else if flag == rtflag_has_nexthop
    then record route { flags = unset_bit rtflag_has_nexthop route.flags }
    else if flag == rtflag_unmanaged
    then record route { flags = unset_bit rtflag_unmanaged route.flags }
    else route

-- `msh_route_get_flags(route) & flag`
unfoldable pub test_flag : ℕ → MshRoute → Bool
unfolding has_flag
test_flag flag route = has_flag flag route.flags

unfoldable pub msh_route_set_hop_count : ℕ → MshRoute → MshRoute
msh_route_set_hop_count hop_count route = record route { hop_count = hop_count }

unfoldable pub msh_route_set_net_iface : ℕ → MshRoute → MshRoute
msh_route_set_net_iface net_iface route = record route { net_iface = net_iface }

unfoldable pub msh_route_set_dest_seq_num : ℕ → MshRoute → MshRoute
msh_route_set_dest_seq_num dest_seq_num route = record route { dest_seq_num = dest_seq_num }

unfoldable pub msh_route_set_rtnl_route : Option ℕ → MshRoute → MshRoute
msh_route_set_rtnl_route nlroute route = record route { nlroute = nlroute }

unfoldable pub msh_route_set_updated_callback : Bool → ℕ → MshRoute → MshRoute
msh_route_set_updated_callback updated_cb cb_data route = record route {
  updated_cb = updated_cb;
  cb_data = cb_data;
}

-- The search loop of the precursor functions.
unfoldable pub has_precursor : ℕ → List ℕ → Bool
has_precursor ip [] = false
has_precursor ip (entry ∷ rest) = entry == ip || has_precursor ip rest

unfoldable pub msh_route_add_precursor : ℕ → MshRoute → MshRoute
unfolding has_precursor
msh_route_add_precursor dst_ip route =
    if has_precursor dst_ip route.precursors_list
    then route
    else record route { precursors_list = dst_ip ∷ route.precursors_list }

unfoldable pub del_precursor : ℕ → List ℕ → List ℕ
del_precursor ip [] = []
del_precursor ip (entry ∷ rest) = if entry == ip then rest else entry ∷ del_precursor ip rest

unfoldable pub msh_route_del_precursor : ℕ → MshRoute → MshRoute
unfolding del_precursor
msh_route_del_precursor dst_ip route = record route {
  precursors_list = del_precursor dst_ip route.precursors_list;
}

-- `ip & (INADDR_BROADCAST << prefix_sz)` for a shift below 32, where it is defined.
unfoldable pub masked : ℕ → ℕ → ℕ
masked prefix_sz ip = ip - ip % 2 ^ prefix_sz

abbrev bool_ne : Bool → Bool → Bool
bool_ne true b = not b
bool_ne false b = b

-- Each line `diff |= …` of `msh_route_compare` under its attribute's test.
unfoldable pub differs : MshRoute → MshRoute → ℕ → Bool
unfolding has_flag masked timer_ne
differs first second attr_flags =
    (has_flag rtfind_by_dest_longest_prefix_matching attr_flags
      && masked second.prefix_sz first.dst_ip != masked second.prefix_sz second.dst_ip)
    || (has_flag RtAttr.dst_ip attr_flags && first.dst_ip != second.dst_ip)
    || (has_flag RtAttr.prefix_sz attr_flags && first.prefix_sz != second.prefix_sz)
    || (has_flag RtAttr.dest_seq_num attr_flags && first.dest_seq_num != second.dest_seq_num)
    || (has_flag RtAttr.flags attr_flags && first.flags != second.flags)
    || (has_flag RtAttr.hop_count attr_flags && first.hop_count != second.hop_count)
    || (has_flag RtAttr.nexthop_ip attr_flags && first.next_hop != second.next_hop)
    || (has_flag RtAttr.net_iface attr_flags && first.net_iface != second.net_iface)
    || (has_flag RtAttr.lifetime attr_flags && timer_ne first.alarm_tv second.alarm_tv)
    || (has_flag RtAttr.updated_cb attr_flags && bool_ne first.updated_cb second.updated_cb)
    || (has_flag RtAttr.cb_data attr_flags && first.cb_data != second.cb_data)

unfoldable pub msh_route_compare : MshRoute → MshRoute → ℕ → ℕ
unfolding differs
msh_route_compare first second attr_flags = if differs first second attr_flags then 1 else 0
