-- ===== src/Tests/Alarms.antt =====
-- Runs of the theorems about alarms and lifetimes.
use meshias.Base.{◌+◌, ◌-◌, ◌≤◌, ◌≡◌, refl, some, true, [], ◌∷◌, All, arith}
use meshias.Word.{u32_mod}
use meshias.Time.{Timeval, timer_lt}
use meshias.Time.Laws.{usecs}
use meshias.Alarm.{AlarmBlock, flush_alarm, route_alarm, rreq_alarm, insert, get_next_alarm_run}
use meshias.Alarm.Order.{IsOrdered}
use meshias.Alarm.Tree.{RbNode, null, node, in_order, add_to_tree, in_order-add_to_tree}
use meshias.Alarm.Wake.{get_next_alarm_run-wait}
use meshias.Route.{MshRoute, msh_route_alloc, test_flag, rtflag_valid_entry}
use meshias.Route.Ops.{lifetime_left}
use meshias.Route.Lifetime.{lifetime_left-negated}

abbrev at_ten : AlarmBlock
at_ten = record { tv = record { tv_sec = 10; tv_usec = 0 }; owner = flush_alarm }

abbrev at_twelve : AlarmBlock
at_twelve = record { tv = record { tv_sec = 12; tv_usec = 500 }; owner = route_alarm 1 }

abbrev at_eleven : AlarmBlock
at_eleven = record { tv = record { tv_sec = 11; tv_usec = 7 }; owner = rreq_alarm 2 }

abbrev two_nodes : RbNode
two_nodes = node null at_ten (node null at_twelve null)

two_nodes-IsOrdered : IsOrdered (in_order two_nodes)
unfolding in_order timer_lt
two_nodes-IsOrdered = ((refl, tt), (tt, tt))

in_order-add_to_tree_example :
    in_order (add_to_tree (λ a t. t) at_eleven two_nodes) ≡ insert at_eleven (in_order two_nodes)
in_order-add_to_tree_example =
    in_order-add_to_tree (λ a t. t) (λ a t. refl) at_eleven two_nodes two_nodes-IsOrdered

abbrev eight : Timeval
eight = record { tv_sec = 8; tv_usec = 999999 }

two-IsOrdered : IsOrdered (at_ten ∷ at_twelve ∷ [])
unfolding timer_lt
two-IsOrdered = ((refl, tt), (tt, tt))

get_next_alarm_run-wait_example :
    (wait : Timeval) × (get_next_alarm_run eight (at_ten ∷ at_twelve ∷ []) ≡ some wait)
    × (usecs wait ≡ usecs at_ten.tv - usecs eight)
    × All (λ y. usecs wait ≤ usecs y.tv - usecs eight) (at_ten ∷ at_twelve ∷ [])
get_next_alarm_run-wait_example =
    get_next_alarm_run-wait eight at_ten (at_twelve ∷ []) (omega arith)
      (omega arith, (omega arith, tt)) two-IsOrdered (omega arith)

abbrev live : MshRoute
live = record msh_route_alloc { flags = 2; alarm_tv = record { tv_sec = 12; tv_usec = 500 } }

live-valid : test_flag rtflag_valid_entry live ≡ true
unfolding test_flag
live-valid = refl

eight-before : timer_lt eight live.alarm_tv ≡ true
unfolding timer_lt
eight-before = refl

lifetime_left-negated_example : lifetime_left live eight + 3001 ≡ u32_mod
lifetime_left-negated_example =
    lifetime_left-negated live eight live-valid (omega arith) (omega arith) (omega arith)
      eight-before (omega arith)
