-- ===== src/Invariant/Key.antt =====
-- The setters of a route that leave its search key alone.
use meshias.Base.{ℕ, refl, Option, arith, Bool}
use meshias.Route.{
  AlarmAction, msh_route_set_flag, msh_route_unset_flag, msh_route_set_hop_count,
  msh_route_set_dest_seq_num, msh_route_set_rtnl_route, msh_route_set_updated_callback,
  msh_route_add_precursor,
}
use meshias.Invariant.Steps.{KeepsKey}

pub set_flag-KeepsKey : (flag : ℕ) → KeepsKey (msh_route_set_flag flag)
unfolding msh_route_set_flag
set_flag-KeepsKey flag = record { dst_ip = λ r. ground arith; prefix_sz = λ r. ground arith }

pub unset_flag-KeepsKey : (flag : ℕ) → KeepsKey (msh_route_unset_flag flag)
unfolding msh_route_unset_flag
unset_flag-KeepsKey flag = record { dst_ip = λ r. ground arith; prefix_sz = λ r. ground arith }

pub hop_count-KeepsKey : (n : ℕ) → KeepsKey (msh_route_set_hop_count n)
unfolding msh_route_set_hop_count
hop_count-KeepsKey n = record { dst_ip = λ r. refl; prefix_sz = λ r. refl }

pub dest_seq_num-KeepsKey : (n : ℕ) → KeepsKey (msh_route_set_dest_seq_num n)
unfolding msh_route_set_dest_seq_num
dest_seq_num-KeepsKey n = record { dst_ip = λ r. refl; prefix_sz = λ r. refl }

pub rtnl_route-KeepsKey : (n : Option ℕ) → KeepsKey (msh_route_set_rtnl_route n)
unfolding msh_route_set_rtnl_route
rtnl_route-KeepsKey n = record { dst_ip = λ r. refl; prefix_sz = λ r. refl }

pub precursor-KeepsKey : (ip : ℕ) → KeepsKey (msh_route_add_precursor ip)
unfolding msh_route_add_precursor
precursor-KeepsKey ip = record { dst_ip = λ r. ground arith; prefix_sz = λ r. ground arith }

pub next_hop-KeepsKey : (ip : ℕ) → KeepsKey (λ r. record r { next_hop = ip })
next_hop-KeepsKey ip = record { dst_ip = λ r. refl; prefix_sz = λ r. refl }

pub action-KeepsKey : (a : AlarmAction) → KeepsKey (λ r. record r { alarm_action = a })
action-KeepsKey a = record { dst_ip = λ r. refl; prefix_sz = λ r. refl }

pub callback-KeepsKey : (cb : Bool) (n : ℕ) → KeepsKey (msh_route_set_updated_callback cb n)
unfolding msh_route_set_updated_callback
callback-KeepsKey cb n = record { dst_ip = λ r. refl; prefix_sz = λ r. refl }

pub ruleset key_rules = (
  set_flag-KeepsKey, unset_flag-KeepsKey, hop_count-KeepsKey, dest_seq_num-KeepsKey,
  rtnl_route-KeepsKey, precursor-KeepsKey, next_hop-KeepsKey, action-KeepsKey, callback-KeepsKey,
)
