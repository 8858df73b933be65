-- ===== src/Alarm.antt =====
-- libmeshias/alarm/alarm.c: the pending alarms, as the in-order sequence of the red-black tree
-- `alarm_root`, earliest first.
pub mod Order
pub mod Tree
pub mod Wake
pub mod Pending
use meshias.Base.{
  ℕ, ◌+◌, ◌==◌, Bool, true, false, not, ◌&&◌, Option, none, some, List, [], ◌∷◌, if◌then◌else◌,
}
use meshias.Time.{Timeval, zero_time, timer_lt, timeradd, timersub}

-- The object that an alarm block is part of, which is also its `data`; it selects `function`.
pub data Owner : Type 0 where
  route_alarm : ℕ → Owner
  rreq_alarm : ℕ → Owner
  flush_alarm : Owner

abbrev pub same_owner : Owner → Owner → Bool
same_owner (route_alarm p) (route_alarm q) = p == q
same_owner (rreq_alarm p) (rreq_alarm q) = p == q
same_owner flush_alarm flush_alarm = true
same_owner _ _ = false

pub record AlarmBlock : Type 0 where
  pub tv : Timeval
  pub owner : Owner

-- `__add_alarm`: behind every alarm that is not later.
unfoldable pub insert : AlarmBlock → List AlarmBlock → List AlarmBlock
insert a [] = a ∷ []
insert a (x ∷ xs) = if timer_lt a.tv x.tv then a ∷ x ∷ xs else x ∷ insert a xs

-- `del_alarm`: nothing for an alarm that is not pending.
unfoldable pub del_alarm : Owner → List AlarmBlock → List AlarmBlock
del_alarm o [] = []
del_alarm o (x ∷ xs) = if same_owner x.owner o then xs else x ∷ del_alarm o xs

unfoldable pub alarm_pending : Owner → List AlarmBlock → Bool
alarm_pending o [] = false
alarm_pending o (x ∷ xs) = if same_owner x.owner o then true else alarm_pending o xs

-- `add_alarm` at the clock reading `now`.
unfoldable pub add_alarm : Owner → Timeval → Timeval → List AlarmBlock → List AlarmBlock
unfolding insert del_alarm
add_alarm o delay now xs = insert (record { tv = timeradd delay now; owner = o }) (del_alarm o xs)

abbrev pub long_max : ℕ
long_max = 9223372036854775807

unfoldable pub calculate_next_run : Timeval → Timeval → Option Timeval
calculate_next_run cand tv =
    if cand.tv_sec == long_max
    then none
    else (if timer_lt tv cand then some (timersub cand tv) else some zero_time)

unfoldable pub get_next_alarm_run : Timeval → List AlarmBlock → Option Timeval
unfolding calculate_next_run
get_next_alarm_run now [] = none
get_next_alarm_run now (x ∷ xs) = calculate_next_run x.tv now

-- The first loop of `do_alarm_run`: `list_add` puts each due alarm in front of the earlier ones.
unfoldable pub run_queue : Timeval → List AlarmBlock → List Owner → List Owner
run_queue now [] queue = queue
run_queue now (x ∷ xs) queue =
    let rest = run_queue now xs (x.owner ∷ queue) in if timer_lt now x.tv then queue else rest
