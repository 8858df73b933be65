-- ===== src/Alarm/Pending.antt =====
-- Which alarms are pending after one is set or taken away.
use meshias.Base.{◌≡◌, refl, true, false, List, [], ◌∷◌, if◌then◌else◌, arith}
use meshias.Time.{Timeval, timeradd}
use meshias.Alarm.{Owner, same_owner, AlarmBlock, insert, del_alarm, add_alarm, alarm_pending}
use meshias.Alarm.Order.{same_owner_eq, same_owner_refl}

pending-insert :
    (o : Owner) (a : AlarmBlock) (xs : List AlarmBlock)
    → alarm_pending o (insert a xs) ≡ (if same_owner a.owner o then true else alarm_pending o xs)
unfolding insert alarm_pending
pending-insert o a [] = refl
pending-insert o a (x ∷ xs) = ground (arith, pending-insert o a xs)

-- Taking an alarm away leaves the others.
pub pending-del_alarm :
    (o p : Owner) (xs : List AlarmBlock)
    → same_owner o p ≡ false
    → alarm_pending p xs ≡ true
    → alarm_pending p (del_alarm o xs) ≡ true
unfolding del_alarm alarm_pending
pending-del_alarm o p [] other h = h
pending-del_alarm o p (x ∷ xs) other h =
    ground (arith, other, h, same_owner_eq x.owner o, pending-del_alarm o p xs other)

-- Setting an alarm makes it pending.
pub pending-set :
    (o : Owner) (delay now : Timeval) (xs : List AlarmBlock)
    → alarm_pending o (add_alarm o delay now xs) ≡ true
unfolding add_alarm
pending-set o delay now xs = ground (
  arith,
  pending-insert o (record { tv = timeradd delay now; owner = o }) (del_alarm o xs),
  same_owner_refl o,
)

-- Setting an alarm leaves every alarm pending that was.
pub pending-add_alarm :
    (o p : Owner) (delay now : Timeval) (xs : List AlarmBlock)
    → alarm_pending p xs ≡ true
    → alarm_pending p (add_alarm o delay now xs) ≡ true
unfolding add_alarm
pending-add_alarm o p delay now xs h = ground (
  arith,
  h,
  pending-insert p (record { tv = timeradd delay now; owner = o }) (del_alarm o xs),
  pending-del_alarm o p xs,
)
