-- ===== src/Alarm/Order.antt =====
-- The pending alarms stay in order, no alarm is pending twice, and a run takes exactly the due ones.
use mathlib.Core.List.{append-nil, reverse, reverse-cons, append_assoc}
use meshias.Base.{
  ◌∙◌, map, ◌++◌, ◌-◌, ◌≤◌, ℕ, ◌≡◌, refl, true, false, List, [], ◌∷◌, ◌++◌, if◌then◌else◌, All,
  All-map, arith, suc, Bool-cases, inl, inr,
}
use meshias.Time.{Timeval, timer_lt, timeradd}
use meshias.Time.Laws.{timer_le_trans, timer_lt_asymm, timer_lt_le_trans}
use meshias.Alarm.{
  Owner, route_alarm, rreq_alarm, flush_alarm, same_owner, AlarmBlock, insert, del_alarm, add_alarm,
  run_queue,
}

-- `a` is not later than `b`.
abbrev pub NotLater : Timeval → Timeval → Type 0
NotLater a b = timer_lt b a ≡ false

abbrev pub IsOrdered : List AlarmBlock → Type 0
IsOrdered [] = Unit
IsOrdered (x ∷ xs) = All (λ y. NotLater x.tv y.tv) xs × IsOrdered xs

pub same_owner_eq : (o p : Owner) → same_owner o p ≡ true → o ≡ p
same_owner_eq (route_alarm p) (route_alarm q) h = ground arith
same_owner_eq (rreq_alarm p) (rreq_alarm q) h = ground arith
same_owner_eq flush_alarm flush_alarm h = refl
same_owner_eq _ _ h = cc

pub same_owner_refl : (o : Owner) → same_owner o o ≡ true
same_owner_refl (route_alarm p) = ground arith
same_owner_refl (rreq_alarm p) = ground arith
same_owner_refl flush_alarm = refl

module _ (P : AlarmBlock → Type 0) where
  All-insert : (a : AlarmBlock) (xs : List AlarmBlock) → P a → All P xs → All P (insert a xs)
  unfolding insert
  All-insert a [] ha h = (ha, tt)
  All-insert a (x ∷ xs) ha h = ground (arith, All-insert a xs ha h.1)

  All-del_alarm : (o : Owner) (xs : List AlarmBlock) → All P xs → All P (del_alarm o xs)
  unfolding del_alarm
  All-del_alarm o [] h = tt
  All-del_alarm o (x ∷ xs) h = ground (arith, All-del_alarm o xs h.1)

NotLater-All :
    (a : Timeval) (x : AlarmBlock) (xs : List AlarmBlock)
    → NotLater a x.tv
    → All (λ y. NotLater x.tv y.tv) xs
    → All (λ y. NotLater a y.tv) xs
NotLater-All a x xs h = All-map (λ y k. timer_le_trans a x.tv y.tv h k) xs

pub insert-IsOrdered :
    (a : AlarmBlock) (xs : List AlarmBlock) → IsOrdered xs → IsOrdered (insert a xs)
unfolding insert
insert-IsOrdered a [] h = (tt, tt)
insert-IsOrdered a (x ∷ xs) h = elim (Bool-cases (timer_lt a.tv x.tv)) [
  | inl before ↦
      rw before (
        (timer_lt_asymm a.tv x.tv before, NotLater-All a.tv x xs (timer_lt_asymm _ _ before) h.0),
        h,
      )
  | inr behind ↦
      rw behind (All-insert (λ y. NotLater x.tv y.tv) a xs behind h.0, insert-IsOrdered a xs h.1)
]

pub del_alarm-IsOrdered :
    (o : Owner) (xs : List AlarmBlock) → IsOrdered xs → IsOrdered (del_alarm o xs)
unfolding del_alarm
del_alarm-IsOrdered o [] h = tt
del_alarm-IsOrdered o (x ∷ xs) h =
    ground (arith, del_alarm-IsOrdered o xs h.1, All-del_alarm (λ y. NotLater x.tv y.tv) o xs h.0)

-- Setting an alarm keeps the pending alarms in the order of their times.
pub add_alarm-IsOrdered :
    (o : Owner) (delay now : Timeval) (xs : List AlarmBlock)
    → IsOrdered xs
    → IsOrdered (add_alarm o delay now xs)
unfolding add_alarm
add_alarm-IsOrdered o delay now xs h = insert-IsOrdered _ _ (del_alarm-IsOrdered o xs h)

-- How often an alarm is pending.
abbrev pub count : Owner → List AlarmBlock → ℕ
count o [] = 0
count o (x ∷ xs) = if same_owner x.owner o then suc (count o xs) else count o xs

abbrev pub PendingOnce : List AlarmBlock → Type 0
PendingOnce xs = (o : Owner) → count o xs ≤ 1

count-insert :
    (o : Owner) (a : AlarmBlock) (xs : List AlarmBlock)
    → count o (insert a xs) ≡ (if same_owner a.owner o then suc (count o xs) else count o xs)
unfolding insert
count-insert o a [] = refl
count-insert o a (x ∷ xs) = ground (arith, count-insert o a xs)

count-del_alarm :
    (o p : Owner) (xs : List AlarmBlock)
    → count p (del_alarm o xs) ≡ (if same_owner o p then count p xs - 1 else count p xs)
unfolding del_alarm
count-del_alarm o p [] = ground arith
count-del_alarm o p (x ∷ xs) =
    ground
      (arith, count-del_alarm o p xs, same_owner_eq x.owner o, same_owner_eq o p, same_owner_refl o)

-- Where no alarm is pending twice, setting one leaves it pending exactly once, and leaves every
-- other alarm pending as often as before.
pub count-add_alarm :
    (o p : Owner) (delay now : Timeval) (xs : List AlarmBlock)
    → PendingOnce xs
    → count p (add_alarm o delay now xs) ≡ (if same_owner o p then 1 else count p xs)
unfolding add_alarm
count-add_alarm o p delay now xs once = ground (
  arith,
  count-insert p (record { tv = timeradd delay now; owner = o }) (del_alarm o xs),
  count-del_alarm o p xs,
  once p,
)

pub add_alarm-PendingOnce :
    (o : Owner) (delay now : Timeval) (xs : List AlarmBlock)
    → PendingOnce xs
    → PendingOnce (add_alarm o delay now xs)
add_alarm-PendingOnce o delay now xs once p =
    ground (arith, count-add_alarm o p delay now xs once, once p)

pub del_alarm-PendingOnce :
    (o : Owner) (xs : List AlarmBlock) → PendingOnce xs → PendingOnce (del_alarm o xs)
del_alarm-PendingOnce o xs once p = ground (arith, count-del_alarm o p xs, once p)

-- The alarms whose time has come.
abbrev pub due : Timeval → List AlarmBlock → List AlarmBlock
due now [] = []
due now (x ∷ xs) = if timer_lt now x.tv then due now xs else x ∷ due now xs

due-none :
    (now : Timeval) (xs : List AlarmBlock)
    → All (λ y. timer_lt now y.tv ≡ true) xs
    → due now xs ≡ []
due-none now [] h = refl
due-none now (x ∷ xs) h = rw h.0 (due-none now xs h.1)

abbrev owners : List AlarmBlock → List Owner
owners = map (λ a. a.owner)

run_queue_lem :
    (now : Timeval) (xs : List AlarmBlock) (queue : List Owner)
    → IsOrdered xs
    → run_queue now xs queue ≡ reverse (owners (due now xs)) ++ queue
unfolding run_queue
run_queue_lem now [] queue h = refl
run_queue_lem now (x ∷ xs) queue h = elim (Bool-cases (timer_lt now x.tv)) [
  | inl later ↦
      rw (later, due-none now xs (All-map (λ y k. timer_lt_le_trans now x.tv y.tv later k) xs h.0))
  | inr come ↦ rw (come, run_queue_lem now xs (x.owner ∷ queue) h.1, reverse-cons, append_assoc)
]

-- On ordered alarms a run takes the due alarms, all of them and no other, the latest first.
pub run_queue-due :
    (now : Timeval) (xs : List AlarmBlock)
    → IsOrdered xs
    → run_queue now xs [] ≡ reverse (map (λ a. a.owner) (due now xs))
run_queue-due now xs h = run_queue_lem now xs [] h ∙ append-nil _
