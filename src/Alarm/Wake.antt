-- ===== src/Alarm/Wake.antt =====
-- When the daemon wakes up for the next alarm.
use meshias.Base.{
  ℕ, ◌-◌, ◌≤◌, ◌<◌, ◌≡◌, ◌==◌, false, refl, some, List, [], ◌∷◌, All, arith, inl, inr, Bool-cases,
}
use meshias.Time.{Timeval, zero_time, timer_lt, timersub}
use meshias.Time.Laws.{IsNormal, usecs, timer_lt-usecs, usecs-timer_lt, usecs-timersub}
use meshias.Alarm.{AlarmBlock, long_max, calculate_next_run, get_next_alarm_run}
use meshias.Alarm.Order.{NotLater, IsOrdered}

NotLater-usecs : (a b : Timeval) → IsNormal a → IsNormal b → NotLater a b → usecs a ≤ usecs b
NotLater-usecs a b ha hb h = ground (arith, usecs-timer_lt b a hb ha)

-- The time that is left until the alarm at `cand`, none if it has passed.
wait_lem :
    (cand now : Timeval)
    → IsNormal cand
    → IsNormal now
    → cand.tv_sec < long_max
    → (wait : Timeval) × (calculate_next_run cand now ≡ some wait)
      × (usecs wait ≡ usecs cand - usecs now)
unfolding calculate_next_run
wait_lem cand now hc hn early = elim (Bool-cases (timer_lt now cand)) [
  | inl later ↦ (
    timersub cand now,
    rw (later, ne) refl,
    omega (
      arith,
      usecs-timersub cand now hc hn (omega (arith, early))
          (omega (arith, timer_lt-usecs now cand hn hc later)),
      timer_lt-usecs now cand hn hc later,
    ),
  )
  | inr passed ↦
      (zero_time, rw (passed, ne) refl, omega (arith, NotLater-usecs cand now hc hn passed))
]
  where
    ne : (cand.tv_sec == long_max) ≡ false
    ne = ground arith

later_waits :
    (n : ℕ) (now tv : Timeval) (xs : List AlarmBlock)
    → IsNormal tv
    → n ≡ usecs tv - usecs now
    → All (λ y. IsNormal y.tv) xs
    → All (λ y. NotLater tv y.tv) xs
    → All (λ y. n ≤ usecs y.tv - usecs now) xs
later_waits n now tv [] ht e normal o = tt
later_waits n now tv (y ∷ xs) ht e normal o = (
  omega (arith, e, NotLater-usecs tv y.tv ht normal.0 o.0),
  later_waits n now tv xs ht e normal.1 o.1,
)

-- With an alarm pending, the daemon is told to sleep, for just as long as is left until the first
-- alarm, and so never past any alarm. The alarms are ordered, the times are normalised, and the first
-- alarm is before the end of time.
pub get_next_alarm_run-wait :
    (now : Timeval) (x : AlarmBlock) (xs : List AlarmBlock)
    → IsNormal now
    → All (λ y. IsNormal y.tv) (x ∷ xs)
    → IsOrdered (x ∷ xs)
    → x.tv.tv_sec < long_max
    → (wait : Timeval) × (get_next_alarm_run now (x ∷ xs) ≡ some wait)
      × (usecs wait ≡ usecs x.tv - usecs now)
      × All (λ y. usecs wait ≤ usecs y.tv - usecs now) (x ∷ xs)
unfolding get_next_alarm_run
get_next_alarm_run-wait now x xs hn normal o early =
    let (wait, gives, exact) = wait_lem x.tv now normal.0 hn early in
    (
      wait,
      gives,
      exact,
      (omega (arith, exact), later_waits (usecs wait) now x.tv xs normal.0 exact normal.1 o.0),
    )
