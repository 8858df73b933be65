-- ===== src/Time/Laws.antt =====
-- Millisecond and `timeval` conversions, and the order of times.
use meshias.Base.{ℕ, ◌+◌, ◌*◌, ◌<◌, ◌≤◌, ◌≡◌, true, false, arith}
use meshias.Word.{u32_mod, u64_mod}
use meshias.Time.{Timeval, timer_lt, timeradd, timersub, set_alarm_time, get_alarm_time}

abbrev pub IsNormal : Timeval → Type 0
IsNormal t = t.tv_usec < 1000000

-- The time in microseconds.
abbrev pub usecs : Timeval → ℕ
usecs t = t.tv_sec * 1000000 + t.tv_usec

-- A 32-bit number of milliseconds survives the trip through seconds and microseconds.
pub get_alarm_time-set_alarm_time :
    (ms : ℕ)
    → ms < u32_mod
    → get_alarm_time (set_alarm_time ms).tv_sec (set_alarm_time ms).tv_usec ≡ ms
unfolding get_alarm_time set_alarm_time
get_alarm_time-set_alarm_time ms h = omega arith

pub set_alarm_time-IsNormal : (ms : ℕ) → IsNormal (set_alarm_time ms)
unfolding set_alarm_time
set_alarm_time-IsNormal ms = omega arith

pub usecs-set_alarm_time : (ms : ℕ) → usecs (set_alarm_time ms) ≡ ms * 1000
unfolding set_alarm_time
usecs-set_alarm_time ms = omega arith

pub timeradd-IsNormal : (a b : Timeval) → IsNormal a → IsNormal b → IsNormal (timeradd a b)
unfolding timeradd
timeradd-IsNormal a b ha hb = ground arith

pub usecs-timeradd : (a b : Timeval) → usecs (timeradd a b) ≡ usecs a + usecs b
unfolding timeradd
usecs-timeradd a b = ground arith

-- On normalised times the comparison is the order of the microseconds.
pub timer_lt-usecs :
    (a b : Timeval) → IsNormal a → IsNormal b → timer_lt a b ≡ true → usecs a < usecs b
unfolding timer_lt
timer_lt-usecs a b ha hb h = ground arith

pub usecs-timer_lt :
    (a b : Timeval) → IsNormal a → IsNormal b → usecs a < usecs b → timer_lt a b ≡ true
unfolding timer_lt
usecs-timer_lt a b ha hb h = ground arith

pub timer_lt_irrefl : (a : Timeval) → timer_lt a a ≡ false
unfolding timer_lt
timer_lt_irrefl a = ground arith

-- No normality is needed: the comparison is lexicographic.
pub timer_lt_trans :
    (a b c : Timeval) → timer_lt a b ≡ true → timer_lt b c ≡ true → timer_lt a c ≡ true
unfolding timer_lt
timer_lt_trans a b c h k = ground arith

pub timer_le_trans :
    (a b c : Timeval) → timer_lt b a ≡ false → timer_lt c b ≡ false → timer_lt c a ≡ false
unfolding timer_lt
timer_le_trans a b c h k = ground arith

pub timer_lt_asymm : (a b : Timeval) → timer_lt a b ≡ true → timer_lt b a ≡ false
unfolding timer_lt
timer_lt_asymm a b h = ground arith

-- Where `b` is not later than `a`, both normalised and `a` with a 64-bit second count, the difference
-- is the time from `b` to `a`.
pub usecs-timersub :
    (a b : Timeval)
    → IsNormal a
    → IsNormal b
    → a.tv_sec < u64_mod
    → usecs b ≤ usecs a
    → usecs (timersub a b) + usecs b ≡ usecs a
unfolding timersub
usecs-timersub a b ha hb fits h = ground arith

pub timer_lt_le_trans :
    (a b c : Timeval) → timer_lt a b ≡ true → timer_lt c b ≡ false → timer_lt a c ≡ true
unfolding timer_lt
timer_lt_le_trans a b c h k = ground arith
