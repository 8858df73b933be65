-- ===== src/Route/Lifetime.antt =====
-- What `msh_route_get_lifetime` of meshias_daemon/msh_route.c reads off a live route.
use meshias.Base.{◌+◌, ◌-◌, ◌/◌, ◌^◌, ◌≤◌, ◌<◌, ◌≡◌, true, arith}
use meshias.Word.{u32_mod}
use meshias.Time.{Timeval, timer_lt, timersub, get_alarm_time}
use meshias.Time.Laws.{IsNormal, usecs}
use meshias.Route.{MshRoute, test_flag, rtflag_valid_entry}
use meshias.Route.Ops.{lifetime_left}

negated :
    (now tv : Timeval)
    → IsNormal now
    → IsNormal tv
    → tv.tv_sec < 2 ^ 63
    → timer_lt now tv ≡ true
    → usecs tv ≤ usecs now + 4000000000000
    → get_alarm_time (timersub now tv).tv_sec (timersub now tv).tv_usec
        + (usecs tv - usecs now + 999) / 1000
      ≡ u32_mod
unfolding get_alarm_time timersub timer_lt
negated now tv hn ht bound later near = ground arith

-- On a valid route that expires in at most 4000000 seconds, the lifetime that is read and the
-- milliseconds that are left, rounded up, add up to 2 ^ 32: the code subtracts the later time from
-- the earlier one, and what it returns is the remaining lifetime negated. The times are normalised,
-- and the expiry is a time that a signed second count holds.
pub lifetime_left-negated :
    (route : MshRoute) (now : Timeval)
    → test_flag rtflag_valid_entry route ≡ true
    → IsNormal now
    → IsNormal route.alarm_tv
    → route.alarm_tv.tv_sec < 2 ^ 63
    → timer_lt now route.alarm_tv ≡ true
    → usecs route.alarm_tv ≤ usecs now + 4000000000000
    → lifetime_left route now + (usecs route.alarm_tv - usecs now + 999) / 1000 ≡ u32_mod
unfolding lifetime_left
lifetime_left-negated route now valid hn ht bound later near =
    rw (valid, later) (negated now route.alarm_tv hn ht bound later near)
