-- ===== src/Time.antt =====
-- The `timeval` arithmetic of <sys/time.h> that the daemon uses, and the conversions between
-- milliseconds and a `timeval` of meshias_daemon/utils.c.
-- A second count is a 64-bit word; the normalised microseconds are below 1000000.
pub mod Laws
use meshias.Base.{ℕ, ◌+◌, ◌-◌, ◌*◌, ◌/◌, ◌%◌, ◌<◌, Bool, ◌==◌, ltb, leb, if◌then◌else◌, not}
use meshias.Word.{u64_mod, u32}

pub record Timeval : Type 0 where
  pub tv_sec : ℕ
  pub tv_usec : ℕ

abbrev pub zero_time : Timeval
zero_time = record { tv_sec = 0; tv_usec = 0 }

-- `timercmp(a, b, <)`; the second counts are the ones of a running clock, below 2 ^ 63.
unfoldable pub timer_lt : Timeval → Timeval → Bool
timer_lt a b = if a.tv_sec == b.tv_sec then ltb a.tv_usec b.tv_usec else ltb a.tv_sec b.tv_sec

-- `timercmp(a, b, !=)`
unfoldable pub timer_ne : Timeval → Timeval → Bool
timer_ne a b =
    if a.tv_sec == b.tv_sec then not (a.tv_usec == b.tv_usec) else not (a.tv_sec == b.tv_sec)

unfoldable pub timeradd : Timeval → Timeval → Timeval
timeradd a b =
    if leb 1000000 (a.tv_usec + b.tv_usec)
    then record { tv_sec = a.tv_sec + b.tv_sec + 1; tv_usec = a.tv_usec + b.tv_usec - 1000000 }
    else record { tv_sec = a.tv_sec + b.tv_sec; tv_usec = a.tv_usec + b.tv_usec }

-- The second count of the difference is a signed word: it wraps where `a` is the earlier time.
unfoldable pub timersub : Timeval → Timeval → Timeval
timersub a b =
    if ltb a.tv_usec b.tv_usec
    then record {
      tv_sec = (a.tv_sec + u64_mod - b.tv_sec % u64_mod + u64_mod - 1) % u64_mod;
      tv_usec = a.tv_usec + 1000000 - b.tv_usec;
    }
    else record {
      tv_sec = (a.tv_sec + u64_mod - b.tv_sec % u64_mod) % u64_mod;
      tv_usec = a.tv_usec - b.tv_usec;
    }

-- utils.c
unfoldable pub set_alarm_time : ℕ → Timeval
set_alarm_time miliseconds = record {
  tv_sec = miliseconds / 1000;
  tv_usec = miliseconds % 1000 * 1000;
}

unfoldable pub get_alarm_time : ℕ → ℕ → ℕ
get_alarm_time sc usc = u32 (u32 usc / 1000 + sc * 1000)
