-- ===== src/Daemon.antt =====
-- The daemon as a whole: meshias_daemon/meshias.c and meshias_daemon/msh_data.c, with the alarm run
-- of libmeshias/alarm/alarm.c, which calls the callbacks.

use meshias.Base.{ℕ, ◌==◌, ◌&&◌, Option, none, some, List, [], ◌∷◌}
use meshias.Time.{Timeval}
use meshias.Alarm.{Owner, route_alarm, rreq_alarm, flush_alarm, get_next_alarm_run, run_queue}
use meshias.Route.Ops.{msh_route_alarm_cb}
use meshias.State.{MshData, gettimeofday, set_alarm, clear_alarm}
use meshias.Logic.Discovery.{rreq_fifo_alarm_cb}
use meshias.Packet.Check.{Msghdr}
use meshias.Logic.Receive.{aodv_process_packet}
use meshias.Nfqueue.{NfqData, manage_packet}
use meshias.Act.{Act, after, pure, gets, ◌>>=◌, ◌>>◌, choose}

unfoldable pub reset_rreq_sent : Act MshData Unit
reset_rreq_sent s = (tt, record s { num_rreq_sent = 0 })

-- `__msh_data_process_wait_queue_cb`: one more second
unfoldable pub process_wait_queue_cb : Act MshData Unit
unfolding reset_rreq_sent
process_wait_queue_cb = do
  reset_rreq_sent
  set_alarm flush_alarm (record { tv_sec = 1; tv_usec = 0 })

-- `this->function(this, this->data)`
unfoldable pub alarm_function : Owner → Act MshData Unit
unfolding process_wait_queue_cb
alarm_function (route_alarm p) = msh_route_alarm_cb p
alarm_function (rreq_alarm p) = rreq_fifo_alarm_cb p
alarm_function flush_alarm = process_wait_queue_cb

-- The second loop of `do_alarm_run`. `rb_erase` of an alarm that is in the tree is `clear_alarm`.
unfoldable pub run_alarms : List Owner → Act MshData Unit
unfolding alarm_function
run_alarms [] = pure tt
run_alarms (this ∷ rest) = do clear_alarm this; alarm_function this; run_alarms rest

unfoldable pub do_alarm_run : Act MshData (Option Timeval)
unfolding run_alarms
do_alarm_run = do
  tv ← gettimeofday
  queue ← gets (λ s. run_queue tv s.alarms [])
  run_alarms queue
  now ← gettimeofday
  gets (λ s. get_next_alarm_run now s.alarms)

-- `process_alarms`: a run where the time left is zero.
unfoldable pub process_alarms : Option Timeval → Act MshData (Option Timeval)
unfolding do_alarm_run
process_alarms none = pure none
process_alarms (some next) = choose (next.tv_sec == 0 && next.tv_usec == 0) do_alarm_run (pure none)

-- What a turn of the main loop can do: netfilter hands over a packet, an AODV message of `n` bytes
-- arrives, or the due alarms run.
pub data Step (s : MshData) : MshData → Type 0 where
  captured : (packet : NfqData) → Step s (after (manage_packet packet) s)
  received : (msg : Msghdr) (n stray : ℕ) → Step s (after (aodv_process_packet msg n stray) s)
  alarmed : Step s (after do_alarm_run s)

pub data Reach (s : MshData) : MshData → Type 0 where
  here : Reach s s
  next : {t u : MshData} → Reach s t → Step t u → Reach s u
