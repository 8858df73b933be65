-- ===== src/Loop/Searches.antt =====
-- The searches that the daemon has under way, over its whole life.
use meshias.Base.{◌≡◌, true, none, List, [], All}
use meshias.Time.{Timeval}
use meshias.Alarm.{rreq_alarm, alarm_pending}
use meshias.State.{MshData}
use meshias.Loop.{Select, main_loop, main}
use meshias.Loop.Startup.{InitCalls}
use meshias.Loop.Keeps.{main_loop-Keeps}
use meshias.Loop.Always.{shutdown-Keeps, main-Leads}
use meshias.Comm.Commands.{command-Keeps}
use meshias.Act.{after}
use meshias.Act.Keeps.{Keeps}
use meshias.Invariant.Reach.{message-Keeps, manage_packet-Keeps}
use meshias.Invariant.Requests.{Awaited}
use meshias.Invariant.Requests.Queue.{DistinctPtr}
use meshias.Invariant.Requests.Handlers.{
  Awaited-Steps, verdict-Awaited, bump-Awaited, hold-Awaited, delete_packets-Awaited,
}
use meshias.Invariant.Requests.Expiry.{expiry-Awaited}

loop-Awaited :
    (reports : List Select) (next : Timeval) → Keeps (Awaited none) (main_loop reports next)
loop-Awaited =
    main_loop-Keeps (Awaited-Steps none)
      (manage_packet-Keeps (Awaited-Steps none) (verdict-Awaited none) (hold-Awaited none))
      expiry-Awaited (message-Keeps (Awaited-Steps none) (bump-Awaited none _))
      (command-Keeps λ s ended counts events h. record {
        pending = h.pending;
        distinct = h.distinct;
        fresh = h.fresh;
      })

-- Whenever `main`, started with no pending alarm, waits in `select` or has ended, whatever it received
-- until then: the alarm of every request in the queue is pending, so that no search is forgotten, and
-- no two requests have the same address.
pub main_requests :
    (calls : InitCalls) (reports : List Select) (next : Timeval) (s : MshData)
    → s.alarms ≡ []
    → All
        (λ e. alarm_pending (rreq_alarm e.ptr) (after (main calls reports next) s).alarms ≡ true)
        (after (main calls reports next) s).rreq_queue
      × DistinctPtr (after (main calls reports next) s).rreq_queue
main_requests calls reports next s none_pending =
    let awaited =
      (main-Leads loop-Awaited (shutdown-Keeps (Awaited-Steps none) (delete_packets-Awaited none))
          (λ t e. record {
            pending = rw e.requests tt;
            distinct = rw e.requests tt;
            fresh = rw e.requests tt;
          })
          calls reports next).ends
        s none_pending in
    (awaited.pending, awaited.distinct)
