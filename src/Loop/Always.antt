-- ===== src/Loop/Always.antt =====
-- The invariants over the whole life of the daemon, from `main`'s first line on.
use meshias.Base.{ℕ, List, [], ◌∷◌, ◌≡◌, refl, arith}
use meshias.Time.{Timeval}
use meshias.State.{
  MshData, RreqEntry, PacketObj, Verdict, nfq_set_verdict, Statistics, bump, route_at,
}
use meshias.PacketsFifo.{packets_fifo_delete, set_packets}
use meshias.RreqFifo.{delete_entries, rreq_fifo_delete}
use meshias.RoutingTable.{routing_table_del}
use meshias.RoutingTable.Find.{routing_table_del_exact}
use meshias.Loop.{
  Select, running, finished, main_loop, delete_routes, routing_table_delete, msh_data_shutdown,
  run_started, main,
}
use meshias.Loop.Startup.{
  Fds, InitCalls, InitResult, exited, err_init, started, clear_data, stats_init, set_interface,
  find_interface, msh_data_init,
}
use meshias.Loop.Keeps.{main_loop-Keeps}
use meshias.Comm.Commands.{command-Keeps}
use meshias.Act.{after}
use meshias.Act.Keeps.{Keeps, Keeps-bind, Keeps-choose, Keeps-pure, keeps_rules}
use meshias.Act.Leads.{Leads, Keeps-Leads, Leads-bind}
use meshias.Invariant.Steps.{Steps}
use meshias.Invariant.Basics.{Basics-Steps, delete-Keeps}
use meshias.Invariant.Reach.{rreq_alarm-Keeps, message-Keeps, manage_packet-Keeps}
use meshias.Invariant.Keys.{clear-Same, verdict-Same, hold-Same, drop_packets-Same, bump-Same}
use meshias.Invariant.Table.{TableOk}
use meshias.Invariant.Table.Entering.{still_TableOk}
use meshias.Invariant.Table.Always.{table-Steps, entry_kept, untouched}
use meshias.Invariant.Alarms.{
  AlarmsOk, AlarmsOk-Basics, unchanged, verdict_kept, dropped_kept, packets_kept, push_kept,
}

-- The shut-down.
module _ {P : MshData → Type 0} (steps : Steps P) (packets : Keeps P packets_fifo_delete) where
  deletion-Keeps : (p : ℕ) → Keeps P (routing_table_del p)
  unfolding routing_table_del route_at
  deletion-Keeps p = record { at = λ s h. rw (routing_table_del_exact p s) h }

  routes-Keeps : (table : List ℕ) → Keeps P (delete_routes table)
  unfolding delete_routes
  routes-Keeps [] = search keeps_rules
  routes-Keeps (p ∷ rest) = Keeps-bind _ _ (deletion-Keeps p) λ _. routes-Keeps rest

  entries-Keeps : (queue : List RreqEntry) → Keeps P (delete_entries queue)
  unfolding delete_entries
  entries-Keeps [] = search keeps_rules
  entries-Keeps (e ∷ rest) = Keeps-bind _ _ (steps.delete_entry e.ptr) λ _. entries-Keeps rest

  table-Keeps : Keeps P routing_table_delete
  unfolding routing_table_delete
  table-Keeps = search (keeps_rules, routes-Keeps) depth 10

  requests-Keeps : Keeps P rreq_fifo_delete
  unfolding rreq_fifo_delete
  requests-Keeps = search (keeps_rules, entries-Keeps) depth 10

  pub shutdown-Keeps : Keeps P msh_data_shutdown
  unfolding msh_data_shutdown
  shutdown-Keeps =
      Keeps-bind _ _ steps.no_flush_alarm
        λ _. Keeps-bind _ _ table-Keeps λ _. Keeps-bind _ _ requests-Keeps λ _. packets

-- The lists at start-up.
pub record Empty (s : MshData) : Type 0 where
  pub table : s.routing_table ≡ []
  pub packets : s.packets_queue ≡ []
  pub requests : s.rreq_queue ≡ []
  pub alarms : s.alarms ≡ []

stats-Empty : Keeps Empty stats_init
unfolding stats_init
stats-Empty = record {
  at = λ s h. record {
    table = h.table;
    packets = h.packets;
    requests = h.requests;
    alarms = h.alarms;
  };
}

interface-Empty :
    (net_iface local broadcast : ℕ) → Keeps Empty (set_interface net_iface local broadcast)
unfolding set_interface
interface-Empty net_iface local broadcast = record {
  at = λ s h. record {
    table = h.table;
    packets = h.packets;
    requests = h.requests;
    alarms = h.alarms;
  };
}

find-Empty : (calls : InitCalls) (fds : Fds) → Keeps Empty (find_interface calls fds)
unfolding find_interface
find-Empty calls fds = search (keeps_rules, interface-Empty) depth 20

abbrev pub NonePending : MshData → Type 0
NonePending s = s.alarms ≡ []

clear-Empty : Leads NonePending (λ _. Empty) clear_data
unfolding clear_data
clear-Empty = record {
  ends = λ s h. record { table = refl; packets = refl; requests = refl; alarms = h };
}

-- From no pending alarm.
pub init-Empty : (calls : InitCalls) → Leads NonePending (λ _. Empty) (msh_data_init calls)
unfolding msh_data_init
init-Empty calls =
    Leads-bind _ _ clear-Empty
      λ _. Keeps-Leads _ (search (keeps_rules, stats-Empty, find-Empty) depth 30)

-- What holds after the start-up, and what the loop and the shut-down keep, holds whenever `main` ends
-- or waits.
module _ {P : MshData → Type 0}
    (loop : (reports : List Select) (next : Timeval) → Keeps P (main_loop reports next))
    (shutdown : Keeps P msh_data_shutdown) where
  run-Keeps :
      (reports : List Select) (next : Timeval) (r : InitResult)
      → Keeps P (run_started reports next r)
  unfolding run_started
  run-Keeps reports next exited = search keeps_rules
  run-Keeps reports next err_init = search keeps_rules
  run-Keeps reports next (started fds) = Keeps-bind _ _ (loop reports next) λ ended.
      Keeps-choose ended _ _ (Keeps-bind _ _ shutdown λ _. Keeps-pure finished) (Keeps-pure running)

  pub main_from :
      {Q : MshData → Type 0} (calls : InitCalls)
      → Leads Q (λ _. P) (msh_data_init calls)
      → (reports : List Select) (next : Timeval) → Leads Q (λ _. P) (main calls reports next)
  unfolding main
  main_from calls init reports next =
      Leads-bind _ _ init λ r. record { ends = λ s h. (run-Keeps reports next r).at s h }

  -- What holds with empty lists.
  pub main-Leads :
      ((s : MshData) → Empty s → P s)
      → (calls : InitCalls) (reports : List Select) (next : Timeval)
      → Leads NonePending (λ _. P) (main calls reports next)
  main-Leads start calls reports next =
      main_from calls (record { ends = λ s h. start _ ((init-Empty calls).ends s h) }) reports next

packets-TableOk : (queue : List PacketObj) → Keeps TableOk (set_packets queue)
unfolding set_packets
packets-TableOk queue = untouched _ (λ s. refl) (λ s. refl) λ s. omega arith

verdict-TableOk : (id : ℕ) (v : Verdict) → Keeps TableOk (nfq_set_verdict id v)
verdict-TableOk id v = still_TableOk _ λ start. verdict-Same start id v

count-TableOk : (f : Statistics → Statistics) → Keeps TableOk (bump f)
count-TableOk f = still_TableOk _ λ start. bump-Same start f

loop-TableOk : (reports : List Select) (next : Timeval) → Keeps TableOk (main_loop reports next)
loop-TableOk =
    main_loop-Keeps table-Steps
      (manage_packet-Keeps table-Steps verdict-TableOk
        λ id dest. still_TableOk _ λ start. hold-Same start id dest)
      (rreq_alarm-Keeps table-Steps (λ p. still_TableOk _ λ start. clear-Same start _) entry_kept
        λ dest. still_TableOk _ λ start. drop_packets-Same start dest)
      (message-Keeps table-Steps (count-TableOk _))
      (command-Keeps λ s ended counts events h. record {
        host = h.host;
        distinct = h.distinct;
        allocated = h.allocated;
      })

alarm_steps : Steps AlarmsOk
alarm_steps = Basics-Steps AlarmsOk-Basics

loop-AlarmsOk : (reports : List Select) (next : Timeval) → Keeps AlarmsOk (main_loop reports next)
unfolding bump
loop-AlarmsOk =
    main_loop-Keeps alarm_steps (manage_packet-Keeps alarm_steps verdict_kept push_kept)
      (rreq_alarm-Keeps alarm_steps (λ p. AlarmsOk-Basics.no_alarm _) AlarmsOk-Basics.entry
        AlarmsOk-Basics.drop_packets)
      (message-Keeps alarm_steps (unchanged _ λ s. refl))
      (command-Keeps λ s ended counts events h. record { ordered = h.ordered; once = h.once })

-- Whenever `main`, started with no pending alarm, waits in `select` or has ended, whatever it received
-- until then: the routing table is well-formed (host routes to pairwise different addresses, all of
-- them allocated), the pending alarms are in the order of their times, and none is pending twice.
pub main_invariants :
    (calls : InitCalls) (reports : List Select) (next : Timeval) (s : MshData)
    → s.alarms ≡ []
    → TableOk (after (main calls reports next) s) × AlarmsOk (after (main calls reports next) s)
main_invariants calls reports next s none_pending = (
  (main-Leads loop-TableOk
        (shutdown-Keeps table-Steps
          (delete-Keeps verdict-TableOk (count-TableOk _) packets-TableOk))
        (λ t e. record {
          host = rw e.table tt;
          distinct = rw e.table tt;
          allocated = rw e.table tt;
        })
        calls reports next).ends
      s none_pending,
  (main-Leads loop-AlarmsOk
        (shutdown-Keeps alarm_steps (delete-Keeps verdict_kept dropped_kept packets_kept))
        (λ t e. record { ordered = rw e.alarms tt; once = rw e.alarms λ o. ground arith }) calls
        reports next).ends
      s none_pending,
)
