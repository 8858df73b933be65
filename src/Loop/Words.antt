-- ===== src/Loop/Words.antt =====
-- The widths of the daemon's numbers over its whole life, and what they mean for the statistics.
use mathlib.Core.Option
use meshias.Base.{ℕ, ◌≡◌, true, some, List, ap, ◌∙◌, starts_with, arith}
use meshias.Time.{Timeval}
use meshias.State.{MshData}
use meshias.Loop.{Select, main_loop, main}
use meshias.Loop.Startup.{
  Fds, InitCalls, clear_data, stats_init, set_interface, find_interface, msh_data_init,
}
use meshias.Loop.Keeps.{main_loop-Keeps}
use meshias.Loop.Always.{shutdown-Keeps, main_from}
use meshias.Comm.{msg_show_statistics, reply_to}
use meshias.Comm.Format.{statistics_fields}
use meshias.Comm.Readback.{read_line}
use meshias.Comm.Bounds.{read_line-get_statistics}
use meshias.Comm.Commands.{reply-statistics}
use meshias.Act.{after, returned}
use meshias.Act.Keeps.{Keeps, keeps_rules}
use meshias.Act.Leads.{Leads, Keeps-Leads, Leads-bind}
use meshias.Invariant.Steps.{CountersFit}
use meshias.Invariant.Reach.{rreq_alarm-Keeps, message-Keeps, manage_packet-Keeps}
use meshias.Invariant.Words.{
  WordsFit, WordsFit-Basics, WordsFit-Steps, verdict-WordsFit, hold-WordsFit, type-WordsFit,
  command-WordsFit, delete_packets-WordsFit,
}

loop-WordsFit : (reports : List Select) (next : Timeval) → Keeps WordsFit (main_loop reports next)
loop-WordsFit =
    main_loop-Keeps WordsFit-Steps
      (manage_packet-Keeps WordsFit-Steps verdict-WordsFit hold-WordsFit)
      (rreq_alarm-Keeps WordsFit-Steps (λ p. WordsFit-Basics.no_alarm _) WordsFit-Basics.entry
        WordsFit-Basics.drop_packets)
      (message-Keeps WordsFit-Steps type-WordsFit) command-WordsFit

abbrev pub FitAtStart : MshData → Type 0
FitAtStart s = CountersFit s.stats

clear_lem : Leads FitAtStart (λ _. WordsFit) clear_data
unfolding clear_data
clear_lem = record {
  ends = λ s h. record {
    seq_num = ground arith;
    rreq_id = ground arith;
    num_rreq_sent = ground arith;
    counters = h;
  };
}

stats-WordsFit : Keeps WordsFit stats_init
unfolding stats_init
stats-WordsFit = record {
  at = λ s h. record {
    seq_num = h.seq_num;
    rreq_id = h.rreq_id;
    num_rreq_sent = h.num_rreq_sent;
    counters = ground arith;
  };
}

interface-WordsFit :
    (net_iface local broadcast : ℕ) → Keeps WordsFit (set_interface net_iface local broadcast)
unfolding set_interface
interface-WordsFit net_iface local broadcast = record {
  at = λ s h. record {
    seq_num = h.seq_num;
    rreq_id = h.rreq_id;
    num_rreq_sent = h.num_rreq_sent;
    counters = h.counters;
  };
}

find-WordsFit : (calls : InitCalls) (fds : Fds) → Keeps WordsFit (find_interface calls fds)
unfolding find_interface
find-WordsFit calls fds = search (keeps_rules, interface-WordsFit) depth 20

init-WordsFit : (calls : InitCalls) → Leads FitAtStart (λ _. WordsFit) (msh_data_init calls)
unfolding msh_data_init
init-WordsFit calls =
    Leads-bind _ _ clear_lem
      λ _. Keeps-Leads _ (search (keeps_rules, stats-WordsFit, find-WordsFit) depth 30)

-- Whenever `main`, started with counters of 32 bits, waits in `select` or has ended, whatever it received
-- until then: the sequence number, the identifier of the last request, the number of requests sent and
-- every counter of the statistics are words of 32 bits.
pub main_words :
    (calls : InitCalls) (reports : List Select) (next : Timeval) (s : MshData)
    → CountersFit s.stats
    → WordsFit (after (main calls reports next) s)
main_words calls reports next s fits =
    (main_from loop-WordsFit (shutdown-Keeps WordsFit-Steps delete_packets-WordsFit) calls
        (init-WordsFit calls) reports next).ends
      s fits

-- Whatever `main`, started with counters of 32 bits, has received: a command that begins with
-- `showstatistics` gets a reply that is not cut off, and its line reads back as every counter, each as the
-- signed number that `%d` makes of it.
pub main_statistics :
    (calls : InitCalls) (reports : List Select) (next : Timeval) (s : MshData) (c : List ℕ)
    → CountersFit s.stats
    → starts_with msg_show_statistics c ≡ true
    → Option.map (read_line 16) (returned (reply_to c) (after (main calls reports next) s))
      ≡ some (some (statistics_fields (after (main calls reports next) s).stats))
main_statistics calls reports next s c fits asked =
    let t = after (main calls reports next) s in
    ap (Option.map (read_line 16)) (reply-statistics c t asked)
    ∙ ap some (read_line-get_statistics t.stats (main_words calls reports next s fits).counters)
