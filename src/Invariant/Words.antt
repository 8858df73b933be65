-- ===== src/Invariant/Words.antt =====
-- The numbers that the daemon counts in stay words of 32 bits.
use meshias.Base.{ℕ, ◌<◌, ◌≡◌, refl, List, arith}
use meshias.Word.{u32_mod}
use meshias.Route.Ops.{unlink}
use meshias.State.{
  MshData, Verdict, PacketObj, Statistics, update_route, emit, new_ptr, new_route, nfq_set_verdict,
  bump, set_alarm, clear_alarm, gettimeofday,
}
use meshias.PacketsFifo.{packets_fifo_push, packets_fifo_delete, set_packets, count_dropped}
use meshias.RreqFifo
use meshias.RoutingTable
use meshias.RoutingTable.{add_to_kernel}
use meshias.Packet.Check.{send_bytes}
use meshias.Logic.Discovery.{next_rreq, count_rreq_sent, update_entry}
use meshias.Logic.Reply.{renew_seq_num}
use meshias.Logic.Receive.{count_incorrect_type}
use meshias.Daemon.{reset_rreq_sent}
use meshias.Comm.{comm_interface_process_command}
use meshias.Comm.Commands.{process_command-commanded}
use meshias.Act.{Act}
use meshias.Act.Keeps.{Keeps}
use meshias.Invariant.Steps.{Steps, CountersFit}
use meshias.Invariant.Basics.{
  Basics, Basics-Steps, process_route-Keeps, drop_packets-Keeps, delete-Keeps,
}

pub record WordsFit (s : MshData) : Type 0 where
  pub seq_num : s.seq_num < u32_mod
  pub rreq_id : s.rreq_id < u32_mod
  pub num_rreq_sent : s.num_rreq_sent < u32_mod
  pub counters : CountersFit s.stats

-- An action that leaves these numbers alone.
idle :
    {A : Type 0} (m : Act MshData A)
    → ((s : MshData) → (m s).1.seq_num ≡ s.seq_num)
    → ((s : MshData) → (m s).1.rreq_id ≡ s.rreq_id)
    → ((s : MshData) → (m s).1.num_rreq_sent ≡ s.num_rreq_sent)
    → ((s : MshData) → (m s).1.stats ≡ s.stats)
    → Keeps WordsFit m
idle m seq_num rreq_id sent stats = record {
  at = λ s h. record {
    seq_num = rw (seq_num s) h.seq_num;
    rreq_id = rw (rreq_id s) h.rreq_id;
    num_rreq_sent = rw (sent s) h.num_rreq_sent;
    counters = rw (stats s) h.counters;
  };
}

pub verdict-WordsFit : (id : ℕ) (v : Verdict) → Keeps WordsFit (nfq_set_verdict id v)
unfolding nfq_set_verdict
verdict-WordsFit id v = idle _ (λ s. refl) (λ s. refl) (λ s. refl) λ s. refl

packets-WordsFit : (queue : List PacketObj) → Keeps WordsFit (set_packets queue)
unfolding set_packets
packets-WordsFit queue = idle _ (λ s. refl) (λ s. refl) (λ s. refl) λ s. refl

pub hold-WordsFit : (id dest : ℕ) → Keeps WordsFit (packets_fifo_push id dest)
unfolding packets_fifo_push
hold-WordsFit id dest = idle _ (λ s. refl) (λ s. refl) (λ s. refl) λ s. refl

bump-WordsFit :
    (f : Statistics → Statistics)
    → ((st : Statistics) → CountersFit st → CountersFit (f st))
    → Keeps WordsFit (bump f)
unfolding bump
bump-WordsFit f fits = record {
  at = λ s h. record {
    seq_num = h.seq_num;
    rreq_id = h.rreq_id;
    num_rreq_sent = h.num_rreq_sent;
    counters = fits s.stats h.counters;
  };
}

pub type-WordsFit : Keeps WordsFit (bump count_incorrect_type)
type-WordsFit = bump-WordsFit _ λ st h. ground (arith, h)

dropped-WordsFit : Keeps WordsFit (bump count_dropped)
dropped-WordsFit = bump-WordsFit _ λ st h. ground (arith, h)

pub delete_packets-WordsFit : Keeps WordsFit packets_fifo_delete
delete_packets-WordsFit = delete-Keeps verdict-WordsFit dropped-WordsFit packets-WordsFit

next-WordsFit : Keeps WordsFit next_rreq
unfolding next_rreq
next-WordsFit = record {
  at = λ s h. record {
    seq_num = ground arith;
    rreq_id = ground arith;
    num_rreq_sent = h.num_rreq_sent;
    counters = h.counters;
  };
}

sent-WordsFit : Keeps WordsFit count_rreq_sent
unfolding count_rreq_sent
sent-WordsFit = record {
  at = λ s h. record {
    seq_num = h.seq_num;
    rreq_id = h.rreq_id;
    num_rreq_sent = ground arith;
    counters = h.counters;
  };
}

reset-WordsFit : Keeps WordsFit reset_rreq_sent
unfolding reset_rreq_sent
reset-WordsFit = record {
  at = λ s h. record {
    seq_num = h.seq_num;
    rreq_id = h.rreq_id;
    num_rreq_sent = ground arith;
    counters = h.counters;
  };
}

renew-WordsFit : (n : ℕ) → Keeps WordsFit (renew_seq_num n)
unfolding renew_seq_num
renew-WordsFit n = record {
  at = λ s h. record {
    seq_num = ground (arith, h.seq_num);
    rreq_id = h.rreq_id;
    num_rreq_sent = h.num_rreq_sent;
    counters = h.counters;
  };
}

pub WordsFit-Basics : Basics WordsFit
unfolding update_route new_ptr new_route gettimeofday emit unlink set_alarm clear_alarm
    RoutingTable.list_add add_to_kernel send_bytes RreqFifo.list_add RreqFifo.list_del update_entry
WordsFit-Basics = record {
  write = λ p f. idle _ (λ s. refl) (λ s. refl) (λ s. refl) λ s. refl;
  new_address = idle _ (λ s. refl) (λ s. refl) (λ s. refl) λ s. refl;
  allocate = idle _ (λ s. refl) (λ s. refl) (λ s. refl) λ s. refl;
  clock = idle _ (λ s. refl) (λ s. refl) (λ s. refl) λ s. refl;
  kernel_del = λ n. idle _ (λ s. refl) (λ s. refl) (λ s. refl) λ s. refl;
  kernel_gateway = λ n ip len. idle _ (λ s. refl) (λ s. refl) (λ s. refl) λ s. refl;
  count = λ f counts. bump-WordsFit f counts.fits;
  alarm = λ o d. idle _ (λ s. refl) (λ s. refl) (λ s. refl) λ s. refl;
  no_alarm = λ o. idle _ (λ s. refl) (λ s. refl) (λ s. refl) λ s. refl;
  remove = λ p. idle _ (λ s. refl) (λ s. refl) (λ s. refl) λ s. refl;
  link = λ p. idle _ (λ s. refl) (λ s. refl) (λ s. refl) λ s. refl;
  kernel = λ n r. idle _ (λ s. refl) (λ s. refl) (λ s. refl) λ s. refl;
  send = λ pkt. idle _ (λ s. refl) (λ s. refl) (λ s. refl) λ s. refl;
  request = next-WordsFit;
  request_count = sent-WordsFit;
  request_reset = reset-WordsFit;
  renew = renew-WordsFit;
  process_route = process_route-Keeps verdict-WordsFit dropped-WordsFit packets-WordsFit;
  drop_packets = drop_packets-Keeps verdict-WordsFit dropped-WordsFit packets-WordsFit;
  entry_add = λ e. idle _ (λ s. refl) (λ s. refl) (λ s. refl) λ s. refl;
  entry_del = λ p. idle _ (λ s. refl) (λ s. refl) (λ s. refl) λ s. refl;
  entry = λ p f. idle _ (λ s. refl) (λ s. refl) (λ s. refl) λ s. refl;
}

pub WordsFit-Steps : Steps WordsFit
WordsFit-Steps = Basics-Steps WordsFit-Basics

pub command-WordsFit : (c : List ℕ) → Keeps WordsFit (comm_interface_process_command c)
command-WordsFit c = record {
  at = λ s h. rw (process_command-commanded c s) (record {
    seq_num = h.seq_num;
    rreq_id = h.rreq_id;
    num_rreq_sent = h.num_rreq_sent;
    counters = ground (arith, h.counters);
  });
}
