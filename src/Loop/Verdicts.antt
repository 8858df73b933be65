-- ===== src/Loop/Verdicts.antt =====
-- Verdicts over the whole life of the daemon: how often a packet can get one.
use meshias.Base.{
  ℕ, zero, suc, ◌+◌, ◌/◌, ◌≤◌, ◌≡◌, refl, subst, ◌∙◌, Bool, true, false, Option, none, some, List,
  [], ◌∷◌, arith, length,
}
use meshias.Time.{Timeval}
use meshias.State.{MshData, Event, send, bump}
use meshias.PacketsFifo.{packets_fifo_delete}
use meshias.PacketsFifo.Laws.{tally, settled, tally-delete}
use meshias.Comm.{comm_interface_process_command, comm_interface_receive_packets, reply_to}
use meshias.Comm.Sending.{pieces_sent}
use meshias.Comm.Commands.{process_command-commanded, replied}
use meshias.Loop.{
  AodvRead, aodv_socket_receive_packet, look_ahead, wake, NfqRead, nfq_failed, nfq_nothing,
  nfq_packet, nfqueue_receive_packet, Ready, Select, timed_out, ready, receive, turn, main_loop,
  run_started, main, running, finished, msh_data_shutdown,
}
use meshias.Loop.Startup.{
  Fds, InitCalls, InitResult, exited, err_init, started, msh_data_init, clear_data, stats_init,
  set_interface, find_interface,
}
use meshias.Loop.Keeps.{message-Keeps, comm-Keeps, look_ahead-Keeps, wake-Keeps}
use meshias.Loop.Always.{shutdown-Keeps}
use meshias.Act.{Act, pure, gets, choose, if_found, ◌>>=◌, after, returned}
use meshias.Act.Keeps.{Keeps, Keeps-bind, Keeps-choose, Keeps-pure, keeps_rules}
use meshias.Act.Leads.{Leads, Leads-bind, Keeps-Leads}
use meshias.Invariant.Steps.{expiry}
use meshias.Invariant.Reach.{rreq_alarm-Keeps}
use meshias.Invariant.Packets.{
  TallyIs, tally-Basics, tally-Steps, message_kept, more, tally-manage_packet,
}

-- Sending gives no verdict.
settled-pieces :
    (id n : ℕ) (buf : List ℕ) (offset : ℕ) (trace : List Event)
    → settled id (pieces_sent buf n offset trace) ≡ settled id trace
settled-pieces id zero buf offset trace = refl
settled-pieces id (suc n) buf offset trace =
    settled-pieces id n buf (offset + 1024) (send buf offset 1024 ∷ trace)

settled-replied :
    (id : ℕ) (reply : Option (List ℕ)) (trace : List Event)
    → settled id (replied reply trace) ≡ settled id trace
settled-replied id none trace = refl
settled-replied id (some text) trace = settled-pieces id ((length text + 1023) / 1024) text 0 trace

module _ (id k : ℕ) where
  command_kept : (c : List ℕ) → Keeps (TallyIs id k) (comm_interface_process_command c)
  command_kept c = record {
    at = λ s h.
        rw (process_command-commanded c s, settled-replied id (returned (reply_to c) s) s.trace) h;
  }

  retry_kept : (p : ℕ) → Keeps (TallyIs id k) (expiry p)
  retry_kept =
      rreq_alarm-Keeps (tally-Steps id k) (λ p. (tally-Basics id k).no_alarm _)
        (tally-Basics id k).entry (tally-Basics id k).drop_packets

  message_read_kept : (read : AodvRead) → Keeps (TallyIs id k) (aodv_socket_receive_packet read)
  message_read_kept = message-Keeps (tally-Steps id k) retry_kept (message_kept id k) command_kept

  comm_kept :
      (received : Option (List ℕ)) → Keeps (TallyIs id k) (comm_interface_receive_packets received)
  comm_kept = comm-Keeps (tally-Steps id k) retry_kept (message_kept id k) command_kept

  look_ahead_kept : (next : Timeval) → Keeps (TallyIs id k) (look_ahead next)
  look_ahead_kept = look_ahead-Keeps (tally-Steps id k) retry_kept (message_kept id k) command_kept

  wake_kept : (next : Timeval) → Keeps (TallyIs id k) (wake next)
  wake_kept = wake-Keeps (tally-Steps id k) retry_kept (message_kept id k) command_kept

  delete_kept : Keeps (TallyIs id k) packets_fifo_delete
  delete_kept = record { at = λ s h. tally-delete id s ∙ h }

-- The action adds at most so many packets held or verdicts for the id.
record Adds (id n : ℕ) {A : Type 0} (m : Act MshData A) : Type 0 where
  pub at : (s : MshData) → tally id (m s).1 ≤ tally id s + n

module _ (id : ℕ) where
  Adds-none : {A : Type 0} (m : Act MshData A) → ((k : ℕ) → Keeps (TallyIs id k) m) → Adds id 0 m
  Adds-none m kept = record { at = λ s. rw ((kept (tally id s)).at s refl) (omega arith) }

  Adds-bind :
      {A B : Type 0} (i j : ℕ) (m : Act MshData A) (f : A → Act MshData B)
      → Adds id i m
      → ((a : A) → Adds id j (f a))
      → Adds id (i + j) (m >>= f)
  unfolding ◌>>=◌
  Adds-bind i j m f hm hf = record { at = λ s. omega (arith, hm.at s, (hf (m s).0).at (m s).1) }

  Adds-choose :
      {A : Type 0} (b : Bool) (n : ℕ) (x y : Act MshData A)
      → Adds id n x
      → Adds id n y
      → Adds id n (choose b x y)
  unfolding choose
  Adds-choose true n x y hx hy = hx
  Adds-choose false n x y hx hy = hy

  -- What a report hands over.
  abbrev pub taken : Option NfqRead → ℕ
  taken none = 0
  taken (some nfq_failed) = 0
  taken (some nfq_nothing) = 0
  taken (some (nfq_packet packet)) = more id packet 0

  abbrev pub handed_over : Select → ℕ
  handed_over timed_out = 0
  handed_over (ready r) = taken r.nfqueue

  -- How often the reports hand the packet over.
  abbrev pub captured_times : List Select → ℕ
  captured_times [] = 0
  captured_times (report ∷ reports) = handed_over report + captured_times reports

  Adds-kept :
      {A B : Type 0} (n : ℕ) (m : Act MshData A) (f : A → Act MshData B)
      → Adds id n m
      → ((a : A) (k : ℕ) → Keeps (TallyIs id k) (f a))
      → Adds id n (m >>= f)
  unfolding ◌>>=◌
  Adds-kept n m f hm kept = record {
    at = λ s. rw ((kept (m s).0 (tally id (m s).1)).at (m s).1 refl) (hm.at s);
  }

  nfq-Adds :
      (found : Option NfqRead)
      → Adds id (taken found) (if_found found nfqueue_receive_packet (pure tt))
  unfolding if_found nfqueue_receive_packet pure bump ◌>>=◌
  nfq-Adds none = record { at = λ s. omega arith }
  nfq-Adds (some nfq_failed) = record { at = λ s. omega arith }
  nfq-Adds (some nfq_nothing) = record { at = λ s. omega arith }
  nfq-Adds (some (nfq_packet packet)) = record {
    at = λ s. ground (arith, tally-manage_packet id packet s);
  }

  receive-Adds : (r : Ready) → Adds id (taken r.nfqueue) (receive r)
  unfolding receive
  receive-Adds r =
      Adds-kept (taken r.nfqueue) _ _ (nfq-Adds r.nfqueue)
        λ _ k. search (keeps_rules, message_read_kept id k, comm_kept id k) depth 20

  turn-Adds : (report : Select) (next : Timeval) → Adds id (handed_over report) (turn report next)
  unfolding turn
  turn-Adds timed_out next = Adds-none _ λ k. wake_kept id k next
  turn-Adds (ready r) next =
      Adds-kept (taken r.nfqueue) _ _ (receive-Adds r)
        λ _ k. search (keeps_rules, look_ahead_kept id k, wake_kept id k) depth 20

  pure-Adds : {A : Type 0} (n : ℕ) (a : A) → Adds id n (pure a)
  unfolding pure
  pure-Adds n a = record { at = λ s. omega arith }

  loop-Adds :
      (reports : List Select) (next : Timeval)
      → Adds id (captured_times reports) (main_loop reports next)
  unfolding main_loop gets ◌>>=◌
  loop-Adds [] next = record { at = λ s. omega arith }
  loop-Adds (report ∷ reports) next = record {
    at = λ s.
        (Adds-choose s.end (captured_times (report ∷ reports)) _ _
            (pure-Adds (captured_times (report ∷ reports)) true)
            (Adds-bind (handed_over report) (captured_times reports) _ _ (turn-Adds report next)
              (loop-Adds reports))).at
          s;
  }

  shutdown_kept : (k : ℕ) → Keeps (TallyIs id k) msh_data_shutdown
  shutdown_kept k = shutdown-Keeps (tally-Steps id k) (delete_kept id k)

  run-Adds :
      (reports : List Select) (next : Timeval) (r : InitResult)
      → Adds id (captured_times reports) (run_started reports next r)
  unfolding run_started pure
  run-Adds reports next exited = record { at = λ s. omega arith }
  run-Adds reports next err_init = record { at = λ s. omega arith }
  run-Adds reports next (started fds) =
      Adds-kept (captured_times reports) _ _ (loop-Adds reports next) λ ended k.
        Keeps-choose ended _ _ (Keeps-bind _ _ (shutdown_kept k) λ _. Keeps-pure finished)
          (Keeps-pure running)

module _ (id k : ℕ) where
  stats_kept : Keeps (TallyIs id k) stats_init
  unfolding stats_init
  stats_kept = record { at = λ s h. h }

  interface_kept :
      (net_iface local broadcast : ℕ)
      → Keeps (TallyIs id k) (set_interface net_iface local broadcast)
  unfolding set_interface
  interface_kept net_iface local broadcast = record { at = λ s h. h }

  find_kept : (calls : InitCalls) (fds : Fds) → Keeps (TallyIs id k) (find_interface calls fds)
  unfolding find_interface
  find_kept calls fds = search (keeps_rules, interface_kept) depth 20

  clear_lem : Leads (λ s. settled id s.trace ≡ k) (λ _. TallyIs id k) clear_data
  unfolding clear_data
  clear_lem = record { ends = λ s h. omega (arith, h) }

  init_lem :
      (calls : InitCalls)
      → Leads (λ s. settled id s.trace ≡ k) (λ _. TallyIs id k) (msh_data_init calls)
  unfolding msh_data_init
  init_lem calls =
      Leads-bind _ _ clear_lem
        λ _. Keeps-Leads _ (search (keeps_rules, stats_kept, find_kept) depth 30)

-- In its whole life, the shut-down included, the daemon holds a packet and gives verdicts on it at most
-- as often as netfilter handed it over: no packet that comes once gets two verdicts, whatever messages,
-- commands and alarms come between.
pub main_verdicts :
    (id : ℕ) (calls : InitCalls) (reports : List Select) (next : Timeval) (s : MshData)
    → tally id (after (main calls reports next) s) ≤ settled id s.trace + captured_times id reports
unfolding main ◌>>=◌
main_verdicts id calls reports next s =
    let initialised = msh_data_init calls s in
    subst (λ n. tally id (after (main calls reports next) s) ≤ n + captured_times id reports)
      ((init_lem id (settled id s.trace) calls).ends s refl)
      ((run-Adds id reports next initialised.0).at initialised.1)
