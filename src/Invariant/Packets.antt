-- ===== src/Invariant/Packets.antt =====
-- No packet is lost or settled twice, whatever the daemon does: `tally` counts how often a packet is
-- held and how often it has a verdict.
use meshias.Base.{
  ℕ, ℤ, pos, ◌==◌, ◌≤◌, ◌≡◌, refl, ◌∙◌, Bool, true, false, not, none, suc, if◌then◌else◌, arith,
}
use meshias.Route.Ops.{unlink}
use meshias.State.{
  MshData, update_route, emit, new_ptr, new_route, nfq_set_verdict, bump, set_alarm, clear_alarm,
  gettimeofday,
}
use meshias.PacketsFifo.{packets_fifo_push}
use meshias.PacketsFifo.Laws.{tally, tally-process_route, tally-drop_packets}
use meshias.RreqFifo
use meshias.RreqFifo.{rreq_fifo_waiting_response_for}
use meshias.RoutingTable
use meshias.RoutingTable.{add_to_kernel, routing_table_update_route}
use meshias.Packet.Check.{Msghdr, send_bytes}
use meshias.Logic.Discovery.{next_rreq, count_rreq_sent, update_entry, aodv_find_route}
use meshias.Logic.Receive.{aodv_process_packet}
use meshias.Logic.Reply.{renew_seq_num}
use meshias.Nfqueue.{
  NfqData, accept, hold, nfqueue_packet_get_id, manage_output_packet, manage_input_packet,
  manage_forward_packet, manage_packet,
}
use meshias.Daemon.{reset_rreq_sent, do_alarm_run}
use meshias.Act.{Act, pure, gets, ◌>>=◌, ◌>>◌, choose, when, after}
use meshias.Act.Keeps.{Keeps, keeps_rules}
use meshias.Invariant.Steps.{Steps}
use meshias.Invariant.Basics.{Basics, Basics-Steps}
use meshias.Invariant.Handlers.{update_route-Keeps}
use meshias.Invariant.Messages.{find_route-Keeps}
use meshias.Invariant.Reach.{message-Keeps, rreq_alarm-Keeps, alarm_run-Keeps}

module _ (id k : ℕ) where
  abbrev pub TallyIs : MshData → Type 0
  TallyIs s = tally id s ≡ k

  unchanged :
      {A : Type 0} (m : Act MshData A)
      → ((s : MshData) → tally id (m s).1 ≡ tally id s)
      → Keeps TallyIs m
  unchanged m e = record { at = λ s h. e s ∙ h }

  pub tally-Basics : Basics TallyIs
  unfolding update_route new_ptr new_route gettimeofday emit bump unlink set_alarm clear_alarm
      RoutingTable.list_add add_to_kernel send_bytes next_rreq count_rreq_sent reset_rreq_sent
      renew_seq_num RreqFifo.list_add RreqFifo.list_del update_entry
  tally-Basics = record {
    write = λ p f. unchanged _ λ s. refl;
    new_address = unchanged _ λ s. refl;
    allocate = unchanged _ λ s. refl;
    clock = unchanged _ λ s. refl;
    kernel_del = λ n. unchanged _ λ s. refl;
    kernel_gateway = λ n ip len. unchanged _ λ s. refl;
    count = λ f _. unchanged _ λ s. refl;
    alarm = λ o d. unchanged _ λ s. refl;
    no_alarm = λ o. unchanged _ λ s. refl;
    remove = λ p. unchanged _ λ s. refl;
    link = λ p. unchanged _ λ s. refl;
    kernel = λ n r. unchanged _ λ s. refl;
    send = λ pkt. unchanged _ λ s. refl;
    request = unchanged _ λ s. refl;
    request_count = unchanged _ λ s. refl;
    request_reset = unchanged _ λ s. refl;
    renew = λ n. unchanged _ λ s. refl;
    process_route = λ p. unchanged _ (tally-process_route id p);
    drop_packets = λ dest. unchanged _ (tally-drop_packets id dest);
    entry_add = λ e. unchanged _ λ s. refl;
    entry_del = λ p. unchanged _ λ s. refl;
    entry = λ p f. unchanged _ λ s. refl;
  }

  pub tally-Steps : Steps TallyIs
  tally-Steps = Basics-Steps tally-Basics

  pub message_kept : (msg : Msghdr) (n stray : ℕ) → Keeps TallyIs (aodv_process_packet msg n stray)
  unfolding bump
  message_kept = message-Keeps tally-Steps (unchanged _ λ s. refl)

  alarm_run_kept : Keeps TallyIs do_alarm_run
  alarm_run_kept = alarm_run-Keeps tally-Steps (
      rreq_alarm-Keeps tally-Steps (λ p. tally-Basics.no_alarm _) tally-Basics.entry
        tally-Basics.drop_packets)

-- No AODV message loses a packet or settles one twice: for each packet id, the times it is held and
-- the verdicts on it add up to the same number before and after.
pub tally-process_packet :
    (id : ℕ) (msg : Msghdr) (n stray : ℕ) (s : MshData)
    → tally id (after (aodv_process_packet msg n stray) s) ≡ tally id s
tally-process_packet id msg n stray s = (message_kept id (tally id s) msg n stray).at s refl

-- A run of the due alarms loses no packet and settles none twice.
pub tally-alarm_run : (id : ℕ) (s : MshData) → tally id (after do_alarm_run s) ≡ tally id s
tally-alarm_run id s = (alarm_run_kept id (tally id s)).at s refl

-- One more for the packet itself.
abbrev pub more : ℕ → NfqData → ℕ → ℕ
more id packet n = if nfqueue_packet_get_id packet == id then suc n else n

module _ (id : ℕ) (packet : NfqData) where
  record Handles (m : Act MshData ℤ) : Type 0 where
    pub at : (s : MshData) → tally id (m s).1 ≤ more id packet (tally id s)

  Handles-choose : (b : Bool) (m n : Act MshData ℤ) → Handles m → Handles n → Handles (choose b m n)
  unfolding choose
  Handles-choose true m n hm hn = hm
  Handles-choose false m n hm hn = hn

  Handles-pure : (n : ℤ) → Handles (pure n)
  unfolding pure
  Handles-pure n = record { at = λ s. ground arith }

  Handles-gets :
      {A : Type 0} (f : MshData → A) (rest : A → Act MshData ℤ)
      → ((a : A) → Handles (rest a))
      → Handles (gets f >>= rest)
  unfolding gets ◌>>=◌
  Handles-gets f rest h = record { at = λ s. (h (f s)).at s }

  Handles-after :
      {A : Type 0} (m : Act MshData A) (rest : A → Act MshData ℤ)
      → ((k : ℕ) → Keeps (TallyIs id k) m)
      → ((a : A) → Handles (rest a))
      → Handles (m >>= rest)
  unfolding ◌>>=◌
  Handles-after m rest km h = record {
    at = λ s. ground (arith, (h (m s).0).at (m s).1, (km (tally id s)).at s refl);
  }

  Handles-accept : Handles (accept packet)
  unfolding accept nfq_set_verdict
  Handles-accept = record { at = λ s. ground arith }

  Handles-push :
      (rest : Act MshData ℤ) (dest : ℕ)
      → ((k : ℕ) → Keeps (TallyIs id k) rest)
      → Handles (packets_fifo_push (nfqueue_packet_get_id packet) dest >> rest)
  unfolding packets_fifo_push ◌>>=◌
  Handles-push rest dest kept = record {
    at = λ s. ground (
      arith,
      (kept (tally id (packets_fifo_push (nfqueue_packet_get_id packet) dest s).1)).at
          (packets_fifo_push (nfqueue_packet_get_id packet) dest s).1 refl,
    );
  }

  search_kept :
      (dest k : ℕ)
      → Keeps (TallyIs id k) do
        waiting ← gets (λ s. rreq_fifo_waiting_response_for s.rreq_queue dest)
        when (not waiting) (aodv_find_route dest none 0)
        pure (pos 1)
  search_kept dest k = search (keeps_rules, find_route-Keeps (tally-Steps id k)) depth 20

  Handles-hold : (dest : ℕ) → Handles (hold (nfqueue_packet_get_id packet) dest)
  unfolding hold
  Handles-hold dest = Handles-push _ dest (search_kept dest)

  update_kept : (dest orig k : ℕ) → Keeps (TallyIs id k) (routing_table_update_route dest orig)
  update_kept dest orig k = update_route-Keeps (tally-Steps id k) dest orig

  Handles-packet : Handles (manage_packet packet)
  unfolding manage_packet manage_output_packet manage_input_packet manage_forward_packet
  Handles-packet =
      search
        (
          Handles-choose, Handles-pure, Handles-gets, Handles-after, Handles-accept, Handles-hold,
          update_kept,
        )
        depth 30

-- A captured packet is held once or has one verdict, or is left alone; every other packet is held and
-- has verdicts as before.
pub tally-manage_packet :
    (id : ℕ) (packet : NfqData) (s : MshData)
    → tally id (after (manage_packet packet) s) ≤ more id packet (tally id s)
tally-manage_packet id packet s = (Handles-packet id packet).at s
