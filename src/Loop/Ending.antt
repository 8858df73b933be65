-- ===== src/Loop/Ending.antt =====
-- How the daemon ends: the `kill` command.
use meshias.Base.{
  ℕ, lt→ltb, Bool, true, false, some, List, [], ◌∷◌, ◌++◌, ◌≡◌, refl, sym, ap, ◌∙◌, length,
  starts_with, ◌<◌, arith,
}
use meshias.Time.{Timeval}
use meshias.Route.Ops.{unlink}
use meshias.State.{
  MshData, Verdict, PacketObj, update_route, emit, new_ptr, new_route, nfq_set_verdict, bump,
  set_alarm, clear_alarm, gettimeofday,
}
use meshias.PacketsFifo.{count_dropped, packets_fifo_push, set_packets}
use meshias.RreqFifo
use meshias.RreqFifo.{rreq_fifo_entry_delete, delete_entries, rreq_fifo_delete, remove_entry}
use meshias.RoutingTable
use meshias.RoutingTable.{add_to_kernel, routing_table_del}
use meshias.Packet.Check.{Msghdr, send_bytes}
use meshias.Logic.Discovery.{next_rreq, count_rreq_sent, update_entry}
use meshias.Logic.Reply.{renew_seq_num}
use meshias.Logic.Receive.{aodv_process_packet}
use meshias.Daemon.{reset_rreq_sent}
use meshias.Comm.{
  msg_kill, c_string, comm_bufsize, comm_interface_process_command, comm_interface_receive_packets,
}
use meshias.Comm.Commands.{process_command-commanded}
use meshias.Loop.{Select, Ready, ready, receive, turn, main_loop}
use meshias.Loop.Keeps.{look_ahead-Keeps, wake-Keeps}
use meshias.Act.{Act, pure, choose, gets, ◌>>=◌, ◌>>◌, after, returned, if_found}
use meshias.Act.Keeps.{Keeps, keeps_rules}
use meshias.Act.Leads.{Leads, Leads-bind, Leads-choose, Leads-pure, Keeps-Leads}
use meshias.Invariant.Steps.{Steps, expiry}
use meshias.Invariant.Basics.{Basics, Basics-Steps, process_route-Keeps, drop_packets-Keeps}
use meshias.Invariant.Reach.{rreq_alarm-Keeps, message-Keeps}

-- Has the daemon been told to end?
abbrev Ended : MshData → Type 0
Ended s = s.end ≡ true

verdict_kept : (id : ℕ) (v : Verdict) → Keeps Ended (nfq_set_verdict id v)
unfolding nfq_set_verdict
verdict_kept id v = record { at = λ s h. h }

dropped_kept : Keeps Ended (bump count_dropped)
unfolding bump
dropped_kept = record { at = λ s h. h }

packets_kept : (queue : List PacketObj) → Keeps Ended (set_packets queue)
unfolding set_packets
packets_kept queue = record { at = λ s h. h }

push_kept : (id dest : ℕ) → Keeps Ended (packets_fifo_push id dest)
unfolding packets_fifo_push
push_kept id dest = record { at = λ s h. h }

Ended-Basics : Basics Ended
unfolding update_route new_ptr new_route gettimeofday emit bump unlink set_alarm clear_alarm
    RoutingTable.list_add add_to_kernel send_bytes next_rreq count_rreq_sent reset_rreq_sent
    renew_seq_num RreqFifo.list_add RreqFifo.list_del update_entry
Ended-Basics = record {
  write = λ p f. record { at = λ s h. h };
  new_address = record { at = λ s h. h };
  allocate = record { at = λ s h. h };
  clock = record { at = λ s h. h };
  kernel_del = λ n. record { at = λ s h. h };
  kernel_gateway = λ n ip len. record { at = λ s h. h };
  count = λ f _. record { at = λ s h. h };
  alarm = λ o d. record { at = λ s h. h };
  no_alarm = λ o. record { at = λ s h. h };
  remove = λ p. record { at = λ s h. h };
  link = λ p. record { at = λ s h. h };
  kernel = λ n r. record { at = λ s h. h };
  send = λ pkt. record { at = λ s h. h };
  request = record { at = λ s h. h };
  request_count = record { at = λ s h. h };
  request_reset = record { at = λ s h. h };
  renew = λ n. record { at = λ s h. h };
  process_route = process_route-Keeps verdict_kept dropped_kept packets_kept;
  drop_packets = drop_packets-Keeps verdict_kept dropped_kept packets_kept;
  entry_add = λ e. record { at = λ s h. h };
  entry_del = λ p. record { at = λ s h. h };
  entry = λ p f. record { at = λ s h. h };
}

end_steps : Steps Ended
end_steps = Basics-Steps Ended-Basics

retry_kept : (p : ℕ) → Keeps Ended (expiry p)
retry_kept =
    rreq_alarm-Keeps end_steps (λ p. Ended-Basics.no_alarm _) Ended-Basics.entry
      Ended-Basics.drop_packets

message_kept : (msg : Msghdr) (n stray : ℕ) → Keeps Ended (aodv_process_packet msg n stray)
unfolding bump
message_kept = message-Keeps end_steps (record { at = λ s h. h })

command_kept : (c : List ℕ) → Keeps Ended (comm_interface_process_command c)
command_kept c = record { at = λ s h. rw (process_command-commanded c s) (ground (arith, h)) }

-- Once the daemon has been told to end, nothing that follows is looked at.
ended_lem :
    (reports : List Select) (next : Timeval) (s : MshData)
    → s.end ≡ true
    → main_loop reports next s ≡ (true, s)
unfolding main_loop gets ◌>>=◌ choose pure
ended_lem [] next s h = rw h refl
ended_lem (report ∷ reports) next s h = rw h refl

choose_done :
    (ended : Bool) (x y : Act MshData Bool) (s : MshData)
    → (returned y s ≡ true → x s ≡ y s)
    → returned (choose ended (pure true) y) s ≡ true
    → choose ended (pure true) x s ≡ choose ended (pure true) y s
unfolding choose
choose_done true x y s same h = refl
choose_done false x y s same h = same h

main_loop_done :
    (reports more : List Select) (next : Timeval) (s : MshData)
    → returned (main_loop reports next) s ≡ true
    → main_loop (reports ++ more) next s ≡ main_loop reports next s
unfolding main_loop gets ◌>>=◌
main_loop_done [] more next s h = ended_lem more next s h ∙ ap (λ e. (e, s)) (sym h)
main_loop_done (report ∷ reports) more next s h =
    choose_done s.end _ _ s
      (main_loop_done reports more (turn report next s).0 (turn report next s).1) h

-- A `kill` command that arrives whole.
pub record Kills (r : Ready) (text : List ℕ) : Type 0 where
  pub arrives : r.comm ≡ some (some text)
  pub fits : length text < comm_bufsize
  pub kill : starts_with msg_kill (c_string text) ≡ true

any_Leads : {A : Type 0} (m : Act MshData A) → Leads (λ _. Unit) (λ _ _. Unit) m
any_Leads m = record { ends = λ _ _. tt }

kill_received :
    (text : List ℕ) (s : MshData)
    → length text < comm_bufsize
    → starts_with msg_kill (c_string text) ≡ true
    → (after (comm_interface_receive_packets (some text)) s).end ≡ true
unfolding comm_interface_receive_packets ◌>>=◌ choose pure
kill_received text s fits kill =
    rw (lt→ltb (length text) comm_bufsize fits, process_command-commanded (c_string text) s, kill)
      refl

module _ (r : Ready) (text : List ℕ) (k : Kills r text) where
  received_ends :
      Leads
        (λ _. Unit)
        (λ _. Ended)
        (if_found r.comm
          (λ received. do comm_interface_receive_packets received; pure tt)
          (pure tt))
  unfolding if_found ◌>>=◌ pure
  received_ends = record { ends = λ s _. rw k.arrives (kill_received text s k.fits k.kill) }

  receive_ends : Leads (λ _. Unit) (λ _. Ended) (receive r)
  unfolding receive
  receive_ends = Leads-bind _ _ (any_Leads _) λ _. Leads-bind _ _ (any_Leads _) λ _. received_ends

  turn_ends : (next : Timeval) → Leads (λ _. Unit) (λ _. Ended) (turn (ready r) next)
  unfolding turn
  turn_ends next = Leads-bind _ _ receive_ends λ _. Keeps-Leads _ (
      search
        (
          keeps_rules,
          look_ahead-Keeps end_steps retry_kept message_kept command_kept,
          wake-Keeps end_steps retry_kept message_kept command_kept,
        )
        depth 20)

  killed :
      (before : List Select) (next : Timeval)
      → Leads (λ _. Unit) (λ ended _. ended ≡ true) (main_loop (before ++ ready r ∷ []) next)
  unfolding main_loop
  killed [] next = Leads-bind _ _ (any_Leads _) λ ended.
      Leads-choose ended _ _ (Leads-pure true λ _ _. refl) (
        Leads-bind _ _ (turn_ends next)
          λ ahead. record { ends = λ s h. ap (λ r. r.0) (ended_lem [] ahead s h) })
  killed (report ∷ before) next = Leads-bind _ _ (any_Leads _) λ ended.
      Leads-choose ended _ _ (Leads-pure true λ _ _. refl)
        (Leads-bind _ _ (any_Leads _) λ ahead. killed before ahead)

-- The daemon can always be stopped: wherever it stands and whatever it receives before, the main loop
-- ends with the call of `select` that brings a `kill` command shorter than the buffer, and whatever
-- would come later changes nothing.
pub kill-main_loop :
    (before more : List Select) (r : Ready) (text : List ℕ) (next : Timeval) (s : MshData)
    → Kills r text
    → (returned (main_loop (before ++ ready r ∷ []) next) s ≡ true)
      × (main_loop ((before ++ ready r ∷ []) ++ more) next s
          ≡ main_loop (before ++ ready r ∷ []) next s)
kill-main_loop before more r text next s k =
    let ended = (killed r text k before next).ends s tt in
    (ended, main_loop_done (before ++ ready r ∷ []) more next s ended)
