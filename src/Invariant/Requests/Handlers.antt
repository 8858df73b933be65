-- ===== src/Invariant/Requests/Handlers.antt =====
-- The steps of the handlers leave no request without its alarm.
use meshias.Base.{ℕ, refl, Option, List, pos, arith}
use meshias.Alarm.{route_alarm, flush_alarm}
use meshias.Route.Ops.{unlink}
use meshias.State.{
  Verdict, PacketObj, Statistics, update_route, emit, new_ptr, new_route, nfq_set_verdict, bump,
  gettimeofday,
}
use meshias.PacketsFifo.{
  count_dropped, packets_fifo_push, packets_fifo_delete, packets_fifo_drop_packets, set_packets,
}
use meshias.RoutingTable
use meshias.RoutingTable.{add_to_kernel}
use meshias.Packet.Check.{send_bytes}
use meshias.Logic.Discovery.{next_rreq, count_rreq_sent}
use meshias.Logic.Reply.{renew_seq_num}
use meshias.Daemon.{reset_rreq_sent}
use meshias.Act.Keeps.{Keeps}
use meshias.Invariant.Steps.{Steps}
use meshias.Invariant.Basics.{
  RouteParts, add_prev_hop-Keeps, add_orig-Keeps, create_prev_hop-Keeps, create_dest-Keeps,
  process_route-Keeps, drop_packets-Keeps, delete-Keeps,
}
use meshias.Invariant.Requests.{
  Awaited, quiet, set_alarm-Awaited, clear_alarm-Awaited, push-Awaited, push_owned-Awaited,
  delete-Awaited,
}

module _ (x : Option ℕ) where
  pub verdict-Awaited : (id : ℕ) (v : Verdict) → Keeps (Awaited x) (nfq_set_verdict id v)
  unfolding nfq_set_verdict
  verdict-Awaited id v = quiet x _ (λ s. refl) (λ s. refl) λ s. omega arith

  pub bump-Awaited : (f : Statistics → Statistics) → Keeps (Awaited x) (bump f)
  unfolding bump
  bump-Awaited f = quiet x _ (λ s. refl) (λ s. refl) λ s. omega arith

  pub packets-Awaited : (queue : List PacketObj) → Keeps (Awaited x) (set_packets queue)
  unfolding set_packets
  packets-Awaited queue = quiet x _ (λ s. refl) (λ s. refl) λ s. omega arith

  pub hold-Awaited : (id dest : ℕ) → Keeps (Awaited x) (packets_fifo_push id dest)
  unfolding packets_fifo_push
  hold-Awaited id dest = quiet x _ (λ s. refl) (λ s. refl) λ s. omega arith

  pub drop_packets-Awaited : (dest : ℕ) → Keeps (Awaited x) (packets_fifo_drop_packets dest)
  drop_packets-Awaited =
      drop_packets-Keeps verdict-Awaited (bump-Awaited count_dropped) packets-Awaited

  pub delete_packets-Awaited : Keeps (Awaited x) packets_fifo_delete
  delete_packets-Awaited = delete-Keeps verdict-Awaited (bump-Awaited count_dropped) packets-Awaited

  parts-Awaited : RouteParts (Awaited x)
  unfolding update_route new_ptr new_route emit RoutingTable.list_add add_to_kernel
  parts-Awaited = record {
    write = λ p f. quiet x _ (λ s. refl) (λ s. refl) λ s. omega arith;
    new_address = quiet x _ (λ s. refl) (λ s. refl) λ s. omega arith;
    allocate = quiet x _ (λ s. refl) (λ s. refl) λ s. omega arith;
    kernel_gateway = λ n ip len. quiet x _ (λ s. refl) (λ s. refl) λ s. omega arith;
    alarm = set_alarm-Awaited x;
    link = λ p. quiet x _ (λ s. refl) (λ s. refl) λ s. omega arith;
    kernel = λ n r. quiet x _ (λ s. refl) (λ s. refl) λ s. omega arith;
    process_route =
        process_route-Keeps verdict-Awaited (bump-Awaited count_dropped) packets-Awaited;
  }

  pub Awaited-Steps : Steps (Awaited x)
  unfolding emit gettimeofday unlink send_bytes next_rreq count_rreq_sent reset_rreq_sent
      renew_seq_num
  Awaited-Steps = record {
    write = λ p f _. parts-Awaited.write p f;
    clock = quiet x _ (λ s. refl) (λ s. refl) λ s. omega arith;
    kernel_del = λ n. quiet x _ (λ s. refl) (λ s. refl) λ s. omega arith;
    kernel_gateway = parts-Awaited.kernel_gateway;
    count = λ f _. bump-Awaited f;
    alarm = set_alarm-Awaited x;
    no_route_alarm = λ p. clear_alarm-Awaited x (route_alarm p) λ q. refl;
    no_flush_alarm = clear_alarm-Awaited x flush_alarm λ q. refl;
    remove = λ p. quiet x _ (λ s. refl) (λ s. refl) λ s. omega arith;
    send = λ pkt. quiet x _ (λ s. refl) (λ s. refl) λ s. omega arith;
    request = quiet x _ (λ s. refl) (λ s. refl) λ s. omega arith;
    request_count = quiet x _ (λ s. refl) (λ s. refl) λ s. omega arith;
    request_reset = quiet x _ (λ s. refl) (λ s. refl) λ s. omega arith;
    renew = λ n. quiet x _ (λ s. refl) (λ s. refl) λ s. omega arith;
    push = push-Awaited x;
    push_owned = λ rreq_id dst. push_owned-Awaited x rreq_id dst (pos 0);
    delete_entry = λ p. record { at = (delete-Awaited x x p λ q _ e. e).ends };
    add_prev_hop = add_prev_hop-Keeps parts-Awaited;
    add_orig = add_orig-Keeps parts-Awaited;
    create_prev_hop = create_prev_hop-Keeps parts-Awaited;
    create_dest = create_dest-Keeps parts-Awaited;
  }
