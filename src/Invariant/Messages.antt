-- ===== src/Invariant/Messages.antt =====
-- A property that the steps keep is kept by the handling of AODV messages.
use meshias.Base.{ℕ, ◌≡◌, ◌==◌, refl, false, Option, arith, zero, suc}
use meshias.Time.{Timeval}
use meshias.State.{MshData, gettimeofday}
use meshias.RreqFifo.{rreq_fifo_push_owned}
use meshias.Packet.{AodvPkt, AodvRreq, AodvRrep}
use meshias.Packet.Check.{
  Msghdr, aodv_pkt_get, aodv_pkt_check, aodv_pkt_send, count_no_address, count_no_payload,
  count_no_ttl, count_rreq_size, count_rrep_size, count_rerr_size, count_rerr_zero,
  count_rrep_ack_size, count_send_error, count_incomplete,
}
use meshias.Logic.Discovery.{next_rreq, count_rreq_sent, last_known, aodv_find_route, int8}
use meshias.Logic.Reply.{
  reply_as_destination, build_replies, reply_as_intermediate, aodv_answer_to_rreq,
}
use meshias.Logic.Rreq.{
  renew_prev_hop, update_orig, reverse_route, forward_rreq, process_new_rreq, aodv_process_rreq,
}
use meshias.Logic.Rrep.{prev_hop_route, dest_route, take_reply, forward_rrep, aodv_process_rrep}
use meshias.Act.{when}
use meshias.Act.Keeps.{Keeps, Keeps-pure, keeps_rules}
use meshias.Invariant.Steps.{Steps, Counts}
use meshias.Invariant.Key.{key_rules}
use meshias.Invariant.Handlers.{
  route_at-Keeps, set_lifetime-Keeps, get_lifetime-Keeps, set_next_hop-Keeps, rreq_fifo_del-Keeps,
}

no_address : Counts count_no_address
no_address = record { at = λ st. refl; fits = λ st h. ground (arith, h) }

no_payload : Counts count_no_payload
no_payload = record { at = λ st. refl; fits = λ st h. ground (arith, h) }

no_ttl : Counts count_no_ttl
no_ttl = record { at = λ st. refl; fits = λ st h. ground (arith, h) }

rreq_size : Counts count_rreq_size
rreq_size = record { at = λ st. refl; fits = λ st h. ground (arith, h) }

rrep_size : Counts count_rrep_size
rrep_size = record { at = λ st. refl; fits = λ st h. ground (arith, h) }

rerr_size : Counts count_rerr_size
rerr_size = record { at = λ st. refl; fits = λ st h. ground (arith, h) }

rerr_zero : Counts count_rerr_zero
rerr_zero = record { at = λ st. refl; fits = λ st h. ground (arith, h) }

rrep_ack_size : Counts count_rrep_ack_size
rrep_ack_size = record { at = λ st. refl; fits = λ st h. ground (arith, h) }

send_error : Counts count_send_error
send_error = record { at = λ st. refl; fits = λ st h. ground (arith, h) }

incomplete : Counts count_incomplete
incomplete = record { at = λ st. refl; fits = λ st h. ground (arith, h) }

ruleset count_rules = (
  no_address, no_payload, no_ttl, rreq_size, rrep_size, rerr_size, rerr_zero, rrep_ack_size,
  send_error, incomplete,
)

module _ {P : MshData → Type 0} (steps : Steps P) where
  pub get-Keeps : (msg : Msghdr) (n stray : ℕ) → Keeps P (aodv_pkt_get msg n stray)
  unfolding aodv_pkt_get
  get-Keeps msg n stray = search (keeps_rules, steps.count, count_rules) depth 20

  pub check-Keeps : (pkt : AodvPkt) → Keeps P (aodv_pkt_check pkt)
  unfolding aodv_pkt_check
  check-Keeps pkt = search (keeps_rules, steps.count, count_rules) depth 20

  pub send-Keeps : (pkt : AodvPkt) → Keeps P (aodv_pkt_send pkt)
  unfolding aodv_pkt_send
  send-Keeps pkt = search (keeps_rules, steps.send, steps.count, count_rules) depth 20

  now-Keeps : Keeps P gettimeofday
  now-Keeps = steps.clock

  request-Keeps : Keeps P next_rreq
  request-Keeps = steps.request

  pub request_count-Keeps : Keeps P count_rreq_sent
  request_count-Keeps = steps.request_count

  last_known-Keeps : (invalid_route : Option ℕ) → Keeps P (last_known invalid_route)
  unfolding last_known
  last_known-Keeps invalid_route = search (keeps_rules, route_at-Keeps steps) depth 20

  -- A search that is no retry puts an entry with no try into the queue.
  push_first-Keeps :
      (prev_tries rreq_id dest : ℕ)
      → Keeps P (when (prev_tries == 0) (rreq_fifo_push_owned rreq_id dest (int8 prev_tries)))
  unfolding when
  push_first-Keeps zero rreq_id dest = steps.push_owned rreq_id dest
  push_first-Keeps (suc n) rreq_id dest =
      let e : (suc n == 0) ≡ false = ground arith in rw e (Keeps-pure tt)

  pub find_route-Keeps :
      (dest : ℕ) (invalid_route : Option ℕ) (prev_tries : ℕ)
      → Keeps P (aodv_find_route dest invalid_route prev_tries)
  unfolding aodv_find_route
  find_route-Keeps dest invalid_route prev_tries =
      search
        (
          keeps_rules, request-Keeps, request_count-Keeps, last_known-Keeps, push_first-Keeps,
          send-Keeps,
        )
        depth 20

  as_destination-Keeps :
      (rreq : AodvRreq) (prev_hop : ℕ) → Keeps P (reply_as_destination rreq prev_hop)
  unfolding reply_as_destination
  as_destination-Keeps rreq prev_hop = search (keeps_rules, steps.renew, send-Keeps) depth 20

  replies-Keeps : (rreq : AodvRreq) (d o : ℕ) → Keeps P (build_replies rreq d o)
  unfolding build_replies
  replies-Keeps rreq d o =
      search (keeps_rules, route_at-Keeps steps, now-Keeps, get_lifetime-Keeps steps) depth 30

  as_intermediate-Keeps :
      (rreq : AodvRreq) (prev_hop d o : ℕ) → Keeps P (reply_as_intermediate rreq prev_hop d o)
  unfolding reply_as_intermediate
  as_intermediate-Keeps rreq prev_hop d o =
      search (keeps_rules, key_rules, steps.write, route_at-Keeps steps, replies-Keeps) depth 30

  answer-Keeps : (rreq : AodvRreq) (prev_hop o : ℕ) → Keeps P (aodv_answer_to_rreq rreq prev_hop o)
  unfolding aodv_answer_to_rreq
  answer-Keeps rreq prev_hop o =
      search (keeps_rules, as_destination-Keeps, as_intermediate-Keeps) depth 30

  pub renew_prev_hop-Keeps : (prev_hop : ℕ) → Keeps P (renew_prev_hop prev_hop)
  unfolding renew_prev_hop
  renew_prev_hop-Keeps prev_hop =
      search (keeps_rules, set_lifetime-Keeps steps, steps.add_prev_hop) depth 20

  update_orig-Keeps :
      (prev_hop : ℕ) (rreq : AodvRreq) (l p : ℕ) → Keeps P (update_orig prev_hop rreq l p)
  unfolding update_orig
  update_orig-Keeps prev_hop rreq l p =
      search
        (
          keeps_rules,
          key_rules,
          steps.write,
          route_at-Keeps steps,
          get_lifetime-Keeps steps,
          set_next_hop-Keeps steps,
          set_lifetime-Keeps steps,
        )
        depth 30

  reverse-Keeps : (prev_hop : ℕ) (rreq : AodvRreq) → Keeps P (reverse_route prev_hop rreq)
  unfolding reverse_route
  reverse-Keeps prev_hop rreq =
      search (keeps_rules, now-Keeps, update_orig-Keeps, steps.add_orig) depth 20

  forward_rreq-Keeps : (pkt : AodvPkt) (rreq : AodvRreq) → Keeps P (forward_rreq pkt rreq)
  unfolding forward_rreq
  forward_rreq-Keeps pkt rreq =
      search (keeps_rules, route_at-Keeps steps, request_count-Keeps, send-Keeps) depth 30

  new_rreq-Keeps :
      (pkt : AodvPkt) (prev_hop : ℕ) (rreq : AodvRreq)
      → Keeps P (process_new_rreq pkt prev_hop rreq)
  unfolding process_new_rreq
  new_rreq-Keeps pkt prev_hop rreq =
      search (keeps_rules, steps.push, reverse-Keeps, answer-Keeps, forward_rreq-Keeps) depth 30

  pub rreq-Keeps : (pkt : AodvPkt) → Keeps P (aodv_process_rreq pkt)
  unfolding aodv_process_rreq
  rreq-Keeps pkt = search (keeps_rules, renew_prev_hop-Keeps, new_rreq-Keeps) depth 20

  prev_hop-Keeps : (prev_hop : ℕ) → Keeps P (prev_hop_route prev_hop)
  unfolding prev_hop_route
  prev_hop-Keeps prev_hop =
      search (keeps_rules, set_lifetime-Keeps steps, steps.create_prev_hop) depth 20

  dest-Keeps : (prev_hop : ℕ) (rrep : AodvRrep) → Keeps P (dest_route prev_hop rrep)
  unfolding dest_route
  dest-Keeps prev_hop rrep = search (keeps_rules, steps.create_dest) depth 20

  take_reply-Keeps : (p prev_hop : ℕ) (rrep : AodvRrep) → Keeps P (take_reply p prev_hop rrep)
  unfolding take_reply
  take_reply-Keeps p prev_hop rrep =
      search
        (
          keeps_rules,
          key_rules,
          steps.write,
          now-Keeps,
          set_next_hop-Keeps steps,
          set_lifetime-Keeps steps,
        )
        depth 30

  forward_rrep-Keeps :
      (pkt : AodvPkt) (rrep : AodvRrep) (q d : ℕ) (now : Timeval)
      → Keeps P (forward_rrep pkt rrep q d now)
  unfolding forward_rrep
  forward_rrep-Keeps pkt rrep q d now =
      search
        (
          keeps_rules,
          key_rules,
          steps.write,
          route_at-Keeps steps,
          send-Keeps,
          get_lifetime-Keeps steps,
          set_lifetime-Keeps steps,
        )
        depth 40

  pub rrep-Keeps : (pkt : AodvPkt) → Keeps P (aodv_process_rrep pkt)
  unfolding aodv_process_rrep
  rrep-Keeps pkt =
      search
        (
          keeps_rules,
          prev_hop-Keeps,
          dest-Keeps,
          route_at-Keeps steps,
          take_reply-Keeps,
          rreq_fifo_del-Keeps steps,
          forward_rrep-Keeps,
        )
        depth 40
