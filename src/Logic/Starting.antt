-- ===== src/Logic/Starting.antt =====
-- How a search starts, when a packet is held back.
use meshias.Base.{
  ℕ, ◌+◌, ◌≡◌, refl, ◌∙◌, ap, Bool, true, false, not, none, List, [], ◌∷◌, pos, if◌then◌else◌,
  arith,
}
use meshias.Word.{add32, htonl}
use meshias.Config.{expanding_ring_search_ttl, ttl_start}
use meshias.State.{MshData, Event, RreqEntry, sendto, bump, new_ptr, set_alarm}
use meshias.RreqFifo
use meshias.RreqFifo.{rreq_fifo_push_owned, rreq_fifo_waiting_response_for}
use meshias.PacketsFifo.{packets_fifo_push}
use meshias.Packet.{
  AodvRreq, AodvPkt, aodv_rreq, aodv_pkt_alloc, aodv_pkt_set_ttl, aodv_pkt_set_address,
  aodv_pkt_build_rreq, aodv_pkt_prepare_rreq, put_rreq, rreq_gratuitous_rrep_flag,
  rreq_unknown_seq_num_flag,
}
use meshias.Packet.Check.{aodv_pkt_send, send_bytes}
use meshias.Logic.Discovery.{next_rreq, count_rreq_sent, last_known, aodv_find_route}
use meshias.Logic.Answers.{trace-aodv_pkt_send}
use meshias.Nfqueue.{hold}
use meshias.Act.{pure, gets, ◌>>=◌, choose, when, if_found, after}

-- What goes out, and the searches that are on.
abbrev pub sent_and_sought : MshData → List Event × List RreqEntry
sent_and_sought s = (s.trace, s.rreq_queue)

-- The first request for a destination, in host order: the next identifier and sequence number of this
-- node, no hops yet, and the sequence number of the destination unknown.
abbrev pub first_request : ℕ → MshData → AodvRreq
first_request dest s = record {
  type = aodv_rreq;
  reserved2 = 0;
  flags = rreq_gratuitous_rrep_flag + rreq_unknown_seq_num_flag;
  reserved = 0;
  hop_count = 0;
  rreq_id = add32 s.rreq_id 1;
  dest_ip_addr = dest;
  dest_seq_num = 0;
  orig_ip_addr = s.ip_addr;
  orig_seq_num = add32 s.seq_num 1;
}

-- One request to all neighbours, TTL_START hops far, and the entry that waits for its answer.
abbrev pub with_search : ℕ → MshData → List Event × List RreqEntry → List Event × List RreqEntry
with_search dest s seen = (
  sendto ttl_start (htonl s.broadcast_addr)
        (put_rreq (aodv_pkt_prepare_rreq (first_request dest s)) [])
      ∷ seen.0,
  record { ptr = s.next_ptr; rreq_id = add32 s.rreq_id 1; dst = dest; prev_tries = pos 0 } ∷ seen.1,
)

queue-aodv_pkt_send :
    (pkt : AodvPkt) (s : MshData) → (after (aodv_pkt_send pkt) s).rreq_queue ≡ s.rreq_queue
unfolding aodv_pkt_send send_bytes ◌>>=◌ choose when bump pure
queue-aodv_pkt_send pkt s = ground arith

sends :
    (pkt : AodvPkt) (s : MshData)
    → sent_and_sought (after (aodv_pkt_send pkt) s)
      ≡ (sendto pkt.ttl pkt.address pkt.payload ∷ s.trace, s.rreq_queue)
sends pkt s = rw (trace-aodv_pkt_send pkt s, queue-aodv_pkt_send pkt s) refl

find_route-search :
    (dest : ℕ) (s : MshData)
    → sent_and_sought (after (aodv_find_route dest none 0) s)
      ≡ with_search dest s (sent_and_sought s)
unfolding aodv_find_route ◌>>=◌ next_rreq gets when last_known if_found pure count_rreq_sent
    rreq_fifo_push_owned new_ptr set_alarm RreqFifo.list_add aodv_pkt_alloc aodv_pkt_set_ttl
    aodv_pkt_set_address aodv_pkt_build_rreq aodv_pkt_prepare_rreq expanding_ring_search_ttl
find_route-search dest s = sends _ _

-- The search of `hold`, unless one is on.
unless_on :
    (waiting : Bool) (dest : ℕ) (s : MshData)
    → sent_and_sought (after (when (not waiting) (aodv_find_route dest none 0)) s)
      ≡ (if waiting then sent_and_sought s else with_search dest s (sent_and_sought s))
unfolding when pure
unless_on true dest s = refl
unless_on false dest s = find_route-search dest s

-- A search for the destination is on afterwards.
is_on :
    (waiting : Bool) (dest : ℕ) (s : MshData)
    → rreq_fifo_waiting_response_for s.rreq_queue dest ≡ waiting
    → rreq_fifo_waiting_response_for
        (if waiting then sent_and_sought s else with_search dest s (sent_and_sought s)).1
        dest
      ≡ true
unfolding rreq_fifo_waiting_response_for
is_on true dest s h = h
is_on false dest s h = ground arith

-- A packet that is held back starts a search exactly if none for its destination is on: one request goes
-- out, to all neighbours and TTL_START hops far, with the next identifier and sequence number of this
-- node, and one entry is put in front of the others to wait for its answer. Where a search is on, nothing
-- is sent and no entry is made. In both cases one is on afterwards.
pub hold-search :
    (id dest : ℕ) (s : MshData)
    → (sent_and_sought (after (hold id dest) s) ≡ (
        if rreq_fifo_waiting_response_for s.rreq_queue dest
        then sent_and_sought s
        else with_search dest s (sent_and_sought s)))
      × (rreq_fifo_waiting_response_for (after (hold id dest) s).rreq_queue dest ≡ true)
unfolding hold packets_fifo_push gets pure ◌>>=◌
hold-search id dest s =
    let t = after (packets_fifo_push id dest) s in
    let waiting = rreq_fifo_waiting_response_for s.rreq_queue dest in
    let seen = unless_on waiting dest t in
    (
      seen,
      ap (λ (v : List Event × List RreqEntry). rreq_fifo_waiting_response_for v.1 dest) seen
          ∙ is_on waiting dest t refl,
    )
