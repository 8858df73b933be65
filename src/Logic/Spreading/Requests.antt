-- ===== src/Logic/Spreading/Requests.antt =====
-- A new request is answered, or sent on, or neither.
use meshias.Base.{◌+◌, ◌≡◌, refl, ◌∙◌, ap, false}
use meshias.Word.{u8}
use meshias.State.{MshData}
use meshias.RreqFifo.{rreq_fifo_contains, rreq_fifo_push}
use meshias.Packet.{AodvPkt, AodvRreq, get_rreq, aodv_pkt_get_address}
use meshias.Logic.Rreq.{renew_prev_hop, reverse_route, process_new_rreq, aodv_process_rreq}
use meshias.Logic.Duplicates.{prev_hop_kept}
use meshias.Act.{gets, ◌>>=◌, ◌>>◌, after}
use meshias.Act.Keeps.{Keeps, keeps_rules}
use meshias.Logic.Spreading.{messages, Silent, Silent-refl}
use meshias.Logic.Spreading.Preparing.{renew-Silent, push-Silent, reverse-Silent}
use meshias.Logic.Spreading.Answering.{choose_second, knows, reaction, react_lem}

-- The state once the routes to the neighbour and back to the originator are entered.
abbrev pub entered : AodvPkt → MshData → MshData
entered pkt s =
    let rreq = get_rreq pkt.payload in
    after
      (do
        renew_prev_hop (aodv_pkt_get_address pkt)
        rreq_fifo_push rreq.rreq_id rreq.dest_ip_addr
        reverse_route (aodv_pkt_get_address pkt) rreq)
      s

entered-Silent : (pkt : AodvPkt) (s : MshData) → Silent s (entered pkt s)
entered-Silent pkt s =
    let kept : Keeps (Silent s) (do
      renew_prev_hop (aodv_pkt_get_address pkt)
      rreq_fifo_push (get_rreq pkt.payload).rreq_id (get_rreq pkt.payload).dest_ip_addr
      reverse_route (aodv_pkt_get_address pkt) (get_rreq pkt.payload)) =
      search (keeps_rules, renew-Silent, push-Silent, reverse-Silent) depth 20 in
    kept.at s (Silent-refl s)

-- The request, with one hop more.
abbrev pub counted : AodvPkt → AodvRreq
counted pkt = let rreq = get_rreq pkt.payload in record rreq { hop_count = u8 (rreq.hop_count + 1) }

-- What a node sends for a request that it has not seen before is this, and nothing else: if it is the
-- destination, its reply to the neighbour that the request came from, with its sequence number counted up
-- first if the request carries just that number; otherwise, where it knows no route, valid or not, that it
-- may answer with and the request has hops left to live, the request to all neighbours, with one hop more
-- counted and one less to live. What it knows is what it knows once it has entered the routes to the
-- neighbour and back to the originator, which sends nothing.
pub process_rreq-new :
    (pkt : AodvPkt) (s : MshData)
    → rreq_fifo_contains s.rreq_queue
        (get_rreq pkt.payload).rreq_id
        (get_rreq pkt.payload).dest_ip_addr
      ≡ false
    → messages (after (aodv_process_rreq pkt) s).trace
      ≡ reaction pkt
          (counted pkt)
          (aodv_pkt_get_address pkt)
          (knows (counted pkt) (entered pkt s))
          s
          (messages s.trace)
unfolding aodv_process_rreq process_new_rreq gets ◌>>=◌
process_rreq-new pkt s new =
    let prev_hop = aodv_pkt_get_address pkt in
    let rreq = get_rreq pkt.payload in
    let renewed = after (renew_prev_hop prev_hop) s in
    let t = entered pkt s in
    let silent = entered-Silent pkt s in
    ap (λ (r : Unit × MshData). messages r.1.trace)
      (choose_second (rreq_fifo_contains renewed.rreq_queue rreq.rreq_id rreq.dest_ip_addr) _ _
        renewed
        (ap (λ queue. rreq_fifo_contains queue rreq.rreq_id rreq.dest_ip_addr)
            ((prev_hop_kept s.rreq_queue prev_hop).at s refl)
          ∙ new))
    ∙ react_lem pkt (counted pkt) prev_hop
        (reverse_route prev_hop rreq
          (after (rreq_fifo_push rreq.rreq_id rreq.dest_ip_addr) renewed)).0
        t
    ∙ rw (silent.ip_addr, silent.broadcast_addr, silent.seq_num, silent.sent) refl
