-- ===== src/Tests/Requests.antt =====
-- Runs of the theorems about route requests.
use meshias.Base.{if◌then◌else◌, ◌≡◌, refl, true, []}
use meshias.RreqFifo.{rreq_fifo_contains}
use meshias.Packet.{AodvPkt, aodv_pkt_get_address, put_rreq}
use meshias.Logic.Rreq.{aodv_process_rreq}
use meshias.Logic.Duplicates.Again.{process_rreq-again}
use meshias.Act.{after}
use meshias.Nfqueue.{hold}
use meshias.Logic.Starting.{sent_and_sought, with_search, hold-search}
use meshias.RreqFifo.{rreq_fifo_waiting_response_for}
use meshias.Logic.Spreading.{messages}
use meshias.Logic.Spreading.Answering.{reaction, knows}
use meshias.Logic.Spreading.Requests.{counted, entered, process_rreq-new}
use meshias.Tests.{busy, request, blank}

abbrev again : AodvPkt
again = record blank { payload = put_rreq request [] }

-- The same request from another neighbour.
abbrev copy : AodvPkt
copy = record again { address = 33554442 }

process_rreq-again_example :
    let t = after (aodv_process_rreq again) busy in
    let u = after (aodv_process_rreq copy) t in
    (messages u.trace ≡ messages t.trace) × (u.rreq_queue ≡ t.rreq_queue) × (u.seq_num ≡ t.seq_num)
process_rreq-again_example = process_rreq-again again copy busy refl refl

hold-search_example :
    (sent_and_sought (after (hold 9 12) busy) ≡ (
      if rreq_fifo_waiting_response_for busy.rreq_queue 12
      then sent_and_sought busy
      else with_search 12 busy (sent_and_sought busy)))
    × (rreq_fifo_waiting_response_for (after (hold 9 12) busy).rreq_queue 12 ≡ true)
hold-search_example = hold-search 9 12 busy

process_rreq-new_example :
    messages (after (aodv_process_rreq again) busy).trace
    ≡ reaction again
        (counted again)
        (aodv_pkt_get_address again)
        (knows (counted again) (entered again busy))
        busy
        (messages busy.trace)
unfolding rreq_fifo_contains
process_rreq-new_example = process_rreq-new again busy refl
