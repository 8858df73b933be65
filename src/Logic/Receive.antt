-- ===== src/Logic/Receive.antt =====
-- `aodv_process_packet` of meshias_daemon/aodv/logic.c. RERR and RREP-ACK have empty handlers.
use meshias.Base.{ℕ, ◌+◌, ◌==◌}
use meshias.Word.{u32}
use meshias.State.{MshData, Statistics, bump}
use meshias.Packet.{
  AodvPkt, aodv_rreq, aodv_rrep, aodv_rerr, aodv_rrep_ack, aodv_pkt_get_type, aodv_pkt_get_address,
}
use meshias.Packet.Check.{Msghdr, aodv_pkt_get, aodv_pkt_check}
use meshias.Logic.Rreq.{aodv_process_rreq}
use meshias.Logic.Rrep.{aodv_process_rrep}
use meshias.Act.{Act, pure, gets, ◌>>=◌, choose, if_found}

unfoldable pub aodv_process_rerr : AodvPkt → Act MshData Unit
aodv_process_rerr pkt = pure tt

unfoldable pub aodv_process_rrep_ack : AodvPkt → Act MshData Unit
aodv_process_rrep_ack pkt = pure tt

abbrev pub count_incorrect_type : Statistics → Statistics
count_incorrect_type s = record s { aodv_incorrect_type = u32 (s.aodv_incorrect_type + 1) }

-- The `switch` on the message type.
unfoldable pub dispatch : AodvPkt → Act MshData Unit
unfolding aodv_process_rerr aodv_process_rrep_ack
dispatch pkt = choose (aodv_pkt_get_type pkt == aodv_rreq) (aodv_process_rreq pkt) (
    choose (aodv_pkt_get_type pkt == aodv_rrep) (aodv_process_rrep pkt) (
      choose (aodv_pkt_get_type pkt == aodv_rerr) (aodv_process_rerr pkt) (
        choose (aodv_pkt_get_type pkt == aodv_rrep_ack) (aodv_process_rrep_ack pkt)
          (bump count_incorrect_type))))

-- A checked packet, unless this node sent it.
unfoldable pub process_checked : AodvPkt → Act MshData Unit
unfolding dispatch
process_checked pkt = do
  ip_addr ← gets (λ s. s.ip_addr)
  choose (aodv_pkt_get_address pkt == ip_addr) (pure tt) (dispatch pkt)

unfoldable pub aodv_process_packet : Msghdr → ℕ → ℕ → Act MshData Unit
unfolding process_checked
aodv_process_packet msg numbytes stray = do
  pkt ← aodv_pkt_get msg numbytes stray
  checked ← aodv_pkt_check pkt
  if_found checked process_checked (pure tt)
