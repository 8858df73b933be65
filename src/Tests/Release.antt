-- ===== src/Tests/Release.antt =====
-- Runs of the theorems about what sets waiting packets free.
use meshias.Base.{◌≡◌, refl, [], ◌∷◌}
use meshias.Act.{after}
use meshias.Packet.{AodvPkt, aodv_pkt_get_address, get_rrep}
use meshias.Logic.Rrep.{aodv_process_rrep}
use meshias.Word.{ntohl}
use meshias.RoutingTable.{routing_table_find_by_ip, routing_table_find, find_in}
use meshias.Route.{msh_route_compare, msh_route_set_dst_ip}
use meshias.State.{nf_accept}
use meshias.Nfqueue.Verdicts.{settled_and_waiting}
use meshias.Logic.Delivery.{delivered}
use meshias.Logic.Delivery.Replies.{with_neighbour, process_rrep-delivers}
use meshias.Logic.Delivery.Known.{process_rrep-known}
use meshias.Tests.{busy, blank, busy-TableOk}

-- A reply for this node from 10, about a route to 10, which is known, and for which a packet waits.
abbrev reply : AodvPkt
reply = record blank {
  payload = 2 ∷ 0 ∷ 0 ∷ 0 ∷ 10 ∷ 0 ∷ 0 ∷ 0 ∷ 5 ∷ 0 ∷ 0 ∷ 0 ∷ 1 ∷ 0 ∷ 0 ∷ 0 ∷ 100 ∷ 0 ∷ 0 ∷ 0 ∷ [];
  address = 167772160;
}

process_rrep-known_example :
    settled_and_waiting (after (aodv_process_rrep reply) busy) ≡ settled_and_waiting busy
unfolding get_rrep routing_table_find_by_ip routing_table_find find_in msh_route_compare
    msh_route_set_dst_ip aodv_pkt_get_address ntohl
process_rrep-known_example = process_rrep-known reply 1 1 busy busy-TableOk refl refl

-- A reply for this node from 10, about a route to 11, for which a packet waits.
abbrev news : AodvPkt
news = record blank {
  payload = 2 ∷ 0 ∷ 0 ∷ 0 ∷ 11 ∷ 0 ∷ 0 ∷ 0 ∷ 5 ∷ 0 ∷ 0 ∷ 0 ∷ 1 ∷ 0 ∷ 0 ∷ 0 ∷ 100 ∷ 0 ∷ 0 ∷ 0 ∷ [];
  address = 167772160;
}

process_rrep-delivers_example :
    settled_and_waiting (after (aodv_process_rrep news) busy)
    ≡ delivered (get_rrep news.payload).dest_ip_addr (
        with_neighbour
          (aodv_pkt_get_address news)
          (routing_table_find_by_ip (aodv_pkt_get_address news) busy)
          (settled_and_waiting busy))
unfolding get_rrep routing_table_find_by_ip routing_table_find find_in msh_route_compare
    msh_route_set_dst_ip
process_rrep-delivers_example = process_rrep-delivers news busy busy-TableOk refl λ k. refl

-- The packet has been accepted, and the other one waits.
delivered_test :
    delivered 11 (settled_and_waiting busy)
    ≡ ((8, nf_accept) ∷ [], record { id = 7; dest = 10 } ∷ [])
delivered_test = refl
