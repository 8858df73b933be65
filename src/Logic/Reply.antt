-- ===== src/Logic/Reply.antt =====
-- `aodv_answer_to_rreq` of meshias_daemon/aodv/logic.c.
use meshias.Base.{ℕ, ◌==◌, Bool, true, false, not, ◌&&◌, List, [], ◌∷◌, if◌then◌else◌}
use meshias.Word.{add32, sub32, signed_lt, has_flag}
use meshias.Time.{get_alarm_time}
use meshias.Config.{my_route_timeout}
use meshias.Route.{msh_route_add_precursor}
use meshias.Route.Ops.{msh_route_get_lifetime}
use meshias.State.{MshData, route_at, update_route, gettimeofday}
use meshias.RoutingTable.{routing_table_find_by_ip}
use meshias.Packet.{
  AodvPkt, AodvRreq, aodv_pkt_alloc, aodv_pkt_set_address, aodv_pkt_build_rrep,
  rreq_gratuitous_rrep_flag, rreq_dest_only_flag,
}
use meshias.Packet.Check.{aodv_pkt_send}
use meshias.Act.{Act, pure, gets, ◌>>=◌, ◌>>◌, choose, if_found}

-- `if (rreq->dest_seq_num == data.seq_num) data.seq_num++;`
unfoldable pub renew_seq_num : ℕ → Act MshData Unit
renew_seq_num dest_seq_num s =
    (tt, record s { seq_num = if dest_seq_num == s.seq_num then add32 s.seq_num 1 else s.seq_num })

-- This node is the destination of the request.
unfoldable pub reply_as_destination : AodvRreq → ℕ → Act MshData Unit
unfolding renew_seq_num
reply_as_destination rreq prev_hop = do
  renew_seq_num rreq.dest_seq_num
  pkt ← gets (λ s.
      aodv_pkt_build_rrep 0 0 0 s.ip_addr s.seq_num rreq.orig_ip_addr my_route_timeout
        (aodv_pkt_set_address prev_hop (aodv_pkt_alloc s.broadcast_addr)))
  aodv_pkt_send pkt
  pure tt

-- The reply to the originator, and with the G flag the one to the destination. The code builds
-- these packets and destroys them; it sends neither.
unfoldable pub build_replies : AodvRreq → ℕ → ℕ → Act MshData (List AodvPkt)
build_replies rreq route_to_dest route_to_orig = do
  dest ← route_at route_to_dest
  now ← gettimeofday
  left ← msh_route_get_lifetime route_to_dest
  broadcast_addr ← gets (λ s. s.broadcast_addr)
  let lifetime = sub32 left (get_alarm_time now.tv_sec now.tv_usec)
  let reply =
      aodv_pkt_build_rrep 0 0 dest.hop_count rreq.dest_ip_addr dest.dest_seq_num rreq.orig_ip_addr
        lifetime (aodv_pkt_set_address rreq.orig_ip_addr (aodv_pkt_alloc broadcast_addr))
  choose (has_flag rreq_gratuitous_rrep_flag rreq.flags)
      (do
        orig ← route_at route_to_orig
        orig_lifetime ← msh_route_get_lifetime route_to_orig
        pure (
            reply
            ∷ aodv_pkt_build_rrep 0 0 orig.hop_count rreq.orig_ip_addr rreq.orig_seq_num
                rreq.dest_ip_addr orig_lifetime
                (aodv_pkt_set_address rreq.dest_ip_addr (aodv_pkt_alloc broadcast_addr))
            ∷ []))
      (pure (reply ∷ []))

-- This node knows a route to the destination.
unfoldable pub reply_as_intermediate : AodvRreq → ℕ → ℕ → ℕ → Act MshData Unit
unfolding build_replies
reply_as_intermediate rreq prev_hop route_to_dest route_to_orig = do
  update_route route_to_dest (msh_route_add_precursor prev_hop)
  dest ← route_at route_to_dest
  update_route route_to_orig (msh_route_add_precursor dest.next_hop)
  build_replies rreq route_to_dest route_to_orig
  pure tt

-- `(int32_t)rreq->dest_seq_num >= (int32_t)data.seq_num` and no D flag.
unfoldable pub may_answer : AodvRreq → MshData → Bool
unfolding signed_lt has_flag
may_answer rreq s =
    not (signed_lt rreq.dest_seq_num s.seq_num) && not (has_flag rreq_dest_only_flag rreq.flags)

unfoldable pub aodv_answer_to_rreq : AodvRreq → ℕ → ℕ → Act MshData Bool
unfolding reply_as_destination reply_as_intermediate may_answer
aodv_answer_to_rreq rreq prev_hop route_to_orig = do
  ip_addr ← gets (λ s. s.ip_addr)
  choose (rreq.dest_ip_addr == ip_addr) (do reply_as_destination rreq prev_hop; pure true)
      do
        found ← gets (routing_table_find_by_ip rreq.dest_ip_addr)
        allowed ← gets (may_answer rreq)
        if_found found
            (λ route_to_dest.
              choose allowed
                (do reply_as_intermediate rreq prev_hop route_to_dest route_to_orig; pure true)
                (pure false))
            (pure false)
