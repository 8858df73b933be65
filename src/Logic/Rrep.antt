-- ===== src/Logic/Rrep.antt =====
-- `aodv_process_rrep` of meshias_daemon/aodv/logic.c.
use meshias.Base.{ℕ, ◌+◌, ◌==◌, ◌!=◌, ltb, Bool, true, false, not, ◌&&◌, ◌||◌}
use meshias.Word.{u8, add32, signed_lt}
use meshias.Time.{Timeval, get_alarm_time}
use meshias.Config.{active_route_timeout}
use meshias.Route.{
  MshRoute, msh_route_set_dst_ip, msh_route_set_flag, msh_route_unset_flag, msh_route_set_hop_count,
  msh_route_set_dest_seq_num, msh_route_add_precursor, test_flag, rtflag_valid_entry,
  rtflag_valid_dest_seq_num,
}
use meshias.Route.Ops.{msh_route_get_lifetime, msh_route_set_lifetime, msh_route_set_next_hop}
use meshias.State.{MshData, route_at, update_route, new_route, gettimeofday}
use meshias.RoutingTable.{routing_table_find_by_ip, routing_table_add}
use meshias.RreqFifo.{rreq_fifo_del}
use meshias.Packet.{
  AodvPkt, AodvRrep, get_rrep, put_rrep, aodv_pkt_prepare_rrep, aodv_pkt_get_address,
  aodv_pkt_set_address, aodv_pkt_decrease_ttl,
}
use meshias.Packet.Check.{aodv_pkt_send}
use meshias.Act.{Act, pure, gets, ◌>>=◌, ◌>>◌, choose, when, if_found}

unfoldable pub create_prev_hop : ℕ → Act MshData ℕ
create_prev_hop prev_hop = do
  p ← new_route
  update_route p (msh_route_set_dst_ip prev_hop)
  msh_route_set_next_hop p prev_hop
  update_route p (msh_route_unset_flag rtflag_valid_dest_seq_num)
  routing_table_add p
  pure p

-- The route to the node that the reply came from.
unfoldable pub prev_hop_route : ℕ → Act MshData ℕ
unfolding create_prev_hop
prev_hop_route prev_hop = do
  found ← gets (routing_table_find_by_ip prev_hop)
  if_found found (λ p. do msh_route_set_lifetime p active_route_timeout; pure p)
      (create_prev_hop prev_hop)

unfoldable pub create_dest : ℕ → AodvRrep → Act MshData ℕ
create_dest prev_hop rrep = do
  p ← new_route
  update_route p (msh_route_set_dst_ip rrep.dest_ip_addr)
  msh_route_set_next_hop p prev_hop
  update_route p (msh_route_set_dest_seq_num rrep.dest_seq_num)
  update_route p (msh_route_set_flag rtflag_valid_dest_seq_num)
  routing_table_add p
  pure p

-- The route to the destination of the reply, and whether it was created here.
unfoldable pub dest_route : ℕ → AodvRrep → Act MshData (ℕ × Bool)
unfolding create_dest
dest_route prev_hop rrep = do
  found ← gets (routing_table_find_by_ip rrep.dest_ip_addr)
  if_found found (λ p. pure (p, false)) (do p ← create_dest prev_hop rrep; pure (p, true))

-- Is the route to be updated by the reply, whose hop count is the new one?
unfoldable pub is_better : MshRoute → AodvRrep → Bool
unfolding signed_lt test_flag
is_better route rrep =
    not (test_flag rtflag_valid_dest_seq_num route)
    || signed_lt route.dest_seq_num rrep.dest_seq_num
    || (rrep.dest_seq_num == route.dest_seq_num && not (test_flag rtflag_valid_entry route))
    || rrep.hop_count == route.hop_count

-- The update; `now` is the clock reading that the code uses again when it forwards the reply.
unfoldable pub take_reply : ℕ → ℕ → AodvRrep → Act MshData Timeval
take_reply p prev_hop rrep = do
  update_route p (msh_route_set_dest_seq_num rrep.dest_seq_num)
  update_route p (msh_route_set_flag rtflag_valid_dest_seq_num)
  msh_route_set_next_hop p prev_hop
  update_route p (msh_route_set_hop_count rrep.hop_count)
  now ← gettimeofday
  msh_route_set_lifetime p (add32 (get_alarm_time now.tv_sec now.tv_usec) rrep.lifetime)
  pure now

-- The route to the next hop of a forwarded reply. What is set is the remaining lifetime that was
-- read, and not the timeout that it is compared with.
unfoldable pub extend_next_hop : ℕ → Timeval → Act MshData Unit
extend_next_hop next_hop now = do
  found ← gets (routing_table_find_by_ip next_hop)
  if_found found
      (λ p. do
        lifetime ← msh_route_get_lifetime p
        when (ltb lifetime (add32 (get_alarm_time now.tv_sec now.tv_usec) active_route_timeout))
            (msh_route_set_lifetime p lifetime))
      (pure tt)

-- Send the reply on towards its originator, if there is a route.
unfoldable pub forward_rrep : AodvPkt → AodvRrep → ℕ → ℕ → Timeval → Act MshData Unit
unfolding extend_next_hop
forward_rrep pkt rrep route_to_prev_hop route_to_dest now = do
  found ← gets (routing_table_find_by_ip rrep.orig_ip_addr)
  if_found found
      (λ route_to_orig. do
        orig ← route_at route_to_orig
        let next_hop = orig.next_hop
        let outgoing = aodv_pkt_decrease_ttl (aodv_pkt_set_address next_hop pkt)
        aodv_pkt_send
            (record outgoing { payload = put_rrep (aodv_pkt_prepare_rrep rrep) pkt.payload })
        when (rrep.dest_ip_addr != next_hop)
            (update_route route_to_dest (msh_route_add_precursor next_hop))
        extend_next_hop next_hop now
        update_route route_to_prev_hop (msh_route_add_precursor next_hop))
      (pure tt)

unfoldable pub aodv_process_rrep : AodvPkt → Act MshData Unit
unfolding prev_hop_route dest_route is_better take_reply forward_rrep
aodv_process_rrep pkt = do
  let prev_hop = aodv_pkt_get_address pkt
  let received = get_rrep pkt.payload
  let rrep = record received { hop_count = u8 (received.hop_count + 1) }
  route_to_prev_hop ← prev_hop_route prev_hop
  (route_to_dest, created) ← dest_route prev_hop rrep
  route ← route_at route_to_dest
  when (created || is_better route rrep) do
    now ← take_reply route_to_dest prev_hop rrep
    ip_addr ← gets (λ s. s.ip_addr)
    rreq_id ← gets (λ s. s.rreq_id)
    choose (ip_addr == rrep.orig_ip_addr) (rreq_fifo_del rreq_id rrep.dest_ip_addr)
        (forward_rrep pkt rrep route_to_prev_hop route_to_dest now)
