-- ===== src/Logic/Rreq.antt =====
-- `aodv_process_rreq` of meshias_daemon/aodv/logic.c.
use meshias.Base.{ℕ, ◌+◌, ltb, not, ◌&&◌, if◌then◌else◌}
use meshias.Word.{u8, signed_lt}
use meshias.Config.{active_route_timeout, minimal_lifetime}
use meshias.Route.{
  MshRoute, msh_route_set_dst_ip, msh_route_set_flag, msh_route_set_hop_count,
  msh_route_set_dest_seq_num, test_flag, rtflag_valid_entry, rtflag_valid_dest_seq_num,
}
use meshias.Route.Ops.{msh_route_get_lifetime, msh_route_set_lifetime, msh_route_set_next_hop}
use meshias.State.{MshData, route_at, update_route, new_route, gettimeofday}
use meshias.RoutingTable.{routing_table_find_by_ip, routing_table_add}
use meshias.RreqFifo.{rreq_fifo_contains, rreq_fifo_push}
use meshias.Packet.{
  AodvPkt, AodvRreq, get_rreq, put_rreq, aodv_pkt_prepare_rreq, aodv_pkt_get_address,
  aodv_pkt_set_address, aodv_pkt_decrease_ttl,
}
use meshias.Packet.Check.{aodv_pkt_send}
use meshias.Logic.Discovery.{count_rreq_sent}
use meshias.Logic.Reply.{aodv_answer_to_rreq}
use meshias.Act.{Act, pure, gets, ◌>>=◌, ◌>>◌, choose, when, if_found}

unfoldable pub add_prev_hop : ℕ → Act MshData Unit
add_prev_hop prev_hop = do
  p ← new_route
  update_route p (msh_route_set_dst_ip prev_hop)
  msh_route_set_next_hop p prev_hop
  routing_table_add p
  pure tt

-- The route to the node that the request came from.
unfoldable pub renew_prev_hop : ℕ → Act MshData Unit
unfolding add_prev_hop
renew_prev_hop prev_hop = do
  found ← gets (routing_table_find_by_ip prev_hop)
  if_found found (λ p. msh_route_set_lifetime p active_route_timeout) (add_prev_hop prev_hop)

-- A known route back to the originator, `rreq` as received.
unfoldable pub update_orig : ℕ → AodvRreq → ℕ → ℕ → Act MshData ℕ
update_orig prev_hop rreq min_lifetime p = do
  route ← route_at p
  lifetime_old ← msh_route_get_lifetime p
  update_route p (msh_route_set_flag rtflag_valid_dest_seq_num)
  msh_route_set_next_hop p prev_hop
  update_route p (msh_route_set_hop_count rreq.hop_count)
  when (signed_lt route.dest_seq_num rreq.orig_seq_num)
      (update_route p (msh_route_set_dest_seq_num rreq.orig_seq_num))
  when (ltb lifetime_old min_lifetime) (msh_route_set_lifetime p min_lifetime)
  pure p

-- A new route back to the originator.
unfoldable pub add_orig : ℕ → AodvRreq → ℕ → Act MshData ℕ
add_orig prev_hop rreq min_lifetime = do
  p ← new_route
  update_route p (msh_route_set_dst_ip rreq.orig_ip_addr)
  update_route p (msh_route_set_dest_seq_num rreq.orig_seq_num)
  msh_route_set_next_hop p prev_hop
  update_route p (msh_route_set_hop_count rreq.hop_count)
  msh_route_set_lifetime p min_lifetime
  update_route p (msh_route_set_flag rtflag_valid_dest_seq_num)
  routing_table_add p
  pure p

unfoldable pub reverse_route : ℕ → AodvRreq → Act MshData ℕ
unfolding update_orig add_orig
reverse_route prev_hop rreq = do
  found ← gets (routing_table_find_by_ip rreq.orig_ip_addr)
  now ← gettimeofday
  let min_lifetime = minimal_lifetime now rreq.hop_count
  if_found found (update_orig prev_hop rreq min_lifetime) (add_orig prev_hop rreq min_lifetime)

-- The destination sequence number that a forwarded request carries. The code assigns the request's
-- own number, `dest_seq_num_new`, back to it.
unfoldable pub forwarded_seq_num : MshRoute → AodvRreq → ℕ
forwarded_seq_num route_to_dest rreq =
    if not (test_flag rtflag_valid_entry route_to_dest)
      && test_flag rtflag_valid_dest_seq_num route_to_dest
    then (if ltb route_to_dest.dest_seq_num rreq.dest_seq_num
        then rreq.dest_seq_num
        else rreq.dest_seq_num)
    else rreq.dest_seq_num

unfoldable pub forward_rreq : AodvPkt → AodvRreq → Act MshData Unit
unfolding forwarded_seq_num
forward_rreq pkt rreq = do
  broadcast_addr ← gets (λ s. s.broadcast_addr)
  found ← gets (routing_table_find_by_ip rreq.dest_ip_addr)
  seq_num ←
      if_found found (λ p. do route ← route_at p; pure (forwarded_seq_num route rreq))
        (pure rreq.dest_seq_num)
  count_rreq_sent
  let message = aodv_pkt_prepare_rreq (record rreq { dest_seq_num = seq_num })
  let outgoing = aodv_pkt_decrease_ttl (aodv_pkt_set_address broadcast_addr pkt)
  aodv_pkt_send (record outgoing { payload = put_rreq message pkt.payload })
  pure tt

-- The request is new.
unfoldable pub process_new_rreq : AodvPkt → ℕ → AodvRreq → Act MshData Unit
unfolding reverse_route forward_rreq
process_new_rreq pkt prev_hop rreq = do
  rreq_fifo_push rreq.rreq_id rreq.dest_ip_addr
  route_to_orig ← reverse_route prev_hop rreq
  let counted = record rreq { hop_count = u8 (rreq.hop_count + 1) }
  answered ← aodv_answer_to_rreq counted prev_hop route_to_orig
  when (not answered && ltb 1 pkt.ttl) (forward_rreq pkt counted)

unfoldable pub aodv_process_rreq : AodvPkt → Act MshData Unit
unfolding renew_prev_hop process_new_rreq
aodv_process_rreq pkt = do
  let prev_hop = aodv_pkt_get_address pkt
  let rreq = get_rreq pkt.payload
  renew_prev_hop prev_hop
  seen ← gets (λ s. rreq_fifo_contains s.rreq_queue rreq.rreq_id rreq.dest_ip_addr)
  choose seen (pure tt) (process_new_rreq pkt prev_hop rreq)
