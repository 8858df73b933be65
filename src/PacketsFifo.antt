-- ===== src/PacketsFifo.antt =====
-- meshias_daemon/packets_fifo.c: the packets that wait for a route, the newest first.
-- A loop of `list_for_each_entry_safe` that removes entries gives the list of those that stay.
pub mod Laws
use meshias.Base.{ℕ, ◌+◌, ◌==◌, Bool, true, false, Option, none, some, List, [], ◌∷◌, if◌then◌else◌}
use meshias.Word.{u32}
use meshias.Route.{
  MshRoute, msh_route_alloc, msh_route_set_dst_ip, msh_route_compare,
  rtfind_by_dest_longest_prefix_matching,
}
use meshias.State.{
  MshData, PacketObj, Statistics, nf_drop, nf_accept, nfq_set_verdict, bump, route_at,
}
use meshias.Act.{Act, pure, gets, modify, ◌>>=◌, ◌>>◌, choose, when}

unfoldable pub packet_obj_accept : PacketObj → Act MshData Unit
packet_obj_accept packet = do nfq_set_verdict packet.id nf_accept; pure tt

abbrev pub count_dropped : Statistics → Statistics
count_dropped stats = record stats { packets_dropped = u32 (stats.packets_dropped + 1) }

unfoldable pub packet_obj_drop : PacketObj → Act MshData Unit
packet_obj_drop packet = do nfq_set_verdict packet.id nf_drop; bump count_dropped

-- Does the route serve the packet? `first` is the scratch route of `packets_fifo_process_route`.
unfoldable pub serves : MshRoute → PacketObj → Bool
unfolding msh_route_set_dst_ip
serves route packet =
    msh_route_compare (msh_route_set_dst_ip packet.dest msh_route_alloc) route
      rtfind_by_dest_longest_prefix_matching
    == 0

unfoldable pub set_packets : List PacketObj → Act MshData Unit
set_packets queue s = (tt, record s { packets_queue = queue })

-- The loop over the queue: `handle` each packet that the test picks, and keep the others.
unfoldable pub sweep :
    (PacketObj → Bool)
    → (PacketObj → Act MshData Unit)
    → List PacketObj
    → Act MshData (List PacketObj)
sweep test handle [] = pure []
sweep test handle (entry ∷ rest) = do
  when (test entry) (handle entry)
  kept ← sweep test handle rest
  pure (if test entry then kept else entry ∷ kept)

unfoldable pub packets_fifo_push : ℕ → ℕ → Act MshData Unit
packets_fifo_push id dest s =
    (tt, record s { packets_queue = record { id = id; dest = dest } ∷ s.packets_queue })

unfoldable pub packets_fifo_drop_packets : ℕ → Act MshData Unit
unfolding sweep set_packets
packets_fifo_drop_packets dest = do
  queue ← gets (λ s. s.packets_queue)
  kept ← sweep (λ entry. entry.dest == dest) packet_obj_drop queue
  set_packets kept

unfoldable pub packets_fifo_process_route : ℕ → Act MshData Unit
unfolding sweep set_packets
packets_fifo_process_route p = do
  route ← route_at p
  queue ← gets (λ s. s.packets_queue)
  kept ← sweep (serves route) packet_obj_accept queue
  set_packets kept

unfoldable pub packets_fifo_delete : Act MshData Unit
unfolding sweep set_packets
packets_fifo_delete = do
  queue ← gets (λ s. s.packets_queue)
  kept ← sweep (λ entry. true) packet_obj_drop queue
  set_packets kept

unfoldable pub packets_fifo_is_empty : List PacketObj → Bool
packets_fifo_is_empty [] = true
packets_fifo_is_empty (entry ∷ rest) = false
