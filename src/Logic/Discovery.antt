-- ===== src/Logic/Discovery.antt =====
-- `aodv_find_route` of meshias_daemon/aodv/logic.c, and the alarm of a request, which calls it
-- again, `__rreq_fifo_alarm_cb` of meshias_daemon/rreq_fifo.c.
use meshias.Base.{
  ℕ, ◌+◌, ◌-◌, ◌==◌, ltb, Option, none, some, List, [], ◌∷◌, if◌then◌else◌, ℤ, pos, negsuc, ltb_ℤ,
  pos_part,
}
use meshias.Word.{add32}
use meshias.Time.{set_alarm_time}
use meshias.Config.{expanding_ring_search_ttl, binary_exponential_backoff_time, rreq_retries}
use meshias.Alarm.{rreq_alarm}
use meshias.State.{MshData, RreqEntry, route_at, set_alarm, bump}
use meshias.RoutingTable.{routing_table_update_route}
use meshias.RreqFifo.{rreq_fifo_push_owned, rreq_fifo_entry_delete}
use meshias.PacketsFifo.{packets_fifo_drop_packets, count_dropped}
use meshias.Packet.{
  aodv_pkt_alloc, aodv_pkt_set_ttl, aodv_pkt_set_address, aodv_pkt_build_rreq,
  rreq_gratuitous_rrep_flag, rreq_unknown_seq_num_flag,
}
use meshias.Packet.Check.{aodv_pkt_send}
use meshias.Act.{Act, pure, gets, ◌>>=◌, ◌>>◌, choose, when, if_found}

-- The conversion of a `uint8_t` to `int8_t`.
abbrev pub int8 : ℕ → ℤ
int8 n = if ltb n 128 then pos n else negsuc (255 - n)

-- `data.seq_num++; data.rreq_id++;`
unfoldable pub next_rreq : Act MshData Unit
next_rreq s = (tt, record s { seq_num = add32 s.seq_num 1; rreq_id = add32 s.rreq_id 1 })

unfoldable pub count_rreq_sent : Act MshData Unit
count_rreq_sent s = (tt, record s { num_rreq_sent = add32 s.num_rreq_sent 1 })

-- What `invalid_route` tells: the hop count, the sequence number and the flags of the request.
unfoldable pub last_known : Option ℕ → Act MshData (ℕ × ℕ × ℕ)
last_known invalid_route =
    if_found invalid_route
      (λ p. do
        route ← route_at p
        pure (route.hop_count, route.dest_seq_num, rreq_gratuitous_rrep_flag))
      (pure (0, 0, rreq_gratuitous_rrep_flag + rreq_unknown_seq_num_flag))

unfoldable pub aodv_find_route : ℕ → Option ℕ → ℕ → Act MshData Unit
unfolding last_known next_rreq count_rreq_sent
aodv_find_route dest invalid_route prev_tries = do
  next_rreq
  rreq_id ← gets (λ s. s.rreq_id)
  when (prev_tries == 0) (rreq_fifo_push_owned rreq_id dest (int8 prev_tries))
  known ← last_known invalid_route
  let pkt = λ (s : MshData). aodv_pkt_set_address s.broadcast_addr (
      aodv_pkt_build_rreq known.2 known.0 s.rreq_id dest known.1 s.ip_addr s.seq_num (
        aodv_pkt_set_ttl (expanding_ring_search_ttl known.0 (int8 prev_tries))
          (aodv_pkt_alloc s.broadcast_addr)))
  request ← gets pkt
  count_rreq_sent
  aodv_pkt_send request
  pure tt

unfoldable pub find_entry : ℕ → List RreqEntry → Option RreqEntry
find_entry p [] = none
find_entry p (entry ∷ rest) = if entry.ptr == p then some entry else find_entry p rest

unfoldable pub map_entry : ℕ → (RreqEntry → RreqEntry) → List RreqEntry → List RreqEntry
map_entry p f [] = []
map_entry p f (entry ∷ rest) = if entry.ptr == p then f entry ∷ rest else entry ∷ map_entry p f rest

unfoldable pub update_entry : ℕ → (RreqEntry → RreqEntry) → Act MshData Unit
unfolding map_entry
update_entry p f s = (tt, record s { rreq_queue = map_entry p f s.rreq_queue })

-- The entry has been tried too often: give up. The address whose packets are dropped is read from the
-- entry when that has been freed already.
unfoldable pub give_up : RreqEntry → Act MshData Unit
give_up entry = do
  rreq_fifo_entry_delete entry.ptr
  dst ← gets (λ s. s.freed_dst entry.ptr)
  packets_fifo_drop_packets dst
  bump count_dropped

-- Send the request once more, with `prev_tries` counted up already.
unfoldable pub try_again : RreqEntry → ℕ → Act MshData Unit
try_again entry prev_tries = do
  routing_table_update_route entry.dst 0
  set_alarm (rreq_alarm entry.ptr)
      (set_alarm_time (binary_exponential_backoff_time (pos prev_tries)))
  aodv_find_route entry.dst none prev_tries
  rreq_id ← gets (λ s. s.rreq_id)
  update_entry entry.ptr (λ e. record e { rreq_id = rreq_id })

-- `__rreq_fifo_alarm_cb`; `p` is the entry's address.
unfoldable pub rreq_fifo_alarm_cb : ℕ → Act MshData Unit
unfolding give_up try_again
rreq_fifo_alarm_cb p = do
  found ← gets (λ s. find_entry p s.rreq_queue)
  if_found found
      (λ entry. choose (ltb_ℤ entry.prev_tries (pos 0)) (rreq_fifo_entry_delete p) do
        let tries = pos_part entry.prev_tries + 1
        update_entry p (λ e. record e { prev_tries = pos tries })
        choose (ltb rreq_retries tries) (give_up entry) (try_again entry tries))
      (pure tt)
