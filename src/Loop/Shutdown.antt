-- ===== src/Loop/Shutdown.antt =====
-- What the shut-down does and leaves.
use meshias.Base.{ℕ, List, [], ◌∷◌, ◌≡◌, refl, ap, ◌∙◌, arith}
use meshias.Alarm.{AlarmBlock, flush_alarm, del_alarm}
use meshias.State.{
  MshData, Verdict, PacketObj, RreqEntry, nf_drop, nfq_set_verdict, bump, clear_alarm,
}
use meshias.PacketsFifo.{count_dropped, packets_fifo_delete, set_packets}
use meshias.PacketsFifo.Laws.{settle, delete_exact}
use meshias.RreqFifo
use meshias.RreqFifo.{rreq_fifo_entry_delete, delete_entries, rreq_fifo_delete, remove_entry}
use meshias.RoutingTable.Find.{routing_table_del_exact}
use meshias.Loop.{delete_routes, routing_table_delete, msh_data_shutdown}
use meshias.Act.{pure, gets, ◌>>=◌, ◌>>◌, after}
use meshias.Act.Keeps.{Keeps}
use meshias.Invariant.Basics.{delete-Keeps}

-- The shut-down, part by part.
delete_routes_lem : (table : List ℕ) (s : MshData) → after (delete_routes table) s ≡ s
unfolding delete_routes ◌>>=◌ pure
delete_routes_lem [] s = refl
delete_routes_lem (p ∷ rest) s =
    ap (λ r. after (delete_routes rest) r.1) (routing_table_del_exact p s)
    ∙ delete_routes_lem rest s

record Emptied (s t : MshData) : Type 0 where
  pub requests : t.rreq_queue ≡ []
  pub table : t.routing_table ≡ s.routing_table
  pub packets : t.packets_queue ≡ s.packets_queue
  pub trace : t.trace ≡ s.trace

remove_first : (e : RreqEntry) (rest : List RreqEntry) → remove_entry e.ptr (e ∷ rest) ≡ rest
unfolding remove_entry
remove_first e rest = ground arith

delete_entries-Emptied :
    (queue : List RreqEntry) (s : MshData)
    → s.rreq_queue ≡ queue
    → Emptied s (after (delete_entries queue) s)
unfolding delete_entries ◌>>=◌ pure rreq_fifo_entry_delete clear_alarm RreqFifo.list_del
delete_entries-Emptied [] s h = record { requests = h; table = refl; packets = refl; trace = refl }
delete_entries-Emptied (e ∷ rest) s h =
    let deleted =
      delete_entries-Emptied rest (after (rreq_fifo_entry_delete e.ptr) s)
        (ap (remove_entry e.ptr) h ∙ remove_first e rest) in
    record {
      requests = deleted.requests;
      table = deleted.table;
      packets = deleted.packets;
      trace = deleted.trace;
    }

module _ (table : List ℕ) where
  abbrev Lists : MshData → Type 0
  Lists s = (s.routing_table ≡ table) × (s.rreq_queue ≡ [])

  verdict-Lists : (id : ℕ) (v : Verdict) → Keeps Lists (nfq_set_verdict id v)
  unfolding nfq_set_verdict
  verdict-Lists id v = record { at = λ s h. h }

  dropped-Lists : Keeps Lists (bump count_dropped)
  unfolding bump
  dropped-Lists = record { at = λ s h. h }

  packets-Lists : (queue : List PacketObj) → Keeps Lists (set_packets queue)
  unfolding set_packets
  packets-Lists queue = record { at = λ s h. h }

  packets_fifo_delete-Lists : Keeps Lists packets_fifo_delete
  packets_fifo_delete-Lists = delete-Keeps verdict-Lists dropped-Lists packets-Lists

flushed_lem :
    (s : MshData) (pending : List AlarmBlock)
    → Emptied s (after (do routing_table_delete; rreq_fifo_delete) (record s { alarms = pending }))
unfolding routing_table_delete rreq_fifo_delete gets ◌>>=◌
flushed_lem s pending = rw (delete_routes_lem s.routing_table (record s { alarms = pending })) (
    let deleted = delete_entries-Emptied s.rreq_queue (record s { alarms = pending }) refl in
    record {
      requests = deleted.requests;
      table = deleted.table;
      packets = deleted.packets;
      trace = deleted.trace;
    })

-- Shutting down drops each waiting packet once, in the order of the queue, and empties the queue of
-- requests; it asks nothing else of the kernel, so the kernel keeps every route that the daemon gave
-- it, and the routes stay in the table.
pub shutdown_exact :
    (s : MshData)
    → ((after msh_data_shutdown s).packets_queue ≡ [])
      × ((after msh_data_shutdown s).rreq_queue ≡ [])
      × ((after msh_data_shutdown s).routing_table ≡ s.routing_table)
      × ((after msh_data_shutdown s).trace ≡ settle nf_drop s.packets_queue s.trace)
unfolding msh_data_shutdown clear_alarm ◌>>=◌
shutdown_exact s =
    let flushed = flushed_lem s (del_alarm flush_alarm s.alarms) in
    let t =
      after (do routing_table_delete; rreq_fifo_delete)
        (record s { alarms = del_alarm flush_alarm s.alarms }) in
    let kept = (packets_fifo_delete-Lists s.routing_table).at t (flushed.table, flushed.requests) in
    (
      (delete_exact t).0,
      kept.1,
      kept.0,
      (delete_exact t).1
          ∙ ap (λ q. settle nf_drop q t.trace) flushed.packets
          ∙ ap (settle nf_drop s.packets_queue) flushed.trace,
    )
