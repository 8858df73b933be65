-- ===== src/Logic/Retries.antt =====
-- How often a route request is sent again, and that the daemon gives up in the end.
pub mod Search
pub mod Expiry
use meshias.Base.{
  ℕ, ℤ, pos, zero, suc, ◌+◌, ◌-◌, ◌≤◌, ◌==◌, ◌≡◌, refl, sym, subst, ap, ◌<◌, ◌∙◌, Bool, true, false,
  ltb_ℤ, Option, none, some, List, [], ◌∷◌, arith, if◌then◌else◌, ltb,
}
use meshias.Time.{Timeval}
use meshias.Alarm.{Owner}
use meshias.Config.{rreq_retries}
use meshias.Route.{MshRoute}
use meshias.Route.Ops.{msh_route_set_lifetime}
use meshias.State.{
  MshData, RreqEntry, PacketObj, Event, Statistics, Verdict, set_verdict, rtnl_route_add,
  rtnl_route_del, rtnl_route_set_gateway, sendto, send, route_at, update_route, set_alarm,
  clear_alarm, bump, nfq_set_verdict,
}
use meshias.PacketsFifo.{packets_fifo_drop_packets, count_dropped, set_packets}
use meshias.PacketsFifo.Laws.{unpicked, drop_packets_exact}
use meshias.RreqFifo
use meshias.RreqFifo.{remove_entry, rreq_fifo_push_owned, rreq_fifo_entry_delete}
use meshias.RoutingTable.{refresh, update_destination, update_origin, routing_table_update_route}
use meshias.Packet.{AodvPkt}
use meshias.Packet.Check.{send_bytes, aodv_pkt_send}
use meshias.Logic.Discovery.{
  int8, next_rreq, count_rreq_sent, last_known, aodv_find_route, find_entry, map_entry,
  update_entry, give_up, try_again, rreq_fifo_alarm_cb,
}
use meshias.Act.{Act, pure, gets, ◌>>=◌, ◌>>◌, choose, when, if_found, after}
use meshias.Act.Keeps.{Keeps, Keeps-gets, Keeps-pure, keeps_rules}
use meshias.Act.Leads.{Leads, Leads-bind, Leads-after, Leads-pure, Keeps-Leads}
use meshias.Invariant.Basics.{drop_packets-Keeps}
use meshias.Logic.Retries.Search.{sent, Searching, update_kept, alarm_kept, find_lem}
use meshias.Logic.Retries.Expiry.{owned, again_lem, last_lem}

-- The state after the alarm of an entry has run out so often.
abbrev pub expirations : ℕ → ℕ → MshData → MshData
expirations p zero s = s
expirations p (suc n) s = expirations p n (after (rreq_fifo_alarm_cb p) s)

module _ (p dst : ℕ) where
  record Ended (n : ℕ) (s t : MshData) : Type 0 where
    pub queue : t.rreq_queue ≡ remove_entry p s.rreq_queue
    pub packets : t.packets_queue ≡ unpicked (λ w. w.dest == s.freed_dst p) s.packets_queue
    pub sent : sent t.trace ≡ sent s.trace + n

  ended_lem :
      (n k rreq_id : ℕ) (s : MshData)
      → find_entry p s.rreq_queue ≡ some (owned p rreq_id dst k)
      → k + n ≡ rreq_retries
      → Ended n s (expirations p (suc n) s)
  ended_lem zero k rreq_id s found room =
      let given = last_lem p rreq_id dst k s found (omega (arith, room)) in
      record { queue = given.queue; packets = given.packets; sent = omega (arith, given.sent) }
  ended_lem (suc n) k rreq_id s found room =
      let again = again_lem p rreq_id dst k s found (omega (arith, room)) in
      let t = after (rreq_fifo_alarm_cb p) s in
      let later = ended_lem n (suc k) t.rreq_id t again.entry (omega (arith, room)) in
      record {
        queue = later.queue ∙ again.others;
        packets =
            later.packets
            ∙ ap (λ (freed : ℕ → ℕ). unpicked (λ w. w.dest == freed p) t.packets_queue) again.memory
            ∙ ap (unpicked (λ w. w.dest == s.freed_dst p)) again.packets;
        sent = omega (arith, later.sent, again.sent);
      }

-- A search that nobody answers ends: an entry that was sent `k` times again, with `k` at most
-- RREQ_RETRIES, is sent RREQ_RETRIES - k times more, and with one more alarm it is gone. The packets
-- that are given up with it are just those for the address that its freed memory then holds in the place
-- of the destination, whatever that is.
pub expirations-end :
    (p rreq_id dst k : ℕ) (s : MshData)
    → find_entry p s.rreq_queue ≡ some (owned p rreq_id dst k)
    → k ≤ rreq_retries
    → let t = expirations p (suc (rreq_retries - k)) s in
      (t.rreq_queue ≡ remove_entry p s.rreq_queue)
      × (t.packets_queue ≡ unpicked (λ w. w.dest == s.freed_dst p) s.packets_queue)
      × (sent t.trace ≡ sent s.trace + (rreq_retries - k))
expirations-end p rreq_id dst k s found few =
    let ended = ended_lem p dst (rreq_retries - k) k rreq_id s found (omega (arith, few)) in
    (ended.queue, ended.packets, ended.sent)
