-- ===== src/Logic/Retries/Search.antt =====
-- What sending a request once more does to the queues, and how many messages it sends.
use meshias.Base.{
  ℕ, suc, ◌==◌, ◌≡◌, ap, Bool, true, false, Option, none, List, [], ◌∷◌, arith, if◌then◌else◌,
}
use meshias.Time.{Timeval}
use meshias.Alarm.{Owner}
use meshias.Route.{MshRoute}
use meshias.Route.Ops.{msh_route_set_lifetime}
use meshias.State.{
  MshData, RreqEntry, PacketObj, Event, Statistics, set_verdict, rtnl_route_add, rtnl_route_del,
  rtnl_route_set_gateway, sendto, send, route_at, update_route, set_alarm, bump,
}
use meshias.RreqFifo.{rreq_fifo_push_owned}
use meshias.RoutingTable.{refresh, update_destination, update_origin, routing_table_update_route}
use meshias.Packet.{AodvPkt}
use meshias.Packet.Check.{send_bytes, aodv_pkt_send}
use meshias.Logic.Discovery.{int8, next_rreq, count_rreq_sent, last_known, aodv_find_route}
use meshias.Act.{when}
use meshias.Act.Keeps.{Keeps, Keeps-gets, Keeps-pure, keeps_rules}
use meshias.Act.Leads.{Leads, Leads-bind, Leads-after, Leads-pure, Keeps-Leads}

-- How many messages a trace has sent.
abbrev is_sendto : Event → Bool
is_sendto (sendto ttl address payload) = true
is_sendto (set_verdict n v) = false
is_sendto (rtnl_route_add n r) = false
is_sendto (rtnl_route_del n) = false
is_sendto (rtnl_route_set_gateway n ip len) = false
is_sendto (send buf offset length) = false

abbrev pub sent : List Event → ℕ
sent [] = 0
sent (e ∷ rest) = if is_sendto e then suc (sent rest) else sent rest

module _ (queue : List RreqEntry) (packets : List PacketObj) (freed : ℕ → ℕ) (n : ℕ) where
  abbrev pub Searching : MshData → Type 0
  Searching s =
      (s.rreq_queue ≡ queue)
      × (s.packets_queue ≡ packets)
      × (sent s.trace ≡ n)
      × (s.freed_dst ≡ freed)

  read_kept : (p : ℕ) → Keeps Searching (route_at p)
  unfolding route_at
  read_kept p = record { at = λ s h. h }

  write_kept : (p : ℕ) (f : MshRoute → MshRoute) → Keeps Searching (update_route p f)
  unfolding update_route
  write_kept p f = record { at = λ s h. h }

  pub alarm_kept : (o : Owner) (delay : Timeval) → Keeps Searching (set_alarm o delay)
  unfolding set_alarm
  alarm_kept o delay = record { at = λ s h. h }

  count_kept : (f : Statistics → Statistics) → Keeps Searching (bump f)
  unfolding bump
  count_kept f = record { at = λ s h. h }

  next_kept : Keeps Searching next_rreq
  unfolding next_rreq
  next_kept = record { at = λ s h. h }

  request_kept : Keeps Searching count_rreq_sent
  unfolding count_rreq_sent
  request_kept = record { at = λ s h. h }

  lifetime_kept : (p lifetime : ℕ) → Keeps Searching (msh_route_set_lifetime p lifetime)
  unfolding msh_route_set_lifetime
  lifetime_kept p lifetime = search (keeps_rules, read_kept, write_kept, alarm_kept) depth 20

  refresh_kept : (p ip : ℕ) → Keeps Searching (refresh p ip)
  unfolding refresh
  refresh_kept p ip = search (keeps_rules, read_kept, lifetime_kept) depth 20

  pub update_kept : (dest orig : ℕ) → Keeps Searching (routing_table_update_route dest orig)
  unfolding routing_table_update_route update_destination update_origin
  update_kept dest orig = search (keeps_rules, refresh_kept, read_kept, count_kept) depth 30

  last_known_kept : (invalid_route : Option ℕ) → Keeps Searching (last_known invalid_route)
  unfolding last_known
  last_known_kept invalid_route = search (keeps_rules, read_kept) depth 20

  no_push :
      (k rreq_id dest : ℕ)
      → Keeps Searching (when (suc k == 0) (rreq_fifo_push_owned rreq_id dest (int8 (suc k))))
  unfolding when
  no_push k rreq_id dest = let e : (suc k == 0) ≡ false = ground arith in rw e (Keeps-pure tt)

module _ (queue : List RreqEntry) (packets : List PacketObj) (freed : ℕ → ℕ) (n : ℕ) where
  bytes_lem :
      (pkt : AodvPkt)
      → Leads
          (Searching queue packets freed n)
          (λ _. Searching queue packets freed (suc n))
          (send_bytes pkt)
  unfolding send_bytes
  bytes_lem pkt = record { ends = λ s h. (h.0, h.1, ap suc h.2, h.3) }

  send_lem :
      (pkt : AodvPkt)
      → Leads
          (Searching queue packets freed n)
          (λ _. Searching queue packets freed (suc n))
          (aodv_pkt_send pkt)
  unfolding aodv_pkt_send
  send_lem pkt = Leads-bind _ _ (bytes_lem pkt) λ numbytes.
      Keeps-Leads _ (search (keeps_rules, count_kept queue packets freed (suc n)) depth 20)

  pub find_lem :
      (dest k : ℕ)
      → Leads
          (Searching queue packets freed n)
          (λ _. Searching queue packets freed (suc n))
          (aodv_find_route dest none (suc k))
  unfolding aodv_find_route
  find_lem dest k = Leads-after _ _ (next_kept queue packets freed n) λ _.
      Leads-after _ _ (Keeps-gets _) λ rreq_id.
        Leads-after _ _ (no_push queue packets freed n k rreq_id dest) λ _.
          Leads-after _ _ (last_known_kept queue packets freed n none) λ known.
            Leads-after _ _ (Keeps-gets _) λ request.
              Leads-after _ _ (request_kept queue packets freed n)
                λ _. Leads-bind _ _ (send_lem request) λ _. Leads-pure tt λ s h. h
