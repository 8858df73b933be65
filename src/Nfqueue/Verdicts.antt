-- ===== src/Nfqueue/Verdicts.antt =====
-- What becomes of a packet that leaves the host.
use meshias.Base.{
  ℕ, ℤ, pos, ◌==◌, ◌!=◌, ◌≡◌, refl, ◌∙◌, ap, Bool, true, false, not, Option, none, some, List, [],
  ◌∷◌, if◌then◌else◌, arith,
}
use meshias.State.{
  MshData, PacketObj, Event, Verdict, nf_accept, set_verdict, rtnl_route_add, rtnl_route_del,
  rtnl_route_set_gateway, sendto, send, nfq_set_verdict, route_at, update_route, set_alarm, new_ptr,
  bump, Statistics, RreqEntry,
}
use meshias.Alarm.{Owner}
use meshias.Time.{Timeval}
use meshias.Route.{MshRoute, test_flag, rtflag_valid_entry}
use meshias.Route.Ops.{msh_route_set_lifetime}
use meshias.PacketsFifo.{packets_fifo_push}
use meshias.RreqFifo
use meshias.RreqFifo.{rreq_fifo_push_owned, rreq_fifo_waiting_response_for}
use meshias.RoutingTable.{
  refresh, routing_table_update_route, routing_table_find_by_ip, update_destination, update_origin,
}
use meshias.Packet.{AodvPkt}
use meshias.Packet.Check.{send_bytes, aodv_pkt_send}
use meshias.Logic.Discovery.{next_rreq, count_rreq_sent, last_known, aodv_find_route}
use meshias.Nfqueue.{
  NfqData, accept, hold, manage_output_packet, nfqueue_packet_get_id, nfqueue_packet_get_dest,
}
use meshias.Act.{Act, pure, gets, ◌>>=◌, ◌>>◌, choose, when, after, returned, if_found}
use meshias.Act.Keeps.{Keeps, keeps_rules}
use meshias.Act.Branch.{choose-if}

-- Is the way to an address known: is it this node's own, or is there a valid route to it?
abbrev pub way_known : ℕ → MshData → Bool
way_known dest s = if dest == s.ip_addr then true else elim (routing_table_find_by_ip dest s) [
  | none ↦ false
  | some p ↦ test_flag rtflag_valid_entry (s.routes p)
]

-- The verdicts of a trace.
abbrev pub verdicts : List Event → List (ℕ × Verdict)
verdicts [] = []
verdicts (set_verdict n v ∷ rest) = (n, v) ∷ verdicts rest
verdicts (rtnl_route_add n r ∷ rest) = verdicts rest
verdicts (rtnl_route_del n ∷ rest) = verdicts rest
verdicts (rtnl_route_set_gateway n ip len ∷ rest) = verdicts rest
verdicts (sendto ttl address payload ∷ rest) = verdicts rest
verdicts (send buf offset length ∷ rest) = verdicts rest

-- What is settled and what waits.
abbrev pub settled_and_waiting : MshData → List (ℕ × Verdict) × List PacketObj
settled_and_waiting s = (verdicts s.trace, s.packets_queue)

module _ (seen : List (ℕ × Verdict) × List PacketObj) where
  abbrev pub Sees : MshData → Type 0
  Sees s = settled_and_waiting s ≡ seen

  pub quiet :
      {A : Type 0} (m : Act MshData A)
      → ((s : MshData) → settled_and_waiting (m s).1 ≡ settled_and_waiting s)
      → Keeps Sees m
  quiet m e = record { at = λ s h. e s ∙ h }

  pub read_kept : (p : ℕ) → Keeps Sees (route_at p)
  unfolding route_at
  read_kept p = quiet _ λ s. refl

  pub write_kept : (p : ℕ) (f : MshRoute → MshRoute) → Keeps Sees (update_route p f)
  unfolding update_route
  write_kept p f = quiet _ λ s. refl

  pub alarm_kept : (o : Owner) (delay : Timeval) → Keeps Sees (set_alarm o delay)
  unfolding set_alarm
  alarm_kept o delay = quiet _ λ s. refl

  pub bump_kept : (f : Statistics → Statistics) → Keeps Sees (bump f)
  unfolding bump
  bump_kept f = quiet _ λ s. refl

  address_kept : Keeps Sees new_ptr
  unfolding new_ptr
  address_kept = quiet _ λ s. refl

  request_kept : Keeps Sees next_rreq
  unfolding next_rreq
  request_kept = quiet _ λ s. refl

  count_kept : Keeps Sees count_rreq_sent
  unfolding count_rreq_sent
  count_kept = quiet _ λ s. refl

  pub send_kept : (pkt : AodvPkt) → Keeps Sees (send_bytes pkt)
  unfolding send_bytes
  send_kept pkt = quiet _ λ s. refl

  entry_kept : (e : RreqEntry) → Keeps Sees (RreqFifo.list_add e)
  unfolding RreqFifo.list_add
  entry_kept e = quiet _ λ s. refl

  pub lifetime_kept : (p lifetime : ℕ) → Keeps Sees (msh_route_set_lifetime p lifetime)
  unfolding msh_route_set_lifetime
  lifetime_kept p lifetime = search (keeps_rules, read_kept, write_kept, alarm_kept) depth 20

  refresh_kept : (p ip : ℕ) → Keeps Sees (refresh p ip)
  unfolding refresh
  refresh_kept p ip = search (keeps_rules, lifetime_kept, read_kept) depth 20

  pub update_kept : (dest orig : ℕ) → Keeps Sees (routing_table_update_route dest orig)
  unfolding routing_table_update_route update_destination update_origin
  update_kept dest orig = search (keeps_rules, refresh_kept, read_kept, bump_kept) depth 30

  push_owned_kept : (id dst : ℕ) (n : ℤ) → Keeps Sees (rreq_fifo_push_owned id dst n)
  unfolding rreq_fifo_push_owned
  push_owned_kept id dst n = search (keeps_rules, address_kept, alarm_kept, entry_kept) depth 20

  pub packet_kept : (pkt : AodvPkt) → Keeps Sees (aodv_pkt_send pkt)
  unfolding aodv_pkt_send
  packet_kept pkt = search (keeps_rules, send_kept, bump_kept) depth 20

  find_kept : (dest : ℕ) (invalid : Option ℕ) (n : ℕ) → Keeps Sees (aodv_find_route dest invalid n)
  unfolding aodv_find_route last_known
  find_kept dest invalid n =
      search (keeps_rules, request_kept, count_kept, push_owned_kept, read_kept, packet_kept) depth
        30

-- What actions of these shapes return.
module _ {S : Type 0} where
  second_stage :
      (b : Bool) (n : Act S Unit) (s : S) → returned (choose b (n >> pure true) (pure false)) s ≡ b
  unfolding ◌>>=◌ choose pure
  second_stage true n s = refl
  second_stage false n s = refl

  valid_stage :
      (b : Bool) (m n : Act S Unit) (s : S)
      → returned (choose (not b) (m >> pure false) (n >> pure true)) s ≡ b
  unfolding ◌>>=◌ choose pure
  valid_stage true m n s = refl
  valid_stage false m n s = refl

  found_stage :
      (o : Option ℕ) (f : ℕ → Act S Bool) (v : ℕ → Bool) (s : S)
      → ((p : ℕ) → returned (f p) s ≡ v p)
      → returned (if_found o f (pure false)) s ≡ elim o [ none ↦ false | some p ↦ v p ]
  unfolding if_found pure
  found_stage none f v s e = refl
  found_stage (some p) f v s e = e p

  own_stage :
      (dest ip_addr : ℕ) (m : Act S Bool) (s : S)
      → returned (choose (dest != ip_addr) m (pure true)) s
        ≡ (if dest == ip_addr then true else returned m s)
  unfolding choose pure
  own_stage dest ip_addr m s = ground arith

destination_known :
    (dest : ℕ) (s : MshData)
    → returned (update_destination dest) s ≡ elim (routing_table_find_by_ip dest s) [
      | none ↦ false
      | some p ↦ test_flag rtflag_valid_entry (s.routes p)
    ]
unfolding update_destination ◌>>=◌ gets route_at
destination_known dest s =
    found_stage (routing_table_find_by_ip dest s) _ _ s λ p. valid_stage _ _ _ s

pub update_route-known :
    (dest orig : ℕ) (s : MshData)
    → returned (routing_table_update_route dest orig) s ≡ way_known dest s
unfolding routing_table_update_route ◌>>=◌ gets
update_route-known dest orig s =
    second_stage _ _ _
    ∙ own_stage dest s.ip_addr (update_destination dest) s
    ∙ ap (λ b. if dest == s.ip_addr then true else b) (destination_known dest s)

-- The packet has been accepted, or waits.
abbrev pub with_accepted :
    NfqData → List (ℕ × Verdict) × List PacketObj → List (ℕ × Verdict) × List PacketObj
with_accepted packet seen = ((nfqueue_packet_get_id packet, nf_accept) ∷ seen.0, seen.1)

abbrev pub with_waiting :
    NfqData → List (ℕ × Verdict) × List PacketObj → List (ℕ × Verdict) × List PacketObj
with_waiting packet seen = (
  seen.0,
  record { id = nfqueue_packet_get_id packet; dest = nfqueue_packet_get_dest packet } ∷ seen.1,
)

pub accept-sees :
    (packet : NfqData) (s : MshData)
    → settled_and_waiting (accept packet s).1 ≡ with_accepted packet (settled_and_waiting s)
unfolding accept nfq_set_verdict
accept-sees packet s = refl

search_kept :
    (seen : List (ℕ × Verdict) × List PacketObj) (dest : ℕ)
    → Keeps (Sees seen) do
      waiting ← gets (λ s. rreq_fifo_waiting_response_for s.rreq_queue dest)
      when (not waiting) (aodv_find_route dest none 0)
      pure (pos 1)
search_kept seen dest = search (keeps_rules, find_kept seen) depth 20

pub hold-sees :
    (packet : NfqData) (s : MshData)
    → settled_and_waiting (hold (nfqueue_packet_get_id packet) (nfqueue_packet_get_dest packet) s).1
      ≡ with_waiting packet (settled_and_waiting s)
unfolding hold packets_fifo_push ◌>>=◌
hold-sees packet s =
    (search_kept (with_waiting packet (settled_and_waiting s)) (nfqueue_packet_get_dest packet)).at
      (packets_fifo_push (nfqueue_packet_get_id packet) (nfqueue_packet_get_dest packet) s).1 refl

-- A packet that leaves the host is accepted at once if it is a broadcast, if it is for the host
-- itself, or if there is a valid route to its destination. In every other case it gets no verdict and
-- waits, in front of the packets that wait already. No other packet is settled or set free.
pub manage_output_packet-sees :
    (packet : NfqData) (s : MshData)
    → settled_and_waiting (after (manage_output_packet packet) s) ≡ (
        if nfqueue_packet_get_dest packet == s.broadcast_addr
        then with_accepted packet (settled_and_waiting s)
        else (if way_known (nfqueue_packet_get_dest packet) s
            then with_accepted packet (settled_and_waiting s)
            else with_waiting packet (settled_and_waiting s)))
unfolding manage_output_packet ◌>>=◌ gets
manage_output_packet-sees packet s =
    let dest = nfqueue_packet_get_dest packet in
    let updated = routing_table_update_route dest 0 s in
    let same = (update_kept (settled_and_waiting s) dest 0).at s refl in
    choose-if _ _ _ s settled_and_waiting (λ _. accept-sees packet s)
      λ _.
        choose-if _ _ _ updated.1 settled_and_waiting
          (λ _. accept-sees packet updated.1 ∙ ap (with_accepted packet) same)
          (λ _. hold-sees packet updated.1 ∙ ap (with_waiting packet) same)
        ∙ ap
            (λ b.
              if b
              then with_accepted packet (settled_and_waiting s)
              else with_waiting packet (settled_and_waiting s))
            (update_route-known dest 0 s)
