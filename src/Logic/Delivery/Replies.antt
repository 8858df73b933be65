-- ===== src/Logic/Delivery/Replies.antt =====
-- What a reply does with the packets that wait for its destination.
use meshias.Base.{
  Option, ℕ, ◌≡◌, refl, false, Bool, none, some, List, ◌==◌, ◌∙◌, ◌+◌, [], ◌∷◌, arith, sym, subst,
}
use meshias.State.{MshData, Verdict, PacketObj}
use meshias.RoutingTable.{routing_table_find_by_ip, add_failed}
use meshias.RoutingTable.Find.{find_by_ip-first_to}
use meshias.Packet.{AodvPkt, AodvRrep, get_rrep, aodv_pkt_get_address}
use native.Mathlib.Decide.{ℕ_discrete}
use meshias.PacketsFifo.Laws.{picked, unpicked}
use meshias.Logic.Delivery.Neighbour.{Created, create_prev_hop-Created}
use meshias.Logic.Rrep.{create_prev_hop, prev_hop_route, aodv_process_rrep}
use meshias.Nfqueue.Verdicts.{settled_and_waiting}
use meshias.Act.{gets, ◌>>=◌, if_found, after}
use meshias.Invariant.Table.{TableOk, NoneTo}
use meshias.Word.{u8}
use meshias.Config.{active_route_timeout}
use meshias.Invariant.Table.Entering.{none_listed, create_prev_hop-TableOk}
use meshias.Logic.Delivery.{delivered, Steady-Waits, lifetime-Steady}
use meshias.Logic.Delivery.Rest.{with_prev_hop, prev_hop_lem, from_prev_hop, known_dest}

picked-unpicked :
    (test : PacketObj → Bool) (queue : List PacketObj) → picked test (unpicked test queue) ≡ []
picked-unpicked test [] = refl
picked-unpicked test (packet ∷ rest) = ground (arith, picked-unpicked test rest)

unpicked-unpicked :
    (test : PacketObj → Bool) (queue : List PacketObj)
    → unpicked test (unpicked test queue) ≡ unpicked test queue
unpicked-unpicked test [] = refl
unpicked-unpicked test (packet ∷ rest) = ground (arith, unpicked-unpicked test rest)

delivered-delivered :
    (dest : ℕ) (seen : List (ℕ × Verdict) × List PacketObj)
    → delivered dest (delivered dest seen) ≡ delivered dest seen
delivered-delivered dest seen =
    rw
      (
        picked-unpicked (λ packet. packet.dest == dest) seen.1,
        unpicked-unpicked (λ packet. packet.dest == dest) seen.1,
      )
      refl

-- A neighbour that is new gets a route first, which lets the packets for it go.
abbrev pub with_neighbour :
    ℕ → Option ℕ → List (ℕ × Verdict) × List PacketObj → List (ℕ × Verdict) × List PacketObj
with_neighbour prev_hop none seen = delivered prev_hop seen
with_neighbour prev_hop (some n) seen = seen

module _ (pkt : AodvPkt) (s : MshData) (table : TableOk s)
    (absent : routing_table_find_by_ip (get_rrep pkt.payload).dest_ip_addr s ≡ none)
    (kernel : (k : ℕ) → add_failed (s.add_results k) ≡ false) where
  abbrev dest : ℕ
  dest = (get_rrep pkt.payload).dest_ip_addr

  abbrev prev_hop : ℕ
  prev_hop = aodv_pkt_get_address pkt

  abbrev seen : List (ℕ × Verdict) × List PacketObj
  seen = settled_and_waiting s

  abbrev rrep : AodvRrep
  rrep =
      let received = get_rrep pkt.payload in
      record received { hop_count = u8 (received.hop_count + 1) }

  none_there : NoneTo s.routes dest s.routing_table
  none_there =
      none_listed s.routes dest s.routing_table
        (sym (find_by_ip-first_to dest s table.host) ∙ absent)

  from_known :
      (n : ℕ)
      → routing_table_find_by_ip prev_hop s ≡ some n
      → settled_and_waiting (after (aodv_process_rrep pkt) s) ≡ delivered dest seen
  unfolding aodv_process_rrep ◌>>=◌
  from_known n neighbour =
      subst
        (λ (r : ℕ × MshData).
          settled_and_waiting (after (with_prev_hop pkt rrep prev_hop r.0) r.1)
          ≡ delivered dest seen)
        (sym (prev_hop_lem prev_hop n s neighbour))
        ((from_prev_hop dest seen pkt rrep prev_hop n refl).ends _ (
          (Steady-Waits dest dest seen _ (lifetime-Steady n active_route_timeout)).at s (record {
            table = table;
            none_to = none_there;
            none_other = none_there;
            view = refl;
            kernel = kernel;
          })))

  -- The state after the route to a new neighbour was created.
  abbrev joined : ℕ × MshData
  joined = create_prev_hop prev_hop s

  joined-Created :
      routing_table_find_by_ip prev_hop s ≡ none → Created prev_hop dest seen joined.0 joined.1
  joined-Created missing = (create_prev_hop-Created prev_hop dest seen).ends s (record {
    table = table;
    none_to =
        none_listed s.routes prev_hop s.routing_table
          (sym (find_by_ip-first_to prev_hop s table.host) ∙ missing);
    none_other = none_there;
    view = refl;
    kernel = kernel;
  })

  joined_lem : routing_table_find_by_ip prev_hop s ≡ none → prev_hop_route prev_hop s ≡ joined
  unfolding prev_hop_route gets ◌>>=◌
  joined_lem missing = rw missing (unfold if_found in refl)

  -- The neighbour is the destination itself, or another node.
  from_joined :
      Created prev_hop dest seen joined.0 joined.1
      → settled_and_waiting (after (with_prev_hop pkt rrep prev_hop joined.0) joined.1)
        ≡ delivered dest (delivered prev_hop seen)
  from_joined h = elim (ℕ_discrete dest prev_hop) [
    | yes same ↦
        let t = joined.1 in
        known_dest (delivered dest (delivered prev_hop seen)) pkt rrep prev_hop joined.0 joined.0 t
          (subst (λ q. routing_table_find_by_ip q t ≡ some joined.0) (sym same) h.found)
          (h.settled
            ∙ sym (
                subst (λ q. delivered dest (delivered q seen) ≡ delivered q seen) same
                  (delivered-delivered dest seen)))
    | no differ ↦
        let t = joined.1 in
        let joined_table = (create_prev_hop-TableOk prev_hop).at s table in
        let still_none =
          none_listed t.routes dest t.routing_table
            (sym (find_by_ip-first_to dest t joined_table.host) ∙ h.missed differ) in
        (from_prev_hop dest (delivered prev_hop seen) pkt rrep prev_hop joined.0 refl).ends t
          (record {
            table = joined_table;
            none_to = still_none;
            none_other = still_none;
            view = h.settled;
            kernel = h.kernel;
          })
  ]

  from_new :
      routing_table_find_by_ip prev_hop s ≡ none
      → settled_and_waiting (after (aodv_process_rrep pkt) s)
        ≡ delivered dest (delivered prev_hop seen)
  unfolding aodv_process_rrep ◌>>=◌
  from_new missing =
      subst
        (λ (r : ℕ × MshData).
          settled_and_waiting (after (with_prev_hop pkt rrep prev_hop r.0) r.1)
          ≡ delivered dest (delivered prev_hop seen))
        (sym (joined_lem missing)) (from_joined (joined-Created missing))

  by_neighbour :
      (o : Option ℕ)
      → routing_table_find_by_ip prev_hop s ≡ o
      → settled_and_waiting (after (aodv_process_rrep pkt) s)
        ≡ delivered dest (with_neighbour prev_hop o seen)
  by_neighbour none missing = from_new missing
  by_neighbour (some n) neighbour = from_known n neighbour

-- A reply lets every packet go that waits for its destination, where the table is well-formed and has no
-- route to it yet, and the kernel takes the routes that it is given: those packets are accepted, each once
-- and in the order of the queue. A neighbour to which there is no route gets one first, which lets the
-- packets for it go as well. No other packet is settled or set free, whether the reply is for this node
-- or for another.
pub process_rrep-delivers :
    (pkt : AodvPkt) (s : MshData)
    → TableOk s
    → routing_table_find_by_ip (get_rrep pkt.payload).dest_ip_addr s ≡ none
    → ((k : ℕ) → add_failed (s.add_results k) ≡ false)
    → settled_and_waiting (after (aodv_process_rrep pkt) s)
      ≡ delivered (get_rrep pkt.payload).dest_ip_addr (
          with_neighbour
            (aodv_pkt_get_address pkt)
            (routing_table_find_by_ip (aodv_pkt_get_address pkt) s)
            (settled_and_waiting s))
process_rrep-delivers pkt s table absent kernel =
    by_neighbour pkt s table absent kernel (routing_table_find_by_ip (aodv_pkt_get_address pkt) s)
      refl
