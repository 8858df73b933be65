-- ===== src/Logic/Delivery/Known.antt =====
-- What a reply does with the packets that wait, where the routes are in the table already.
use meshias.Base.{ℕ, ◌+◌, ◌≡◌, refl, sym, ◌∙◌, ap, subst, some, List, [], ◌∷◌}
use meshias.Route.{MshRoute}
use meshias.State.{MshData}
use meshias.RoutingTable.{routing_table_find_by_ip}
use meshias.RoutingTable.Find.{first_to, find_by_ip-first_to}
use meshias.Packet.{AodvPkt, get_rrep, aodv_pkt_get_address}
use meshias.Logic.Rrep.{aodv_process_rrep}
use meshias.Nfqueue.Verdicts.{settled_and_waiting}
use meshias.Act.{Act, ◌>>=◌, after}
use meshias.Word.{u8}
use meshias.Config.{active_route_timeout}
use meshias.Invariant.Keys.{SameKeys-refl}
use meshias.Invariant.Table.{TableOk, TableOk-same}
use meshias.Logic.Delivery.{Steady, lifetime-Steady}
use meshias.Logic.Delivery.Rest.{with_prev_hop, prev_hop_lem, known_dest}

first_to-same :
    (old now : ℕ → MshRoute) (ip : ℕ) (table : List ℕ)
    → ((p : ℕ) → (now p).dst_ip ≡ (old p).dst_ip)
    → first_to now ip table ≡ first_to old ip table
first_to-same old now ip [] same = refl
first_to-same old now ip (p ∷ rest) same = rw (same p, first_to-same old now ip rest same) refl

-- What leaves the keys of the table alone leaves the searches alone.
find-Steady :
    {A : Type 0} (m : Act MshData A) (ip : ℕ) (s : MshData)
    → Steady m
    → TableOk s
    → routing_table_find_by_ip ip (after m s) ≡ routing_table_find_by_ip ip s
find-Steady m ip s steady table =
    let k = (steady.same s).at s (SameKeys-refl s) in
    find_by_ip-first_to ip (after m s) (TableOk-same s _ k table).host
    ∙ ap (first_to (after m s).routes ip) k.table
    ∙ first_to-same s.routes (after m s).routes ip s.routing_table k.dst_ip
    ∙ sym (find_by_ip-first_to ip s table.host)

-- A reply lets no packet go and settles none, where the table is well-formed and has routes to the
-- neighbour that it came from and to its destination: the packets for the destination wait on, whether
-- the route to it was valid or has expired, and whether the reply is for this node or for another.
pub process_rrep-known :
    (pkt : AodvPkt) (n q : ℕ) (s : MshData)
    → TableOk s
    → routing_table_find_by_ip (aodv_pkt_get_address pkt) s ≡ some n
    → routing_table_find_by_ip (get_rrep pkt.payload).dest_ip_addr s ≡ some q
    → settled_and_waiting (after (aodv_process_rrep pkt) s) ≡ settled_and_waiting s
unfolding aodv_process_rrep ◌>>=◌
process_rrep-known pkt n q s table neighbour found =
    let prev_hop = aodv_pkt_get_address pkt in
    let received = get_rrep pkt.payload in
    let rrep = record received { hop_count = u8 (received.hop_count + 1) } in
    let steady = lifetime-Steady n active_route_timeout in
    subst
      (λ (r : ℕ × MshData).
        settled_and_waiting (after (with_prev_hop pkt rrep prev_hop r.0) r.1)
        ≡ settled_and_waiting s)
      (sym (prev_hop_lem prev_hop n s neighbour))
      (known_dest (settled_and_waiting s) pkt rrep prev_hop n q _
        (find-Steady _ rrep.dest_ip_addr s steady table ∙ found)
        ((steady.sees (settled_and_waiting s)).at s refl))
