-- ===== src/Logic/Answers.antt =====
-- What `aodv_answer_to_rreq` puts on the wire.
use meshias.Base.{ℕ, ◌==◌, ◌≡◌, refl, true, false, List, [], ◌∷◌, if◌then◌else◌, arith}
use meshias.Config.{my_route_timeout}
use meshias.Route.Ops.{msh_route_get_lifetime}
use meshias.State.{MshData, Event, sendto, update_route, route_at, gettimeofday, bump}
use meshias.Route.{MshRoute}
use meshias.Packet.{
  AodvPkt, AodvRreq, AodvRrep, aodv_rrep, default_ttl, aodv_pkt_alloc, aodv_pkt_set_address,
  aodv_pkt_build_rrep, aodv_pkt_prepare_rrep, put_rrep,
}
use meshias.Word.{add32, htonl}
use meshias.RoutingTable.{routing_table_find_by_ip}
use meshias.Packet.Check.{aodv_pkt_send, send_bytes}
use meshias.Logic.Reply.{
  renew_seq_num, may_answer, reply_as_destination, reply_as_intermediate, build_replies,
  aodv_answer_to_rreq,
}
use meshias.Act.{pure, gets, ◌>>=◌, ◌>>◌, choose, when, after, if_found}
use meshias.Act.Branch.{choose-if}
use meshias.Act.Keeps.{Keeps, keeps_rules}

-- Sending puts one event on the trace, whatever the kernel answers.
pub trace-aodv_pkt_send :
    (pkt : AodvPkt) (s : MshData)
    → (after (aodv_pkt_send pkt) s).trace ≡ sendto pkt.ttl pkt.address pkt.payload ∷ s.trace
unfolding aodv_pkt_send send_bytes ◌>>=◌ choose when bump pure
trace-aodv_pkt_send pkt s = ground arith

module _ (trace : List Event) where
  abbrev TraceIs : MshData → Type 0
  TraceIs s = s.trace ≡ trace

  write_kept : (p : ℕ) (f : MshRoute → MshRoute) → Keeps TraceIs (update_route p f)
  unfolding update_route
  write_kept p f = record { at = λ s h. h }

  read_kept : (p : ℕ) → Keeps TraceIs (route_at p)
  unfolding route_at
  read_kept p = record { at = λ s h. h }

  clock_kept : Keeps TraceIs gettimeofday
  unfolding gettimeofday
  clock_kept = record { at = λ s h. h }

  lifetime_kept : (p : ℕ) → Keeps TraceIs (msh_route_get_lifetime p)
  unfolding msh_route_get_lifetime
  lifetime_kept p = search (keeps_rules, clock_kept, read_kept) depth 20

  replies_kept : (rreq : AodvRreq) (dest orig : ℕ) → Keeps TraceIs (build_replies rreq dest orig)
  unfolding build_replies
  replies_kept rreq dest orig = search (keeps_rules, clock_kept, read_kept, lifetime_kept) depth 30

  intermediate_kept :
      (rreq : AodvRreq) (prev_hop dest orig : ℕ)
      → Keeps TraceIs (reply_as_intermediate rreq prev_hop dest orig)
  unfolding reply_as_intermediate
  intermediate_kept rreq prev_hop dest orig =
      search (keeps_rules, write_kept, read_kept, replies_kept) depth 30

  -- What `aodv_answer_to_rreq` does where this node is not the destination.
  intermediate_or_none :
      (rreq : AodvRreq) (prev_hop route_to_orig : ℕ)
      → Keeps TraceIs do
        found ← gets (routing_table_find_by_ip rreq.dest_ip_addr)
        allowed ← gets (may_answer rreq)
        if_found found
            (λ route_to_dest.
              choose allowed
                (do reply_as_intermediate rreq prev_hop route_to_dest route_to_orig; pure true)
                (pure false))
            (pure false)
  intermediate_or_none rreq prev_hop route_to_orig =
      search (keeps_rules, intermediate_kept) depth 30

-- The reply of the destination itself, in host order: no hops yet, its own sequence number, which is
-- counted up if the request has it already, and MY_ROUTE_TIMEOUT.
abbrev pub own_reply : AodvRreq → MshData → AodvRrep
own_reply rreq s = record {
  type = aodv_rrep;
  reserved2 = 0;
  flags = 0;
  prefix_sz = 0;
  reserved = 0;
  hop_count = 0;
  dest_ip_addr = s.ip_addr;
  dest_seq_num = if rreq.dest_seq_num == s.seq_num then add32 s.seq_num 1 else s.seq_num;
  orig_ip_addr = rreq.orig_ip_addr;
  lifetime = my_route_timeout;
}

destination_sends :
    (rreq : AodvRreq) (prev_hop : ℕ) (s : MshData)
    → (after (reply_as_destination rreq prev_hop) s).trace
      ≡ sendto default_ttl (htonl prev_hop) (put_rrep (aodv_pkt_prepare_rrep (own_reply rreq s)) [])
        ∷ s.trace
unfolding reply_as_destination ◌>>=◌ renew_seq_num gets pure aodv_pkt_build_rrep aodv_pkt_alloc
    aodv_pkt_set_address aodv_pkt_prepare_rrep
destination_sends rreq prev_hop s = trace-aodv_pkt_send _ _

-- A node answers a request only if it is the destination itself: it then sends its own reply to the
-- node that the request came from, with 64 hops to live. In every other case it sends nothing, also
-- where it knows a route to the destination and takes the request for answered.
pub answer_to_rreq-trace :
    (rreq : AodvRreq) (prev_hop route_to_orig : ℕ) (s : MshData)
    → (after (aodv_answer_to_rreq rreq prev_hop route_to_orig) s).trace ≡ (
        if rreq.dest_ip_addr == s.ip_addr
        then sendto default_ttl
            (htonl prev_hop)
            (put_rrep (aodv_pkt_prepare_rrep (own_reply rreq s)) [])
          ∷ s.trace
        else s.trace)
unfolding aodv_answer_to_rreq ◌>>=◌ gets
answer_to_rreq-trace rreq prev_hop route_to_orig s =
    choose-if _ _ _ s (λ t. t.trace) (λ _. destination_sends rreq prev_hop s)
      (λ _. (intermediate_or_none s.trace rreq prev_hop route_to_orig).at s refl)
