-- ===== src/Logic/Spreading/Answering.antt =====
-- How a request is answered or sent on by a node that has entered its routes.
use meshias.Base.{
  ℕ, ◌+◌, ◌==◌, ltb, ◌≡◌, refl, ◌∙◌, ap, Bool, true, false, not, ◌&&◌, Option, none, some, List, [],
  ◌∷◌, if◌then◌else◌, Bool-cases, inl, inr, arith,
}
use meshias.Word.{u8, htonl}
use meshias.State.{MshData, Event, sendto, route_at}
use meshias.RoutingTable.{routing_table_find_by_ip}
use meshias.Packet.{
  AodvPkt, AodvRreq, put_rreq, put_rrep, default_ttl, aodv_pkt_set_address, aodv_pkt_decrease_ttl,
  aodv_pkt_prepare_rreq, aodv_pkt_prepare_rrep,
}
use meshias.Packet.Check.{aodv_pkt_send}
use meshias.Logic.Discovery.{count_rreq_sent}
use meshias.Logic.Reply.{may_answer, aodv_answer_to_rreq}
use meshias.Logic.Answers.{own_reply, answer_to_rreq-trace, trace-aodv_pkt_send}
use meshias.Logic.Rreq.{forward_rreq, forwarded_seq_num}
use meshias.Act.{Act, pure, gets, ◌>>=◌, ◌>>◌, choose, when, if_found, after, returned}
use meshias.Logic.Spreading.{messages}

-- Does the node know a route that it may answer with?
abbrev pub knows : AodvRreq → MshData → Bool
knows rreq s = elim (routing_table_find_by_ip rreq.dest_ip_addr s) [
  | none ↦ false
  | some p ↦ may_answer rreq s
]

-- The message that answers a request for this node, and the one that sends a request on.
abbrev pub answering : AodvRreq → ℕ → MshData → Event
answering rreq prev_hop s =
    sendto default_ttl (htonl prev_hop) (put_rrep (aodv_pkt_prepare_rrep (own_reply rreq s)) [])

abbrev pub forwarding : AodvPkt → AodvRreq → MshData → Event
forwarding pkt rreq s =
    sendto (u8 (pkt.ttl + 255)) (htonl s.broadcast_addr)
      (put_rreq (aodv_pkt_prepare_rreq rreq) pkt.payload)

-- The number that is sent on is the request's own, whatever the node knows.
forwarded_lem :
    (found : Option ℕ) (rreq : AodvRreq) (s : MshData)
    → if_found found
        (λ p. do route ← route_at p; pure (forwarded_seq_num route rreq))
        (pure rreq.dest_seq_num)
        s
      ≡ (rreq.dest_seq_num, s)
unfolding if_found pure forwarded_seq_num route_at ◌>>=◌
forwarded_lem none rreq s = refl
forwarded_lem (some p) rreq s = ground arith

-- The end of `forward_rreq`.
abbrev send_on : AodvPkt → AodvRreq → ℕ → ℕ → Act MshData Unit
send_on pkt rreq broadcast_addr seq_num = do
  count_rreq_sent
  let message = aodv_pkt_prepare_rreq (record rreq { dest_seq_num = seq_num })
  let outgoing = aodv_pkt_decrease_ttl (aodv_pkt_set_address broadcast_addr pkt)
  aodv_pkt_send (record outgoing { payload = put_rreq message pkt.payload })
  pure tt

forward-trace :
    (pkt : AodvPkt) (rreq : AodvRreq) (s : MshData)
    → (after (forward_rreq pkt rreq) s).trace ≡ forwarding pkt rreq s ∷ s.trace
unfolding forward_rreq gets ◌>>=◌ count_rreq_sent pure aodv_pkt_decrease_ttl aodv_pkt_set_address
forward-trace pkt rreq s =
    ap (λ (r : ℕ × MshData). (after (send_on pkt rreq s.broadcast_addr r.0) r.1).trace)
      (forwarded_lem (routing_table_find_by_ip rreq.dest_ip_addr s) rreq s)
    ∙ trace-aodv_pkt_send _ _

found_answer :
    (found : Option ℕ) (allowed : Bool) (m : ℕ → Act MshData Unit) (s : MshData)
    → returned
        (if_found found (λ p. choose allowed (do m p; pure true) (pure false)) (pure false))
        s
      ≡ elim found [ none ↦ false | some p ↦ allowed ]
unfolding if_found choose pure ◌>>=◌
found_answer none allowed m s = refl
found_answer (some p) true m s = refl
found_answer (some p) false m s = refl

found_none :
    (found : Option ℕ) (allowed : Bool) (m : ℕ → Act MshData Unit) (s : MshData)
    → elim found as (λ _. Bool) [ none ↦ false | some p ↦ allowed ] ≡ false
    → if_found found (λ p. choose allowed (do m p; pure true) (pure false)) (pure false) s
      ≡ (false, s)
unfolding if_found choose pure ◌>>=◌
found_none none allowed m s h = refl
found_none (some p) true m s h = cc
found_none (some p) false m s h = refl

module _ {A : Type 0} where
  choose_first : (b : Bool) (m n : Act MshData A) (s : MshData) → b ≡ true → choose b m n s ≡ m s
  unfolding choose
  choose_first true m n s h = refl
  choose_first false m n s h = cc

  pub choose_second :
      (b : Bool) (m n : Act MshData A) (s : MshData) → b ≡ false → choose b m n s ≡ n s
  unfolding choose
  choose_second true m n s h = cc
  choose_second false m n s h = refl

module _ (rreq : AodvRreq) (prev_hop orig : ℕ) (s : MshData) where
  own_answer :
      (rreq.dest_ip_addr == s.ip_addr) ≡ true
      → returned (aodv_answer_to_rreq rreq prev_hop orig) s ≡ true
  unfolding aodv_answer_to_rreq gets ◌>>=◌ pure
  own_answer own = ap (λ (r : Bool × MshData). r.0) (choose_first _ _ _ s own)

  known_answer :
      (rreq.dest_ip_addr == s.ip_addr) ≡ false
      → knows rreq s ≡ true
      → returned (aodv_answer_to_rreq rreq prev_hop orig) s ≡ true
  unfolding aodv_answer_to_rreq gets ◌>>=◌
  known_answer own known =
      ap (λ (r : Bool × MshData). r.0) (choose_second _ _ _ s own)
      ∙ (found_answer _ (may_answer rreq s) _ s ∙ known)

  no_answer :
      (rreq.dest_ip_addr == s.ip_addr) ≡ false
      → knows rreq s ≡ false
      → aodv_answer_to_rreq rreq prev_hop orig s ≡ (false, s)
  unfolding aodv_answer_to_rreq gets ◌>>=◌
  no_answer own known = choose_second _ _ _ s own ∙ found_none _ (may_answer rreq s) _ s known

-- The last statement of the handler, where the request has been answered.
answered_lem :
    (answered b : Bool) (m : Act MshData Unit) (s : MshData)
    → answered ≡ true
    → after (when (not answered && b) m) s ≡ s
unfolding when pure
answered_lem true b m s h = refl
answered_lem false b m s h = cc

sent_on :
    (b : Bool) (pkt : AodvPkt) (rreq : AodvRreq) (s : MshData)
    → messages (after (when b (forward_rreq pkt rreq)) s).trace
      ≡ (if b then forwarding pkt rreq s ∷ messages s.trace else messages s.trace)
unfolding when pure
sent_on true pkt rreq s = ap messages (forward-trace pkt rreq s)
sent_on false pkt rreq s = refl

-- What is sent for a new request by a node that has entered its routes.
abbrev pub reaction : AodvPkt → AodvRreq → ℕ → Bool → MshData → List Event → List Event
reaction pkt rreq prev_hop known s trace =
    if rreq.dest_ip_addr == s.ip_addr
    then answering rreq prev_hop s ∷ trace
    else (if known then trace else (if ltb 1 pkt.ttl then forwarding pkt rreq s ∷ trace else trace))

-- The end of `process_new_rreq`.
abbrev react : AodvPkt → AodvRreq → ℕ → ℕ → Act MshData Unit
react pkt rreq prev_hop orig = do
  answered ← aodv_answer_to_rreq rreq prev_hop orig
  when (not answered && ltb 1 pkt.ttl) (forward_rreq pkt rreq)

module _ (pkt : AodvPkt) (rreq : AodvRreq) (prev_hop orig : ℕ) (s : MshData) where
  abbrev answer : Bool × MshData
  answer = aodv_answer_to_rreq rreq prev_hop orig s

  react_answered : answer.0 ≡ true → (after (react pkt rreq prev_hop orig) s).trace ≡ answer.1.trace
  unfolding ◌>>=◌
  react_answered h =
      ap (λ (t : MshData). t.trace) (answered_lem answer.0 (ltb 1 pkt.ttl) _ answer.1 h)

  react_unanswered :
      answer ≡ (false, s)
      → messages (after (react pkt rreq prev_hop orig) s).trace
        ≡ (if ltb 1 pkt.ttl then forwarding pkt rreq s ∷ messages s.trace else messages s.trace)
  unfolding ◌>>=◌
  react_unanswered h =
      ap
        (λ (r : Bool × MshData).
          messages (after (when (not r.0 && ltb 1 pkt.ttl) (forward_rreq pkt rreq)) r.1).trace)
        h
      ∙ sent_on (ltb 1 pkt.ttl) pkt rreq s

  -- By what the node knows, where the request is not for it.
  react_other :
      (known : Bool)
      → (rreq.dest_ip_addr == s.ip_addr) ≡ false
      → knows rreq s ≡ known
      → messages (after (react pkt rreq prev_hop orig) s).trace
        ≡ reaction pkt rreq prev_hop known s (messages s.trace)
  react_other true other known =
      ap messages (
        react_answered (known_answer rreq prev_hop orig s other known)
        ∙ answer_to_rreq-trace rreq prev_hop orig s)
      ∙ rw other refl
  react_other false other known =
      react_unanswered (no_answer rreq prev_hop orig s other known) ∙ rw other refl

  pub react_lem :
      messages (after (react pkt rreq prev_hop orig) s).trace
      ≡ reaction pkt rreq prev_hop (knows rreq s) s (messages s.trace)
  react_lem = elim (Bool-cases (rreq.dest_ip_addr == s.ip_addr)) [
    | inl own ↦
        ap messages (
          react_answered (own_answer rreq prev_hop orig s own)
          ∙ answer_to_rreq-trace rreq prev_hop orig s)
        ∙ rw own refl
    | inr other ↦ react_other (knows rreq s) other refl
  ]
