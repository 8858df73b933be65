-- ===== src/Nfqueue/Fate.antt =====
-- What `manage_packet` does with a packet, whatever hook it was captured at.
use meshias.Base.{
  ℕ, ◌==◌, ◌≡◌, ℤ, subst, arith, refl, ◌∙◌, ap, Bool, true, false, List, if◌then◌else◌,
}
use meshias.State.{MshData, PacketObj, Verdict}
use meshias.RoutingTable.{routing_table_update_route}
use meshias.Nfqueue.{
  NfqData, accept, manage_input_packet, manage_forward_packet, manage_output_packet, manage_packet,
  nfqueue_packet_is_aodv, nfqueue_packet_get_hook, nfqueue_packet_get_dest, nf_ip_local_in,
  nf_ip_forward, nf_ip_local_out,
}
use meshias.Nfqueue.Verdicts.{
  way_known, settled_and_waiting, with_accepted, with_waiting, update_kept, update_route-known,
  accept-sees, hold-sees,
}
use meshias.Act.{Act, choose, gets, pure, ◌>>=◌, after}

-- A packet is let through, waits for a route, or gets no verdict and does not wait either.
pub data Fate : Type 0 where
  accepted held undecided : Fate

-- A broadcast is accepted, and what has a known way; the rest depends on the hook.
abbrev by_way : Fate → NfqData → MshData → Fate
by_way otherwise packet s =
    if nfqueue_packet_get_dest packet == s.broadcast_addr
    then accepted
    else (if way_known (nfqueue_packet_get_dest packet) s then accepted else otherwise)

abbrev pub fate : NfqData → MshData → Fate
fate packet s =
    if nfqueue_packet_is_aodv packet
    then accepted
    else (if nfqueue_packet_get_hook packet == nf_ip_local_in
        then by_way undecided packet s
        else (if nfqueue_packet_get_hook packet == nf_ip_forward
            then accepted
            else (if nfqueue_packet_get_hook packet == nf_ip_local_out
                then by_way held packet s
                else accepted)))

abbrev pub with_fate :
    Fate → NfqData → List (ℕ × Verdict) × List PacketObj → List (ℕ × Verdict) × List PacketObj
with_fate accepted packet seen = with_accepted packet seen
with_fate held packet seen = with_waiting packet seen
with_fate undecided packet seen = seen

-- The action gives the packet this fate.
abbrev Gives : NfqData → MshData → {A : Type 0} → Act MshData A → MshData → Fate → Type 0
Gives packet s m t f = settled_and_waiting (m t).1 ≡ with_fate f packet (settled_and_waiting s)

module _ (packet : NfqData) (s : MshData) where
  Gives-choose :
      {A : Type 0} (b : Bool) (m n : Act MshData A) (t : MshData) (f g : Fate)
      → Gives packet s m t f
      → Gives packet s n t g
      → Gives packet s (choose b m n) t (if b then f else g)
  unfolding choose
  Gives-choose true m n t f g on_true on_false = on_true
  Gives-choose false m n t f g on_true on_false = on_false

  accept-Gives : Gives packet s (accept packet) s accepted
  accept-Gives = accept-sees packet s

  -- The search for the way leaves the verdicts and the waiting packets alone.
  by_way-Gives :
      (orig : ℕ) (otherwise : Fate) (m : Act MshData ℤ)
      → ((t : MshData)
          → settled_and_waiting t ≡ settled_and_waiting s
          → Gives packet s m t otherwise)
      → Gives packet s
          (choose (nfqueue_packet_get_dest packet == s.broadcast_addr) (accept packet) do
            known ← routing_table_update_route (nfqueue_packet_get_dest packet) orig
            choose known (accept packet) m)
          s
          (by_way otherwise packet s)
  unfolding ◌>>=◌
  by_way-Gives orig otherwise m given =
      let dest = nfqueue_packet_get_dest packet in
      let updated = routing_table_update_route dest orig s in
      let same = (update_kept (settled_and_waiting s) dest orig).at s refl in
      Gives-choose _ _ _ s accepted _ accept-Gives (
        Gives-choose updated.0 _ _ updated.1 accepted otherwise
          (accept-sees packet updated.1 ∙ ap (with_accepted packet) same) (given updated.1 same)
        ∙ ap
            (λ known.
              with_fate (if known then accepted else otherwise) packet (settled_and_waiting s))
            (update_route-known dest orig s))

  input-Gives : Gives packet s (manage_input_packet packet) s (by_way undecided packet s)
  unfolding manage_input_packet ◌>>=◌ gets pure
  input-Gives = by_way-Gives _ undecided _ λ t same. same

  output-Gives : Gives packet s (manage_output_packet packet) s (by_way held packet s)
  unfolding manage_output_packet ◌>>=◌ gets
  output-Gives = by_way-Gives 0 held _ λ t same. hold-sees packet t ∙ ap (with_waiting packet) same

  forward-Gives : Gives packet s (manage_forward_packet packet) s (by_way accepted packet s)
  unfolding manage_forward_packet ◌>>=◌ gets
  forward-Gives =
      by_way-Gives _ accepted _ λ t same. accept-sees packet t ∙ ap (with_accepted packet) same

  by_way_accepted : by_way accepted packet s ≡ accepted
  by_way_accepted = ground arith

-- What becomes of a captured packet, at whatever hook. An AODV packet, a forwarded packet and one from
-- an unknown hook is accepted. At the input and the output a broadcast is accepted, and a packet for the
-- host itself or with a valid route to its destination; of the others one that leaves the host gets no
-- verdict and waits in front of those that wait already, and one that comes in gets no verdict and does
-- not wait. No other packet is settled or set free.
pub manage_packet-fate :
    (packet : NfqData) (s : MshData)
    → settled_and_waiting (after (manage_packet packet) s)
      ≡ with_fate (fate packet s) packet (settled_and_waiting s)
unfolding manage_packet
manage_packet-fate packet s = Gives-choose packet s _ _ _ s accepted _ (accept-Gives packet s) (
    Gives-choose packet s _ _ _ s _ _ (input-Gives packet s) (
      Gives-choose packet s _ _ _ s _ _
        (subst (Gives packet s (manage_forward_packet packet) s) (by_way_accepted packet s)
          (forward-Gives packet s))
        (Gives-choose packet s _ _ _ s _ _ (output-Gives packet s) (accept-Gives packet s))))
