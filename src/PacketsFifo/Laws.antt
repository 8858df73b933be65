-- ===== src/PacketsFifo/Laws.antt =====
-- What the loops over the waiting packets do: which packets leave, with which verdicts, in which
-- order, and that every packet is settled once.
use meshias.Base.{
  ℕ, ◌+◌, ◌==◌, ◌≡◌, refl, ap, ◌∙◌, Bool, true, false, List, [], ◌∷◌, if◌then◌else◌, arith, inl,
  inr, Bool-cases, suc,
}
use meshias.State.{
  MshData, PacketObj, Event, Verdict, nf_drop, nf_accept, set_verdict, rtnl_route_add,
  rtnl_route_del, rtnl_route_set_gateway, sendto, send, nfq_set_verdict, bump, route_at,
}
use meshias.PacketsFifo.{
  packet_obj_accept, packet_obj_drop, serves, sweep, packets_fifo_drop_packets,
  packets_fifo_process_route, packets_fifo_delete,
}
use meshias.Act.{Act, ◌>>=◌, when, after, returned}

-- The packets that a test picks, and the others, in their order.
abbrev pub picked : (PacketObj → Bool) → List PacketObj → List PacketObj
picked test [] = []
picked test (e ∷ rest) = if test e then e ∷ picked test rest else picked test rest

abbrev pub unpicked : (PacketObj → Bool) → List PacketObj → List PacketObj
unpicked test [] = []
unpicked test (e ∷ rest) = if test e then unpicked test rest else e ∷ unpicked test rest

-- The trace after one verdict for each packet, from the first to the last.
abbrev pub settle : Verdict → List PacketObj → List Event → List Event
settle v [] trace = trace
settle v (e ∷ rest) trace = settle v rest (set_verdict e.id v ∷ trace)

module _ (test : PacketObj → Bool) (handle : PacketObj → Act MshData Unit) where
  sweep-unpicked :
      (queue : List PacketObj) (s : MshData)
      → returned (sweep test handle queue) s ≡ unpicked test queue
  unfolding sweep ◌>>=◌ when
  sweep-unpicked [] s = refl
  sweep-unpicked (e ∷ rest) s = elim (Bool-cases (test e)) [
    | inl hit ↦ rw hit (sweep-unpicked rest (handle e s).1)
    | inr miss ↦ rw miss (ap (λ (l : List PacketObj). e ∷ l) (sweep-unpicked rest s))
  ]

  module _ (v : Verdict)
      (settles : (e : PacketObj) (s : MshData)
        → (handle e s).1.trace ≡ set_verdict e.id v ∷ s.trace) where
    trace-sweep :
        (queue : List PacketObj) (s : MshData)
        → (after (sweep test handle queue) s).trace ≡ settle v (picked test queue) s.trace
    unfolding sweep ◌>>=◌ when
    trace-sweep [] s = refl
    trace-sweep (e ∷ rest) s = elim (Bool-cases (test e)) [
      | inl hit ↦
          rw hit (trace-sweep rest (handle e s).1 ∙ ap (settle v (picked test rest)) (settles e s))
      | inr miss ↦ rw miss (trace-sweep rest s)
    ]

trace-accept :
    (e : PacketObj) (s : MshData)
    → (packet_obj_accept e s).1.trace ≡ set_verdict e.id nf_accept ∷ s.trace
unfolding packet_obj_accept nfq_set_verdict ◌>>=◌
trace-accept e s = refl

trace-drop :
    (e : PacketObj) (s : MshData)
    → (packet_obj_drop e s).1.trace ≡ set_verdict e.id nf_drop ∷ s.trace
unfolding packet_obj_drop nfq_set_verdict bump ◌>>=◌
trace-drop e s = refl

-- A new route lets go exactly the packets that it serves: they leave the queue, each is accepted
-- once, in the order of the queue, and the others stay.
pub process_route_exact :
    (p : ℕ) (s : MshData)
    → ((after (packets_fifo_process_route p) s).packets_queue
        ≡ unpicked (serves (s.routes p)) s.packets_queue)
      × ((after (packets_fifo_process_route p) s).trace
          ≡ settle nf_accept (picked (serves (s.routes p)) s.packets_queue) s.trace)
unfolding packets_fifo_process_route route_at ◌>>=◌
process_route_exact p s = (
  sweep-unpicked (serves (s.routes p)) packet_obj_accept s.packets_queue s,
  trace-sweep (serves (s.routes p)) packet_obj_accept nf_accept trace-accept s.packets_queue s,
)

-- Giving a destination up drops exactly the packets for it.
pub drop_packets_exact :
    (dest : ℕ) (s : MshData)
    → ((after (packets_fifo_drop_packets dest) s).packets_queue
        ≡ unpicked (λ e. e.dest == dest) s.packets_queue)
      × ((after (packets_fifo_drop_packets dest) s).trace
          ≡ settle nf_drop (picked (λ e. e.dest == dest) s.packets_queue) s.trace)
unfolding packets_fifo_drop_packets ◌>>=◌
drop_packets_exact dest s = (
  sweep-unpicked (λ e. e.dest == dest) packet_obj_drop s.packets_queue s,
  trace-sweep (λ e. e.dest == dest) packet_obj_drop nf_drop trace-drop s.packets_queue s,
)

picked_all : (queue : List PacketObj) → picked (λ e. true) queue ≡ queue
picked_all [] = refl
picked_all (e ∷ rest) = ap (λ (l : List PacketObj). e ∷ l) (picked_all rest)

unpicked_all : (queue : List PacketObj) → unpicked (λ e. true) queue ≡ []
unpicked_all [] = refl
unpicked_all (e ∷ rest) = unpicked_all rest

-- Shutting the queue down drops every packet.
pub delete_exact :
    (s : MshData)
    → ((after packets_fifo_delete s).packets_queue ≡ [])
      × ((after packets_fifo_delete s).trace ≡ settle nf_drop s.packets_queue s.trace)
unfolding packets_fifo_delete ◌>>=◌
delete_exact s = (
  sweep-unpicked (λ e. true) packet_obj_drop s.packets_queue s ∙ unpicked_all s.packets_queue,
  trace-sweep (λ e. true) packet_obj_drop nf_drop trace-drop s.packets_queue s
      ∙ ap (λ l. settle nf_drop l s.trace) (picked_all s.packets_queue),
)

-- How often a packet is held, and how often it has a verdict.
abbrev pub held : ℕ → List PacketObj → ℕ
held id [] = 0
held id (e ∷ rest) = if e.id == id then suc (held id rest) else held id rest

abbrev pub is_verdict : ℕ → Event → Bool
is_verdict id (set_verdict n v) = n == id
is_verdict id (rtnl_route_add n r) = false
is_verdict id (rtnl_route_del n) = false
is_verdict id (rtnl_route_set_gateway n ip len) = false
is_verdict id (sendto ttl address payload) = false
is_verdict id (send buf offset length) = false

abbrev pub settled : ℕ → List Event → ℕ
settled id [] = 0
settled id (e ∷ rest) = if is_verdict id e then suc (settled id rest) else settled id rest

settled-settle :
    (id : ℕ) (v : Verdict) (queue : List PacketObj) (trace : List Event)
    → settled id (settle v queue trace) ≡ held id queue + settled id trace
settled-settle id v [] trace = omega arith
settled-settle id v (e ∷ rest) trace =
    ground (arith, settled-settle id v rest (set_verdict e.id v ∷ trace))

held-picked :
    (id : ℕ) (test : PacketObj → Bool) (queue : List PacketObj)
    → held id (picked test queue) + held id (unpicked test queue) ≡ held id queue
held-picked id test [] = omega arith
held-picked id test (e ∷ rest) = ground (arith, held-picked id test rest)

-- Packets held and verdicts given, for one packet id.
abbrev pub tally : ℕ → MshData → ℕ
tally id s = held id s.packets_queue + settled id s.trace

-- A new route neither loses a packet nor settles one twice: for each packet id, the times it is held
-- and the verdicts on it add up to the same number before and after.
pub tally-process_route :
    (id p : ℕ) (s : MshData) → tally id (after (packets_fifo_process_route p) s) ≡ tally id s
tally-process_route id p s =
    rw ((process_route_exact p s).0, (process_route_exact p s).1)
      (omega (
        arith,
        settled-settle id nf_accept (picked (serves (s.routes p)) s.packets_queue) s.trace,
        held-picked id (serves (s.routes p)) s.packets_queue,
      ))

-- Giving a destination up neither loses a packet nor settles one twice.
pub tally-drop_packets :
    (id dest : ℕ) (s : MshData) → tally id (after (packets_fifo_drop_packets dest) s) ≡ tally id s
tally-drop_packets id dest s =
    rw ((drop_packets_exact dest s).0, (drop_packets_exact dest s).1)
      (omega (
        arith,
        settled-settle id nf_drop (picked (λ e. e.dest == dest) s.packets_queue) s.trace,
        held-picked id (λ e. e.dest == dest) s.packets_queue,
      ))

pub tally-delete : (id : ℕ) (s : MshData) → tally id (after packets_fifo_delete s) ≡ tally id s
tally-delete id s =
    rw ((delete_exact s).0, (delete_exact s).1)
      (omega (arith, settled-settle id nf_drop s.packets_queue s.trace))
