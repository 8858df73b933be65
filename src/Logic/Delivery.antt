-- ===== src/Logic/Delivery.antt =====
-- The reply to a search lets the packets go that wait for its destination.
pub mod Adding
pub mod Neighbour
pub mod Rest
pub mod Replies
pub mod Known
use meshias.Base.{
  ℕ, ◌==◌, ◌≡◌, refl, ◌∙◌, ap, ℤ, true, false, none, some, List, [], ◌∷◌, All-map, arith,
}
use meshias.Time.{Timeval}
use meshias.Alarm.{Owner}
use meshias.Route.{MshRoute, msh_route_set_dst_ip}
use meshias.Route.Ops.{
  Change, msh_route_updated, routing_table_route_updated_cb, msh_route_set_next_hop,
  msh_route_set_lifetime, unlink,
}
use meshias.State.{
  MshData, Verdict, PacketObj, Event, nf_accept, rtnl_route_del, rtnl_route_set_gateway, route_at,
  update_route, new_ptr, new_route, set_alarm, emit,
}
use meshias.PacketsFifo.Laws.{picked, unpicked}
use meshias.RoutingTable.{add_failed}
use meshias.Nfqueue.Verdicts.{
  settled_and_waiting, Sees, quiet, read_kept, write_kept, lifetime_kept,
}
use meshias.Act.{Act, ◌>>=◌, after}
use meshias.Act.Keeps.{Keeps, keeps_rules}
use meshias.Act.Leads.{Leads}
use meshias.Invariant.Steps.{KeepsKey}
use meshias.Invariant.Keys.{SameKeys, SameKeys-refl, write-Same, set_lifetime-Same, next_hop-Same}
use meshias.Invariant.Table.{TableOk, NoneTo, NoneTo-same, TableOk-same, Ready, Ready-same, Fresh}
use meshias.Invariant.Table.Entering.{allocates, set_dst-Fresh, NoneTo-put}

-- What is settled once each of these packets has been accepted, from the first to the last.
abbrev pub accept_all : List PacketObj → List (ℕ × Verdict) → List (ℕ × Verdict)
accept_all [] settled = settled
accept_all (packet ∷ rest) settled = accept_all rest ((packet.id, nf_accept) ∷ settled)

-- The packets for a destination have been accepted, and do not wait any more.
abbrev pub delivered : ℕ → List (ℕ × Verdict) × List PacketObj → List (ℕ × Verdict) × List PacketObj
delivered dest seen = (
  accept_all (picked (λ packet. packet.dest == dest) seen.1) seen.0,
  unpicked (λ packet. packet.dest == dest) seen.1,
)

-- Actions that leave alone the keys of the table, the packets, and what the kernel will answer.
abbrev pub AddsAre : (ℕ → ℤ) → MshData → Type 0
AddsAre answers s = s.add_results ≡ answers

pub record Steady {A : Type 0} (m : Act MshData A) : Type 0 where
  pub same : (start : MshData) → Keeps (SameKeys start) m
  pub sees : (seen : List (ℕ × Verdict) × List PacketObj) → Keeps (Sees seen) m
  pub adds : (answers : ℕ → ℤ) → Keeps (AddsAre answers) m

module _ (answers : ℕ → ℤ) where
  read_adds : (p : ℕ) → Keeps (AddsAre answers) (route_at p)
  unfolding route_at
  read_adds p = record { at = λ s h. h }

  pub write_adds : (p : ℕ) (f : MshRoute → MshRoute) → Keeps (AddsAre answers) (update_route p f)
  unfolding update_route
  write_adds p f = record { at = λ s h. h }

  alarm_adds : (o : Owner) (delay : Timeval) → Keeps (AddsAre answers) (set_alarm o delay)
  unfolding set_alarm
  alarm_adds o delay = record { at = λ s h. h }

  emit_adds : (e : Event) → Keeps (AddsAre answers) (emit e)
  unfolding emit
  emit_adds e = record { at = λ s h. h }

  pub lifetime_adds : (p lifetime : ℕ) → Keeps (AddsAre answers) (msh_route_set_lifetime p lifetime)
  unfolding msh_route_set_lifetime
  lifetime_adds p lifetime = search (keeps_rules, read_adds, write_adds, alarm_adds) depth 20

  next_hop_adds : (p ip : ℕ) → Keeps (AddsAre answers) (msh_route_set_next_hop p ip)
  unfolding msh_route_set_next_hop msh_route_updated routing_table_route_updated_cb
  next_hop_adds p ip = search (keeps_rules, read_adds, write_adds, emit_adds) depth 20

module _ (seen : List (ℕ × Verdict) × List PacketObj) where
  gateway_kept : (n ip len : ℕ) → Keeps (Sees seen) (emit (rtnl_route_set_gateway n ip len))
  unfolding emit
  gateway_kept n ip len = quiet seen _ λ s. refl

  pub next_hop_kept : (p ip : ℕ) → Keeps (Sees seen) (msh_route_set_next_hop p ip)
  unfolding msh_route_set_next_hop msh_route_updated routing_table_route_updated_cb
  next_hop_kept p ip = search (keeps_rules, read_kept, write_kept, gateway_kept) depth 20

pub write-Steady : (p : ℕ) (f : MshRoute → MshRoute) → KeepsKey f → Steady (update_route p f)
write-Steady p f key = record {
  same = λ start. write-Same start p f key;
  sees = λ seen. write_kept seen p f;
  adds = λ answers. write_adds answers p f;
}

pub lifetime-Steady : (p lifetime : ℕ) → Steady (msh_route_set_lifetime p lifetime)
lifetime-Steady p lifetime = record {
  same = λ start. set_lifetime-Same start p lifetime;
  sees = λ seen. lifetime_kept seen p lifetime;
  adds = λ answers. lifetime_adds answers p lifetime;
}

pub next_hop-Steady : (p ip : ℕ) → Steady (msh_route_set_next_hop p ip)
next_hop-Steady p ip = record {
  same = λ start. next_hop-Same start p ip;
  sees = λ seen. next_hop_kept seen p ip;
  adds = λ answers. next_hop_adds answers p ip;
}

-- Packets wait, there is no route to the destination nor to another address, and the kernel takes
-- what it is given.
module _ (dest other : ℕ) (seen : List (ℕ × Verdict) × List PacketObj) where
  pub record Waits (s : MshData) : Type 0 where
    pub table : TableOk s
    pub none_to : NoneTo s.routes dest s.routing_table
    pub none_other : NoneTo s.routes other s.routing_table
    pub view : settled_and_waiting s ≡ seen
    pub kernel : (k : ℕ) → add_failed (s.add_results k) ≡ false

  -- The new route, before and after it has its destination.
  pub record Prepared (p : ℕ) (s : MshData) : Type 0 where
    pub fresh : Fresh p s
    pub waits : Waits s

  pub record Entering (p : ℕ) (s : MshData) : Type 0 where
    pub ready : Ready p s
    pub dst : (s.routes p).dst_ip ≡ dest
    pub waits : Waits s

  pub Steady-Waits : {A : Type 0} (m : Act MshData A) → Steady m → Keeps Waits m
  Steady-Waits m steady = record {
    at = λ s h.
        let k = (steady.same s).at s (SameKeys-refl s) in
        record {
          table = TableOk-same s _ k h.table;
          none_to =
              rw k.table
                (NoneTo-same s.routes (after m s).routes dest s.routing_table k.dst_ip h.none_to);
          none_other =
              rw k.table (
                NoneTo-same s.routes (after m s).routes other s.routing_table k.dst_ip
                  h.none_other);
          view = (steady.sees seen).at s h.view;
          kernel = rw ((steady.adds s.add_results).at s refl) h.kernel;
        };
  }

  pub Steady-Entering : {A : Type 0} (p : ℕ) (m : Act MshData A) → Steady m → Keeps (Entering p) m
  Steady-Entering p m steady = record {
    at = λ s h.
        let k = (steady.same s).at s (SameKeys-refl s) in
        record {
          ready = Ready-same p s _ k h.ready;
          dst = k.dst_ip p ∙ h.dst;
          waits = (Steady-Waits m steady).at s h.waits;
        };
  }
