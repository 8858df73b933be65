-- ===== src/Invariant/Keys.antt =====
-- Steps that leave alone what the routing table is searched by: the destination and the prefix of
-- every route, and the table itself.
use meshias.Base.{ℕ, ◌≤◌, ◌≡◌, refl, ◌∙◌, arith, List, ℤ}
use meshias.Alarm.{Owner, route_alarm, rreq_alarm, flush_alarm}
use meshias.Time.{Timeval}
use meshias.Route.{MshRoute}
use meshias.Route.Ops.{
  routing_table_route_updated_cb, msh_route_updated, msh_route_set_next_hop, msh_route_set_lifetime,
}
use meshias.State.{
  MshData, Verdict, Statistics, RtnlRoute, Event, PacketObj, RreqEntry, update_route, route_at,
  emit, new_ptr, nfq_set_verdict, bump, set_alarm, clear_alarm, gettimeofday,
}
use meshias.PacketsFifo.{
  set_packets, count_dropped, packets_fifo_push, packets_fifo_process_route,
  packets_fifo_drop_packets,
}
use meshias.RreqFifo
use meshias.RreqFifo.{rreq_fifo_push, rreq_fifo_push_owned, rreq_fifo_entry_delete}
use meshias.RoutingTable.{add_to_kernel}
use meshias.Act.{Act}
use meshias.Act.Keeps.{Keeps, keeps_rules}
use meshias.Invariant.Steps.{KeepsKey}
use meshias.Invariant.Key.{key_rules}
use meshias.Invariant.Basics.{process_route-Keeps, drop_packets-Keeps}

pub record SameKeys (s t : MshData) : Type 0 where
  pub dst_ip : (q : ℕ) → (t.routes q).dst_ip ≡ (s.routes q).dst_ip
  pub prefix_sz : (q : ℕ) → (t.routes q).prefix_sz ≡ (s.routes q).prefix_sz
  pub table : t.routing_table ≡ s.routing_table
  pub room : s.next_ptr ≤ t.next_ptr

pub SameKeys-refl : (s : MshData) → SameKeys s s
SameKeys-refl s = record {
  dst_ip = λ q. refl;
  prefix_sz = λ q. refl;
  table = refl;
  room = omega arith;
}

-- Without a change of the heap.
module _ (start : MshData) where
  abbrev Same : MshData → Type 0
  Same = SameKeys start

  pub plain :
      {A : Type 0} (m : Act MshData A)
      → ((s : MshData) → (m s).1.routes ≡ s.routes)
      → ((s : MshData) → (m s).1.routing_table ≡ s.routing_table)
      → ((s : MshData) → s.next_ptr ≤ (m s).1.next_ptr)
      → Keeps Same m
  plain m heap table room = record {
    at = λ s h. record {
      dst_ip = λ q. rw (heap s) (h.dst_ip q);
      prefix_sz = λ q. rw (heap s) (h.prefix_sz q);
      table = table s ∙ h.table;
      room = omega (arith, h.room, room s);
    };
  }

  pub write-Same : (p : ℕ) (f : MshRoute → MshRoute) → KeepsKey f → Keeps Same (update_route p f)
  unfolding update_route
  write-Same p f k = record {
    at = λ s h. record {
      dst_ip = λ q. ground (arith, h.dst_ip q, k.dst_ip (s.routes p));
      prefix_sz = λ q. ground (arith, h.prefix_sz q, k.prefix_sz (s.routes p));
      table = h.table;
      room = h.room;
    };
  }

  pub alarm-Same : (o : Owner) (delay : Timeval) → Keeps Same (set_alarm o delay)
  unfolding set_alarm
  alarm-Same (route_alarm p) delay = record {
    at = λ s h. record {
      dst_ip = λ q. ground (arith, h.dst_ip q);
      prefix_sz = λ q. ground (arith, h.prefix_sz q);
      table = h.table;
      room = h.room;
    };
  }
  alarm-Same (rreq_alarm p) delay = plain _ (λ s. refl) (λ s. refl) λ s. omega arith
  alarm-Same flush_alarm delay = plain _ (λ s. refl) (λ s. refl) λ s. omega arith

  pub clear-Same : (o : Owner) → Keeps Same (clear_alarm o)
  unfolding clear_alarm
  clear-Same o = plain _ (λ s. refl) (λ s. refl) λ s. omega arith

  pub read-Same : (p : ℕ) → Keeps Same (route_at p)
  unfolding route_at
  read-Same p = plain _ (λ s. refl) (λ s. refl) λ s. omega arith

  pub emit-Same : (e : Event) → Keeps Same (emit e)
  unfolding emit
  emit-Same e = plain _ (λ s. refl) (λ s. refl) λ s. omega arith

  pub bump-Same : (f : Statistics → Statistics) → Keeps Same (bump f)
  unfolding bump
  bump-Same f = plain _ (λ s. refl) (λ s. refl) λ s. omega arith

  pub clock-Same : Keeps Same gettimeofday
  unfolding gettimeofday
  clock-Same = plain _ (λ s. refl) (λ s. refl) λ s. omega arith

  pub address-Same : Keeps Same new_ptr
  unfolding new_ptr
  address-Same = plain _ (λ s. refl) (λ s. refl) λ s. omega arith

  pub kernel-Same : (n : ℕ) (r : RtnlRoute) → Keeps Same (add_to_kernel n r)
  unfolding add_to_kernel
  kernel-Same n r = plain _ (λ s. refl) (λ s. refl) λ s. omega arith

  pub verdict-Same : (id : ℕ) (v : Verdict) → Keeps Same (nfq_set_verdict id v)
  unfolding nfq_set_verdict
  verdict-Same id v = plain _ (λ s. refl) (λ s. refl) λ s. omega arith

  packets-Same : (queue : List PacketObj) → Keeps Same (set_packets queue)
  unfolding set_packets
  packets-Same queue = plain _ (λ s. refl) (λ s. refl) λ s. omega arith

  pub hold-Same : (id dest : ℕ) → Keeps Same (packets_fifo_push id dest)
  unfolding packets_fifo_push
  hold-Same id dest = plain _ (λ s. refl) (λ s. refl) λ s. omega arith

  entry-Same : (e : RreqEntry) → Keeps Same (RreqFifo.list_add e)
  unfolding RreqFifo.list_add
  entry-Same e = plain _ (λ s. refl) (λ s. refl) λ s. omega arith

  remove-Same : (p : ℕ) → Keeps Same (RreqFifo.list_del p)
  unfolding RreqFifo.list_del
  remove-Same p = plain _ (λ s. refl) (λ s. refl) λ s. omega arith

  pub process_route-Same : (p : ℕ) → Keeps Same (packets_fifo_process_route p)
  process_route-Same = process_route-Keeps verdict-Same (bump-Same count_dropped) packets-Same

  pub drop_packets-Same : (dest : ℕ) → Keeps Same (packets_fifo_drop_packets dest)
  drop_packets-Same = drop_packets-Keeps verdict-Same (bump-Same count_dropped) packets-Same

  pub set_lifetime-Same : (p lifetime : ℕ) → Keeps Same (msh_route_set_lifetime p lifetime)
  unfolding msh_route_set_lifetime
  set_lifetime-Same p lifetime =
      search (keeps_rules, key_rules, read-Same, write-Same, alarm-Same) depth 20

  pub next_hop-Same : (p ip : ℕ) → Keeps Same (msh_route_set_next_hop p ip)
  unfolding msh_route_set_next_hop msh_route_updated routing_table_route_updated_cb
  next_hop-Same p ip = search (keeps_rules, key_rules, read-Same, write-Same, emit-Same) depth 20

  pub push-Same : (rreq_id dst : ℕ) → Keeps Same (rreq_fifo_push rreq_id dst)
  unfolding rreq_fifo_push
  push-Same rreq_id dst = search (keeps_rules, address-Same, alarm-Same, entry-Same) depth 20

  pub push_owned-Same : (rreq_id dst : ℕ) (n : ℤ) → Keeps Same (rreq_fifo_push_owned rreq_id dst n)
  unfolding rreq_fifo_push_owned
  push_owned-Same rreq_id dst n =
      search (keeps_rules, address-Same, alarm-Same, entry-Same) depth 20

  pub delete-Same : (p : ℕ) → Keeps Same (rreq_fifo_entry_delete p)
  unfolding rreq_fifo_entry_delete
  delete-Same p = search (keeps_rules, clear-Same, remove-Same) depth 20
