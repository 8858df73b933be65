-- ===== src/Invariant/Requests.antt =====
-- Every request in the queue of rreq_fifo.c has its alarm pending, whatever the daemon does, so that
-- no search is forgotten.
pub mod Queue
pub mod Handlers
pub mod Expiry
use meshias.Base.{
  ℕ, ◌+◌, ◌≤◌, ◌<◌, ◌==◌, ◌≡◌, ◌≢◌, refl, ◌∙◌, Bool, true, false, ◌||◌, Option, none, some, List,
  [], ◌∷◌, if◌then◌else◌, ℤ, pos, arith, All, All-map,
}
use meshias.Time.{Timeval, set_alarm_time}
use meshias.Alarm.{Owner, route_alarm, rreq_alarm, flush_alarm, alarm_pending, same_owner}
use meshias.Alarm.Pending.{pending-set, pending-add_alarm, pending-del_alarm}
use meshias.Route.{MshRoute}
use meshias.Route.Ops.{unlink}
use meshias.State.{
  MshData, Verdict, RreqEntry, PacketObj, Statistics, RtnlRoute, Event, update_route, emit, new_ptr,
  new_route, nfq_set_verdict, bump, set_alarm, clear_alarm, gettimeofday,
}
use meshias.PacketsFifo.{
  count_dropped, packets_fifo_push, packets_fifo_delete, packets_fifo_drop_packets,
  packets_fifo_process_route, set_packets,
}
use meshias.RreqFifo
use meshias.RreqFifo.{remove_entry, rreq_fifo_push, rreq_fifo_push_owned, rreq_fifo_entry_delete}
use meshias.RoutingTable
use meshias.RoutingTable.{add_to_kernel}
use meshias.Packet.Check.{send_bytes}
use meshias.Logic.Discovery.{next_rreq, count_rreq_sent, map_entry, update_entry}
use meshias.Logic.Reply.{renew_seq_num}
use meshias.Daemon.{reset_rreq_sent}
use meshias.Invariant.Requests.Queue.{
  DistinctPtr, All-remove_entry, remove_entry-others, DistinctPtr-remove_entry, All-map_entry,
  DistinctPtr-map_entry, All-both,
}
use meshias.Act.{Act, ◌>>=◌, ◌>>◌, after}
use meshias.Act.Keeps.{Keeps}
use meshias.Act.Leads.{Leads}
use meshias.Invariant.Steps.{Steps}
use meshias.Invariant.Basics.{
  RouteParts, add_prev_hop-Keeps, add_orig-Keeps, create_prev_hop-Keeps, create_dest-Keeps,
  process_route-Keeps, drop_packets-Keeps, delete-Keeps,
}

-- While the alarm of an entry runs, that entry may be without.
abbrev pub excused : Option ℕ → ℕ → Bool
excused none p = false
excused (some q) p = q == p

-- The alarm of an entry is pending, or the entry is excused.
abbrev pub IsAwaited : Option ℕ → MshData → RreqEntry → Type 0
IsAwaited x s e = (excused x e.ptr || alarm_pending (rreq_alarm e.ptr) s.alarms) ≡ true

pub record Awaited (x : Option ℕ) (s : MshData) : Type 0 where
  pub pending : All (IsAwaited x s) s.rreq_queue
  pub distinct : DistinctPtr s.rreq_queue
  pub fresh : All (λ e. e.ptr < s.next_ptr) s.rreq_queue

-- The other alarms do not matter.
or_pending :
    (excuse before after : Bool)
    → (before ≡ true → after ≡ true)
    → (excuse || before) ≡ true
    → (excuse || after) ≡ true
or_pending true before after f h = refl
or_pending false before after f h = f h

pub excuse_or :
    (x y before after : Bool)
    → (x ≡ true → y ≡ true)
    → (before ≡ true → after ≡ true)
    → (x || before) ≡ true
    → (y || after) ≡ true
excuse_or true y before after f g h = rw (f refl) refl
excuse_or false true before after f g h = refl
excuse_or false false before after f g h = g h

pub other_request : (q p : ℕ) → p ≢ q → same_owner (rreq_alarm q) (rreq_alarm p) ≡ false
other_request q p h = ground (arith, h)

module _ (x : Option ℕ) where
  pub quiet :
      {A : Type 0} (m : Act MshData A)
      → ((s : MshData) → (m s).1.rreq_queue ≡ s.rreq_queue)
      → ((s : MshData) → (m s).1.alarms ≡ s.alarms)
      → ((s : MshData) → s.next_ptr ≤ (m s).1.next_ptr)
      → Keeps (Awaited x) m
  quiet m queue alarms room = record {
    at = λ s h. record {
      pending = rw (queue s, alarms s) h.pending;
      distinct = rw (queue s) h.distinct;
      fresh = rw (queue s) (All-map (λ e b. omega (arith, b, room s)) s.rreq_queue h.fresh);
    };
  }

  pub set_alarm-Awaited : (o : Owner) (delay : Timeval) → Keeps (Awaited x) (set_alarm o delay)
  unfolding set_alarm
  set_alarm-Awaited o delay = record {
    at = λ s h. record {
      pending =
          All-map
            (λ e b.
              or_pending (excused x e.ptr) _ _
                (pending-add_alarm o (rreq_alarm e.ptr) delay (s.clock 0) s.alarms) b)
            s.rreq_queue h.pending;
      distinct = h.distinct;
      fresh = h.fresh;
    };
  }

  -- Not the alarm of a request.
  abbrev pub NoRequest : Owner → Type 0
  NoRequest o = (p : ℕ) → same_owner o (rreq_alarm p) ≡ false

  pub clear_alarm-Awaited : (o : Owner) → NoRequest o → Keeps (Awaited x) (clear_alarm o)
  unfolding clear_alarm
  clear_alarm-Awaited o other = record {
    at = λ s h. record {
      pending =
          All-map
            (λ e b.
              or_pending (excused x e.ptr) _ _
                (pending-del_alarm o (rreq_alarm e.ptr) s.alarms (other e.ptr)) b)
            s.rreq_queue h.pending;
      distinct = h.distinct;
      fresh = h.fresh;
    };
  }

  -- A new entry, with its alarm set first.
  entered :
      (e : RreqEntry) (delay : Timeval) (s : MshData)
      → e.ptr ≡ s.next_ptr
      → Awaited x s
      → Awaited x
          (after (do set_alarm (rreq_alarm e.ptr) delay; RreqFifo.list_add e) (after new_ptr s))
  unfolding set_alarm RreqFifo.list_add new_ptr ◌>>=◌
  entered e delay s new h = record {
    pending = (
      ground (arith, pending-set (rreq_alarm e.ptr) delay (s.clock 0) s.alarms),
      All-map
          (λ f b.
            or_pending (excused x f.ptr) _ _
              (pending-add_alarm (rreq_alarm e.ptr) (rreq_alarm f.ptr) delay (s.clock 0) s.alarms)
              b)
          s.rreq_queue h.pending,
    );
    distinct = (All-map (λ f b same. omega (arith, b, same, new)) s.rreq_queue h.fresh, h.distinct);
    fresh = (omega (arith, new), All-map (λ f b. omega (arith, b)) s.rreq_queue h.fresh);
  }

  pub push-Awaited : (rreq_id dst : ℕ) → Keeps (Awaited x) (rreq_fifo_push rreq_id dst)
  unfolding rreq_fifo_push new_ptr ◌>>=◌
  push-Awaited rreq_id dst = record { at = λ s h. entered _ _ s refl h }

  pub push_owned-Awaited :
      (rreq_id dst : ℕ) (n : ℤ) → Keeps (Awaited x) (rreq_fifo_push_owned rreq_id dst n)
  unfolding rreq_fifo_push_owned new_ptr ◌>>=◌
  push_owned-Awaited rreq_id dst n = record { at = λ s h. entered _ _ s refl h }

  pub update-Awaited :
      (p : ℕ) (f : RreqEntry → RreqEntry)
      → ((e : RreqEntry) → (f e).ptr ≡ e.ptr)
      → Keeps (Awaited x) (update_entry p f)
  unfolding update_entry
  update-Awaited p f same = record {
    at = λ s h. record {
      pending = All-map_entry p f (IsAwaited x s) (λ e b. rw (same e) b) s.rreq_queue h.pending;
      distinct = DistinctPtr-map_entry p f same s.rreq_queue h.distinct;
      fresh =
          All-map_entry p f (λ e. e.ptr < s.next_ptr) (λ e b. rw (same e) b) s.rreq_queue h.fresh;
    };
  }

  -- An entry leaves the queue with its alarm, and is excused no longer.
  pub delete-Awaited :
      (y : Option ℕ) (q : ℕ)
      → ((p : ℕ) → p ≢ q → excused x p ≡ true → excused y p ≡ true)
      → Leads (Awaited x) (λ _. Awaited y) (rreq_fifo_entry_delete q)
  unfolding rreq_fifo_entry_delete clear_alarm RreqFifo.list_del ◌>>=◌
  delete-Awaited y q excuse = record {
    ends = λ s h. record {
      pending =
          All-both
            (λ e other b.
              excuse_or (excused x e.ptr) (excused y e.ptr) _ _ (excuse e.ptr other)
                (pending-del_alarm (rreq_alarm q) (rreq_alarm e.ptr) s.alarms
                  (other_request q e.ptr other))
                b)
            _ (remove_entry-others q s.rreq_queue h.distinct)
            (All-remove_entry q (IsAwaited x s) s.rreq_queue h.pending);
      distinct = DistinctPtr-remove_entry q s.rreq_queue h.distinct;
      fresh = All-remove_entry q (λ e. e.ptr < s.next_ptr) s.rreq_queue h.fresh;
    };
  }
