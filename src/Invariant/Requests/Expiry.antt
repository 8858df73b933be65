-- ===== src/Invariant/Requests/Expiry.antt =====
-- The alarm of a request: when it has run out, the request is sent again and its alarm set again, or
-- the request is taken out.
use meshias.Base.{ℕ, ◌+◌, pos_part, ◌≡◌, refl, subst, ltb, ltb_ℤ, none, some, pos, arith, All-map}
use meshias.Time.{Timeval}
use meshias.Alarm.{rreq_alarm}
use meshias.Alarm.Pending.{pending-set, pending-add_alarm, pending-del_alarm}
use meshias.State.{MshData, RreqEntry, set_alarm, clear_alarm}
use meshias.PacketsFifo.{count_dropped}
use meshias.Logic.Discovery.{update_entry, give_up, try_again, rreq_fifo_alarm_cb, find_entry}
use meshias.Config.{rreq_retries}
use meshias.RreqFifo.{rreq_fifo_entry_delete}
use meshias.Act.{Act, gets, choose, ◌>>=◌, ◌>>◌, after}
use meshias.Act.Branch.{found-if}
use meshias.Act.Keeps.{Keeps, Keeps-bind, Keeps-gets, keeps_rules}
use meshias.Act.Leads.{Leads, Keeps-Leads, Leads-bind, Leads-after, Leads-choose}
use meshias.Invariant.Steps.{expiry}
use meshias.Invariant.Handlers.{update_route-Keeps}
use meshias.Invariant.Messages.{find_route-Keeps}
use meshias.Invariant.Requests.{Awaited, delete-Awaited, update-Awaited}
use meshias.Invariant.Requests.Queue.{All-both, find_entry-ptr, find_entry-none}
use meshias.Invariant.Requests.Handlers.{Awaited-Steps, drop_packets-Awaited, bump-Awaited}

clears : (p : ℕ) → Leads (Awaited none) (λ _. Awaited (some p)) (clear_alarm (rreq_alarm p))
unfolding clear_alarm
clears p = record {
  ends = λ s h. record {
    pending =
        All-map
          (λ e b. ground (arith, b, pending-del_alarm (rreq_alarm p) (rreq_alarm e.ptr) s.alarms))
          s.rreq_queue h.pending;
    distinct = h.distinct;
    fresh = h.fresh;
  };
}

sets :
    (p : ℕ) (delay : Timeval)
    → Leads (Awaited (some p)) (λ _. Awaited none) (set_alarm (rreq_alarm p) delay)
unfolding set_alarm
sets p delay = record {
  ends = λ s h. record {
    pending =
        All-map
          (λ e b. ground (
            arith,
            b,
            pending-set (rreq_alarm p) delay (s.clock 0) s.alarms,
            pending-add_alarm (rreq_alarm p) (rreq_alarm e.ptr) delay (s.clock 0) s.alarms,
          ))
          s.rreq_queue h.pending;
    distinct = h.distinct;
    fresh = h.fresh;
  };
}

taken_out : (p : ℕ) → Leads (Awaited (some p)) (λ _. Awaited none) (rreq_fifo_entry_delete p)
taken_out p = delete-Awaited (some p) none p λ q other e. ground (arith, other, e)

give_up-Awaited : (e : RreqEntry) → Leads (Awaited (some e.ptr)) (λ _. Awaited none) (give_up e)
unfolding give_up
give_up-Awaited e = Leads-bind _ _ (taken_out e.ptr) λ _. Keeps-Leads _ (
    Keeps-bind _ _ (Keeps-gets _)
      λ dst. Keeps-bind _ _ (drop_packets-Awaited none dst) λ _. bump-Awaited none count_dropped)

try_again-Awaited :
    (e : RreqEntry) (n : ℕ) → Leads (Awaited (some e.ptr)) (λ _. Awaited none) (try_again e n)
unfolding try_again
try_again-Awaited e n =
    Leads-after _ _ (update_route-Keeps (Awaited-Steps (some e.ptr)) e.dst 0) λ _.
      Leads-bind _ _ (sets e.ptr _) λ _.
        Leads-after _ _ (find_route-Keeps (Awaited-Steps none) e.dst none n) λ _.
          Leads-after _ _ (search keeps_rules)
            λ rreq_id. Keeps-Leads _ (update-Awaited none e.ptr _ λ f. refl)

-- No entry is excused that is not there.
absent :
    (p : ℕ) (s : MshData) → find_entry p s.rreq_queue ≡ none → Awaited (some p) s → Awaited none s
absent p s missing h = record {
  pending =
      All-both (λ e other b. ground (arith, other, b)) s.rreq_queue
        (find_entry-none p s.rreq_queue missing) h.pending;
  distinct = h.distinct;
  fresh = h.fresh;
}

-- What the callback does with the entry.
abbrev retry : RreqEntry → ℕ → Act MshData Unit
retry e p = choose (ltb_ℤ e.prev_tries (pos 0)) (rreq_fifo_entry_delete p) do
  let tries = pos_part e.prev_tries + 1
  update_entry p (λ f. record f { prev_tries = pos tries })
  choose (ltb rreq_retries tries) (give_up e) (try_again e tries)

retry-Awaited : (e : RreqEntry) → Leads (Awaited (some e.ptr)) (λ _. Awaited none) (retry e e.ptr)
retry-Awaited e = Leads-choose _ _ _ (taken_out e.ptr) (
    Leads-after _ _ (update-Awaited (some e.ptr) e.ptr _ λ f. refl)
      λ _. Leads-choose _ _ _ (give_up-Awaited e) (try_again-Awaited e _))

callback : (p : ℕ) → Leads (Awaited (some p)) (λ _. Awaited none) (rreq_fifo_alarm_cb p)
unfolding rreq_fifo_alarm_cb gets ◌>>=◌
callback p = record {
  ends = λ s h.
      found-if (find_entry p s.rreq_queue) _ _ s (Awaited none)
        (λ e found.
          subst (λ q. Awaited (some q) s → Awaited none (after (retry e q) s))
            (find_entry-ptr p e s.rreq_queue found) ((retry-Awaited e).ends s) h)
        λ missing. absent p s missing h;
}

pub expiry-Awaited : (p : ℕ) → Keeps (Awaited none) (expiry p)
expiry-Awaited p = record { at = (Leads-bind _ _ (clears p) λ _. callback p).ends }
