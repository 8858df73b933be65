-- ===== src/Logic/Retries/Expiry.antt =====
-- What the alarm of an entry does: one more request, or the end of the search.
use meshias.Base.{
  ℕ, pos, suc, ◌+◌, ◌==◌, ◌≡◌, refl, sym, subst, ap, ◌<◌, ◌∙◌, Bool, true, false, ltb_ℤ, Option,
  some, List, [], ◌∷◌, arith, ltb,
}
use meshias.Config.{rreq_retries}
use meshias.State.{MshData, RreqEntry, PacketObj, Verdict, clear_alarm, bump, nfq_set_verdict}
use meshias.PacketsFifo.{packets_fifo_drop_packets, count_dropped, set_packets}
use meshias.PacketsFifo.Laws.{unpicked, drop_packets_exact}
use meshias.RreqFifo
use meshias.RreqFifo.{remove_entry, rreq_fifo_push_owned, rreq_fifo_entry_delete}
use meshias.Logic.Discovery.{
  find_entry, map_entry, update_entry, give_up, try_again, rreq_fifo_alarm_cb,
}
use meshias.Act.{Act, gets, ◌>>=◌, choose, if_found, after}
use meshias.Act.Keeps.{Keeps}
use meshias.Act.Leads.{Leads, Leads-bind, Leads-after}
use meshias.Invariant.Basics.{drop_packets-Keeps}
use meshias.Logic.Retries.Search.{sent, Searching, update_kept, alarm_kept, find_lem}

-- The queue with another request identifier for the entry.
abbrev renamed : ℕ → ℕ → List RreqEntry → List RreqEntry
renamed p rreq_id = map_entry p (λ e. record e { rreq_id = rreq_id })

record Retried (old : List RreqEntry) (waiting : List PacketObj) (freed : ℕ → ℕ) (n p : ℕ)
    (s : MshData) : Type 0 where
  pub queue : s.rreq_queue ≡ renamed p s.rreq_id old
  pub packets : s.packets_queue ≡ waiting
  pub sent : sent s.trace ≡ n
  pub memory : s.freed_dst ≡ freed

module _ (old : List RreqEntry) (waiting : List PacketObj) (freed : ℕ → ℕ) (n : ℕ) where
  rename_lem :
      (p : ℕ)
      → Leads
          (Searching old waiting freed n)
          (λ _. Retried old waiting freed n p)
          do rreq_id ← gets (λ s. s.rreq_id); update_entry p (λ e. record e { rreq_id = rreq_id })
  unfolding update_entry gets ◌>>=◌
  rename_lem p = record {
    ends = λ s h. record {
      queue = ap (renamed p s.rreq_id) h.0;
      packets = h.1;
      sent = h.2;
      memory = h.3;
    };
  }

module _ (old : List RreqEntry) (waiting : List PacketObj) (freed : ℕ → ℕ) (n : ℕ) where
  try_again_lem :
      (e : RreqEntry) (k : ℕ)
      → Leads
          (Searching old waiting freed n)
          (λ _. Retried old waiting freed (suc n) e.ptr)
          (try_again e (suc k))
  unfolding try_again
  try_again_lem e k = Leads-after _ _ (update_kept old waiting freed n e.dst 0) λ _.
      Leads-after _ _ (alarm_kept old waiting freed n _ _) λ _.
        Leads-bind _ _ (find_lem old waiting freed n e.dst k)
          λ _. rename_lem old waiting freed (suc n) e.ptr

-- Giving up touches nothing but the entry, the packets and the counters.
module _ (queue : List RreqEntry) (n : ℕ) where
  abbrev Quiet : MshData → Type 0
  Quiet s = (s.rreq_queue ≡ queue) × (sent s.trace ≡ n)

  verdict_kept : (id : ℕ) (v : Verdict) → Keeps Quiet (nfq_set_verdict id v)
  unfolding nfq_set_verdict
  verdict_kept id v = record { at = λ s h. h }

  dropped_kept : Keeps Quiet (bump count_dropped)
  unfolding bump
  dropped_kept = record { at = λ s h. h }

  packets_kept : (packets : List PacketObj) → Keeps Quiet (set_packets packets)
  unfolding set_packets
  packets_kept packets = record { at = λ s h. h }

  drop_kept : (dest : ℕ) → Keeps Quiet (packets_fifo_drop_packets dest)
  drop_kept = drop_packets-Keeps verdict_kept dropped_kept packets_kept

pub record GivenUp (e : RreqEntry) (s t : MshData) : Type 0 where
  pub queue : t.rreq_queue ≡ remove_entry e.ptr s.rreq_queue
  pub packets : t.packets_queue ≡ unpicked (λ w. w.dest == s.freed_dst e.ptr) s.packets_queue
  pub sent : sent t.trace ≡ sent s.trace

give_up_lem : (e : RreqEntry) (s : MshData) → GivenUp e s (after (give_up e) s)
unfolding give_up rreq_fifo_entry_delete clear_alarm RreqFifo.list_del bump ◌>>=◌ gets
give_up_lem e s =
    let u = after (rreq_fifo_entry_delete e.ptr) s in
    let kept =
      (drop_kept (remove_entry e.ptr s.rreq_queue) (sent s.trace) (s.freed_dst e.ptr)).at u
        (refl, refl) in
    record { queue = kept.0; packets = (drop_packets_exact (s.freed_dst e.ptr) u).0; sent = kept.1 }

-- What changes an entry leaves the others alone.
module _ (p : ℕ) (f : RreqEntry → RreqEntry) (same : (e : RreqEntry) → (f e).ptr ≡ e.ptr) where
  find-map :
      (q : List RreqEntry) (e : RreqEntry)
      → find_entry p q ≡ some e
      → find_entry p (map_entry p f q) ≡ some (f e)
  unfolding find_entry map_entry
  find-map [] e h = cc
  find-map (x ∷ rest) e h = ground (arith, h, same x, find-map rest e)

  remove-map : (q : List RreqEntry) → remove_entry p (map_entry p f q) ≡ remove_entry p q
  unfolding remove_entry map_entry
  remove-map [] = refl
  remove-map (x ∷ rest) = ground (arith, same x, remove-map rest)

-- An entry for a request of this node that was sent `k` times again.
abbrev pub owned : (p rreq_id dst k : ℕ) → RreqEntry
owned p rreq_id dst k = record { ptr = p; rreq_id = rreq_id; dst = dst; prev_tries = pos k }

not_negative : (k : ℕ) → ltb_ℤ (pos k) (pos 0) ≡ false
not_negative k = ground arith

found_lem :
    (o : Option RreqEntry) (e : RreqEntry) (f : RreqEntry → Act MshData Unit) (m : Act MshData Unit)
    (s : MshData)
    → o ≡ some e
    → after (if_found o f m) s ≡ after (f e) s
unfolding if_found
found_lem o e f m s h = ap (λ x. after (if_found x f m) s) h

choose_no :
    (b : Bool) (m n : Act MshData Unit) (s : MshData)
    → b ≡ false
    → after (choose b m n) s ≡ after n s
unfolding choose
choose_no b m n s h = ap (λ x. after (choose x m n) s) h

choose_yes :
    (b : Bool) (m n : Act MshData Unit) (s : MshData)
    → b ≡ true
    → after (choose b m n) s ≡ after m s
unfolding choose
choose_yes b m n s h = ap (λ x. after (choose x m n) s) h

-- The queue with the tries of an entry counted up.
abbrev counted : ℕ → ℕ → List RreqEntry → List RreqEntry
counted p k = map_entry p (λ e. record e { prev_tries = pos k })

add_one : (k : ℕ) → k + 1 ≡ suc k
add_one k = omega arith

module _ (p rreq_id dst k : ℕ) where
  callback_lem :
      (s : MshData)
      → find_entry p s.rreq_queue ≡ some (owned p rreq_id dst k)
      → after (rreq_fifo_alarm_cb p) s
        ≡ after
            (choose
              (ltb rreq_retries (suc k))
              (give_up (owned p rreq_id dst k))
              (try_again (owned p rreq_id dst k) (suc k)))
            (record s { rreq_queue = counted p (suc k) s.rreq_queue })
  unfolding rreq_fifo_alarm_cb update_entry gets ◌>>=◌
  callback_lem s found =
      found_lem (find_entry p s.rreq_queue) (owned p rreq_id dst k) _ _ s found
      ∙ choose_no (ltb_ℤ (pos k) (pos 0)) _ _ s (not_negative k)
      ∙ ap
          (λ tries.
            after
              (choose (ltb rreq_retries tries) (give_up (owned p rreq_id dst k))
                (try_again (owned p rreq_id dst k) tries))
              (record s { rreq_queue = counted p tries s.rreq_queue }))
          (add_one k)

  pub record Again (s t : MshData) : Type 0 where
    pub entry : find_entry p t.rreq_queue ≡ some (owned p t.rreq_id dst (suc k))
    pub others : remove_entry p t.rreq_queue ≡ remove_entry p s.rreq_queue
    pub packets : t.packets_queue ≡ s.packets_queue
    pub memory : t.freed_dst ≡ s.freed_dst
    pub sent : sent t.trace ≡ suc (sent s.trace)

  pub again_lem :
      (s : MshData)
      → find_entry p s.rreq_queue ≡ some (owned p rreq_id dst k)
      → k < rreq_retries
      → Again s (after (rreq_fifo_alarm_cb p) s)
  again_lem s found more =
      let tried = record s { rreq_queue = counted p (suc k) s.rreq_queue } in
      let t = after (try_again (owned p rreq_id dst k) (suc k)) tried in
      let again =
        (try_again_lem tried.rreq_queue s.packets_queue s.freed_dst (sent s.trace)
            (owned p rreq_id dst k) k).ends
          tried (refl, refl, refl, refl) in
      subst (Again s)
        (sym (
          callback_lem s found
          ∙ choose_no (ltb rreq_retries (suc k)) (give_up (owned p rreq_id dst k)) _ tried
              (ground (arith, more))))
        (record {
          entry =
              ap (find_entry p) again.queue
              ∙ find-map p _ (λ e. refl) tried.rreq_queue _
                  (find-map p _ (λ e. refl) s.rreq_queue _ found);
          others =
              ap (remove_entry p) again.queue
              ∙ remove-map p _ (λ e. refl) tried.rreq_queue
              ∙ remove-map p _ (λ e. refl) s.rreq_queue;
          packets = again.packets;
          memory = again.memory;
          sent = again.sent;
        })

  pub last_lem :
      (s : MshData)
      → find_entry p s.rreq_queue ≡ some (owned p rreq_id dst k)
      → k ≡ rreq_retries
      → GivenUp (owned p rreq_id dst k) s (after (rreq_fifo_alarm_cb p) s)
  last_lem s found last =
      let tried = record s { rreq_queue = counted p (suc k) s.rreq_queue } in
      let given = give_up_lem (owned p rreq_id dst k) tried in
      subst (GivenUp (owned p rreq_id dst k) s)
        (sym (
          callback_lem s found
          ∙ choose_yes (ltb rreq_retries (suc k)) _ _ tried (ground (arith, last))))
        (record {
          queue = given.queue ∙ remove-map p _ (λ e. refl) s.rreq_queue;
          packets = given.packets;
          sent = given.sent;
        })
