-- ===== src/Logic/Duplicates/Again.antt =====
-- A request is taken once: what a second one like it does.
use meshias.Base.{ℕ, ◌≡◌, refl, sym, ◌∙◌, ap, subst, Bool, true, false, List, arith}
use meshias.Route.Ops.{msh_route_get_lifetime}
use meshias.State.{MshData, RreqEntry, Statistics, new_ptr, set_alarm, gettimeofday, bump}
use meshias.RreqFifo
use meshias.RreqFifo.{rreq_fifo_contains, rreq_fifo_push}
use meshias.Packet.{AodvPkt, AodvRreq, get_rreq, aodv_pkt_get_address}
use meshias.Packet.Check.{send_bytes, aodv_pkt_send}
use meshias.Logic.Discovery.{count_rreq_sent}
use meshias.Logic.Reply.{
  renew_seq_num, reply_as_destination, build_replies, reply_as_intermediate, aodv_answer_to_rreq,
}
use meshias.Logic.Rreq.{
  renew_prev_hop, update_orig, add_orig, reverse_route, forward_rreq, process_new_rreq,
  aodv_process_rreq,
}
use meshias.Act.{Act, pure, gets, ◌>>=◌, choose, after}
use meshias.Act.Keeps.{Keeps, keeps_rules}
use meshias.Act.Leads.{Leads, Leads-bind, Keeps-Leads}
use meshias.Logic.Spreading.{messages, Silent-refl}
use meshias.Logic.Spreading.Preparing.{renew-Silent}
use meshias.Logic.Duplicates.{
  QueueIs, quiet, read_kept, write_kept, route_kept, lifetime_kept, next_hop_kept, add_kept,
  prev_hop_kept, process_rreq-seen,
}

-- Once the request is in the queue, the handler leaves the queue alone.
module _ (queue : List RreqEntry) where
  clock_kept : Keeps (QueueIs queue) gettimeofday
  unfolding gettimeofday
  clock_kept = quiet queue _ λ s. refl

  count_kept : (f : Statistics → Statistics) → Keeps (QueueIs queue) (bump f)
  unfolding bump
  count_kept f = quiet queue _ λ s. refl

  requests_kept : Keeps (QueueIs queue) count_rreq_sent
  unfolding count_rreq_sent
  requests_kept = quiet queue _ λ s. refl

  renew_kept : (n : ℕ) → Keeps (QueueIs queue) (renew_seq_num n)
  unfolding renew_seq_num
  renew_kept n = quiet queue _ λ s. refl

  bytes_kept : (pkt : AodvPkt) → Keeps (QueueIs queue) (send_bytes pkt)
  unfolding send_bytes
  bytes_kept pkt = quiet queue _ λ s. refl

  send_kept : (pkt : AodvPkt) → Keeps (QueueIs queue) (aodv_pkt_send pkt)
  unfolding aodv_pkt_send
  send_kept pkt = search (keeps_rules, bytes_kept, count_kept) depth 20

  left_kept : (p : ℕ) → Keeps (QueueIs queue) (msh_route_get_lifetime p)
  unfolding msh_route_get_lifetime
  left_kept p = search (keeps_rules, clock_kept, read_kept) depth 20

  update_kept :
      (ip : ℕ) (rreq : AodvRreq) (l p : ℕ) → Keeps (QueueIs queue) (update_orig ip rreq l p)
  unfolding update_orig
  update_kept ip rreq l p =
      search (keeps_rules, read_kept, left_kept, write_kept, next_hop_kept, lifetime_kept) depth 40

  orig_kept : (ip : ℕ) (rreq : AodvRreq) (l : ℕ) → Keeps (QueueIs queue) (add_orig ip rreq l)
  unfolding add_orig
  orig_kept ip rreq l =
      search (keeps_rules, route_kept, write_kept, next_hop_kept, lifetime_kept, add_kept) depth 40

  reverse_kept : (ip : ℕ) (rreq : AodvRreq) → Keeps (QueueIs queue) (reverse_route ip rreq)
  unfolding reverse_route
  reverse_kept ip rreq = search (keeps_rules, clock_kept, update_kept, orig_kept) depth 20

  own_kept : (rreq : AodvRreq) (ip : ℕ) → Keeps (QueueIs queue) (reply_as_destination rreq ip)
  unfolding reply_as_destination
  own_kept rreq ip = search (keeps_rules, renew_kept, send_kept) depth 20

  build_kept : (rreq : AodvRreq) (p q : ℕ) → Keeps (QueueIs queue) (build_replies rreq p q)
  unfolding build_replies
  build_kept rreq p q = search (keeps_rules, read_kept, clock_kept, left_kept) depth 40

  answer_kept : (rreq : AodvRreq) (ip p : ℕ) → Keeps (QueueIs queue) (aodv_answer_to_rreq rreq ip p)
  unfolding aodv_answer_to_rreq reply_as_intermediate
  answer_kept rreq ip p = search (keeps_rules, own_kept, write_kept, read_kept, build_kept) depth 40

  forward_kept : (pkt : AodvPkt) (rreq : AodvRreq) → Keeps (QueueIs queue) (forward_rreq pkt rreq)
  unfolding forward_rreq
  forward_kept pkt rreq = search (keeps_rules, read_kept, requests_kept, send_kept) depth 40

module _ (rreq_id dst : ℕ) where
  -- The request is in the queue.
  abbrev Seen : MshData → Type 0
  Seen s = rreq_fifo_contains s.rreq_queue rreq_id dst ≡ true

  kept-Seen :
      {A : Type 0} (m : Act MshData A) → ((q : List RreqEntry) → Keeps (QueueIs q) m) → Keeps Seen m
  kept-Seen m kept = record {
    at = λ s h. ap (λ q. rreq_fifo_contains q rreq_id dst) ((kept s.rreq_queue).at s refl) ∙ h;
  }

push-Seen :
    (rreq_id dst : ℕ) (s : MshData)
    → rreq_fifo_contains (after (rreq_fifo_push rreq_id dst) s).rreq_queue rreq_id dst ≡ true
unfolding rreq_fifo_push new_ptr set_alarm RreqFifo.list_add rreq_fifo_contains ◌>>=◌
push-Seen rreq_id dst s = ground arith

new-Seen :
    (pkt : AodvPkt) (prev_hop : ℕ) (rreq : AodvRreq)
    → Leads
        (λ _. Unit {0})
        (λ _. Seen rreq.rreq_id rreq.dest_ip_addr)
        (process_new_rreq pkt prev_hop rreq)
unfolding process_new_rreq
new-Seen pkt prev_hop rreq =
    Leads-bind _ _ (record { ends = λ s _. push-Seen rreq.rreq_id rreq.dest_ip_addr s })
      λ _. Keeps-Leads _ (
        kept-Seen rreq.rreq_id rreq.dest_ip_addr _
          λ q. search (keeps_rules, reverse_kept, answer_kept, forward_kept) depth 30)

choose-Seen :
    (b : Bool) (m : Act MshData Unit) (s : MshData) (P : MshData → Type 0)
    → (b ≡ true → P s)
    → P (after m s)
    → P (after (choose b (pure tt) m) s)
unfolding choose pure
choose-Seen true m s P known new = known refl
choose-Seen false m s P known new = new

first-Seen :
    (pkt : AodvPkt) (s : MshData)
    → let rreq = get_rreq pkt.payload in
      Seen rreq.rreq_id rreq.dest_ip_addr (after (aodv_process_rreq pkt) s)
unfolding aodv_process_rreq gets ◌>>=◌
first-Seen pkt s =
    let rreq = get_rreq pkt.payload in
    let prev_hop = aodv_pkt_get_address pkt in
    let t = after (renew_prev_hop prev_hop) s in
    choose-Seen _ _ t (Seen rreq.rreq_id rreq.dest_ip_addr) (λ h. h)
      ((new-Seen pkt prev_hop rreq).ends t tt)

-- A request is taken once. After a request, whether that was new or not, a second one with the same
-- identifier and destination, from whatever neighbour and originator, sends no message, makes no entry and
-- leaves the sequence number of this node alone.
pub process_rreq-again :
    (first again : AodvPkt) (s : MshData)
    → (get_rreq again.payload).rreq_id ≡ (get_rreq first.payload).rreq_id
    → (get_rreq again.payload).dest_ip_addr ≡ (get_rreq first.payload).dest_ip_addr
    → let t = after (aodv_process_rreq first) s in
      let u = after (aodv_process_rreq again) t in
      (messages u.trace ≡ messages t.trace)
      × (u.rreq_queue ≡ t.rreq_queue)
      × (u.seq_num ≡ t.seq_num)
process_rreq-again first again s same_id same_dest =
    let t = after (aodv_process_rreq first) s in
    let prev_hop = aodv_pkt_get_address again in
    let seen : rreq_fifo_contains t.rreq_queue (get_rreq again.payload).rreq_id
          (get_rreq again.payload).dest_ip_addr
        ≡ true =
      rw (same_id, same_dest) (first-Seen first s) in
    let renewed = after (renew_prev_hop prev_hop) t in
    let silent = (renew-Silent t prev_hop).at t (Silent-refl t) in
    subst
      (λ (u : MshData).
        (messages u.trace ≡ messages t.trace)
        × (u.rreq_queue ≡ t.rreq_queue)
        × (u.seq_num ≡ t.seq_num))
      (sym (process_rreq-seen again t seen))
      (silent.sent, (prev_hop_kept t.rreq_queue prev_hop).at t refl, silent.seq_num)
