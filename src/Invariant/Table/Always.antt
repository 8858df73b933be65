-- ===== src/Invariant/Table/Always.antt =====
-- The routing table in every state that the daemon reaches.
use meshias.Base.{
  ℕ, ◌≤◌, ◌==◌, ◌≡◌, refl, ◌∙◌, ap, subst, arith, pos, false, some, List, [], ◌∷◌, ◌++◌,
}
use meshias.Route.{MshRoute}
use meshias.RoutingTable.{routing_table_find_by_ip}
use meshias.RoutingTable.Find.{first_to, find_by_ip-first_to}
use meshias.State.{MshData, RreqEntry}
use meshias.Packet.Check.{send_bytes}
use meshias.Logic.Discovery.{next_rreq, count_rreq_sent, update_entry}
use meshias.Logic.Reply.{renew_seq_num}
use meshias.Daemon.{Reach, reset_rreq_sent}
use meshias.Act.{Act}
use meshias.Act.Keeps.{Keeps}
use meshias.Invariant.Steps.{Steps}
use meshias.Invariant.Keys.{
  write-Same, emit-Same, bump-Same, clock-Same, alarm-Same, clear-Same, verdict-Same, hold-Same,
  push-Same, push_owned-Same, delete-Same, drop_packets-Same, plain,
}
use meshias.Invariant.Reach.{rreq_alarm-Keeps, message-Keeps, manage_packet-Keeps, Reach-Keeps}
use meshias.Invariant.Table.{NoneTo, DistinctTo, TableOk, unlink-TableOk}
use meshias.Invariant.Table.Entering.{
  still_TableOk, add_prev_hop-TableOk, create_prev_hop-TableOk, add_orig-TableOk,
  create_dest-TableOk,
}

pub untouched :
    {A : Type 0} (m : Act MshData A)
    → ((s : MshData) → (m s).1.routes ≡ s.routes)
    → ((s : MshData) → (m s).1.routing_table ≡ s.routing_table)
    → ((s : MshData) → s.next_ptr ≤ (m s).1.next_ptr)
    → Keeps TableOk m
untouched m heap table room = still_TableOk m λ start. plain start m heap table room

pub table-Steps : Steps TableOk
unfolding send_bytes next_rreq count_rreq_sent reset_rreq_sent renew_seq_num
table-Steps = record {
  write = λ p f k. still_TableOk _ λ start. write-Same start p f k;
  clock = still_TableOk _ clock-Same;
  kernel_del = λ n. still_TableOk _ λ start. emit-Same start _;
  kernel_gateway = λ n ip len. still_TableOk _ λ start. emit-Same start _;
  count = λ f _. still_TableOk _ λ start. bump-Same start f;
  alarm = λ o d. still_TableOk _ λ start. alarm-Same start o d;
  no_route_alarm = λ p. still_TableOk _ λ start. clear-Same start _;
  no_flush_alarm = still_TableOk _ λ start. clear-Same start _;
  remove = unlink-TableOk;
  send = λ pkt. untouched _ (λ s. refl) (λ s. refl) λ s. omega arith;
  request = untouched _ (λ s. refl) (λ s. refl) λ s. omega arith;
  request_count = untouched _ (λ s. refl) (λ s. refl) λ s. omega arith;
  request_reset = untouched _ (λ s. refl) (λ s. refl) λ s. omega arith;
  renew = λ n. untouched _ (λ s. refl) (λ s. refl) λ s. omega arith;
  push = λ id dst. still_TableOk _ λ start. push-Same start id dst;
  push_owned = λ id dst. still_TableOk _ λ start. push_owned-Same start id dst (pos 0);
  delete_entry = λ p. still_TableOk _ λ start. delete-Same start p;
  add_prev_hop = add_prev_hop-TableOk;
  add_orig = add_orig-TableOk;
  create_prev_hop = create_prev_hop-TableOk;
  create_dest = create_dest-TableOk;
}

pub entry_kept : (p : ℕ) (f : RreqEntry → RreqEntry) → Keeps TableOk (update_entry p f)
unfolding update_entry
entry_kept p f = untouched _ (λ s. refl) (λ s. refl) λ s. omega arith

-- In every state that the daemon reaches from one with a well-formed routing table, the table is
-- well-formed: all its routes are host routes, no two of them have the same destination, and each is
-- an allocated object.
pub Reach-TableOk : {s t : MshData} → Reach s t → TableOk s → TableOk t
Reach-TableOk =
    Reach-Keeps table-Steps
      (manage_packet-Keeps table-Steps (λ id v. still_TableOk _ λ start. verdict-Same start id v)
        λ id dest. still_TableOk _ λ start. hold-Same start id dest)
      (rreq_alarm-Keeps table-Steps (λ p. still_TableOk _ λ start. clear-Same start _) entry_kept
        λ dest. still_TableOk _ λ start. drop_packets-Same start dest)
      (message-Keeps table-Steps (still_TableOk _ λ start. bump-Same start _))

first_to-listed :
    (routes : ℕ → MshRoute) (before after : List ℕ) (p : ℕ)
    → DistinctTo routes (before ++ p ∷ after)
    → first_to routes (routes p).dst_ip (before ++ p ∷ after) ≡ some p
first_to-listed routes [] after p d = ground arith
first_to-listed routes (q ∷ before) after p d =
    rw (other (routes q).dst_ip before after d.0) (first_to-listed routes before after p d.1)
  where
    other :
        (ip : ℕ) (l after : List ℕ)
        → NoneTo routes ip (l ++ p ∷ after)
        → ((routes p).dst_ip == ip) ≡ false
    other ip [] after h = ground (arith, h.0)
    other ip (q ∷ l) after h = other ip l after h.1

-- In every state that the daemon reaches from one with a well-formed routing table, each route of the
-- table is the one that is found by its destination: no route hides another.
pub Reach-find :
    {s t : MshData} (run : Reach s t) (before after : List ℕ) (p : ℕ)
    → TableOk s
    → t.routing_table ≡ before ++ p ∷ after
    → routing_table_find_by_ip (t.routes p).dst_ip t ≡ some p
Reach-find {s} {t} run before after p ok listed =
    let final = Reach-TableOk run ok in
    find_by_ip-first_to (t.routes p).dst_ip t final.host
    ∙ ap (first_to t.routes (t.routes p).dst_ip) listed
    ∙ first_to-listed t.routes before after p (subst (DistinctTo t.routes) listed final.distinct)
