-- ===== src/Invariant/Types.antt =====
-- Only the four known types of message pass the check, so no message is counted as unknown.
use meshias.Base.{
  ℕ, suc, ◌==◌, ◌≡◌, refl, sym, ◌∙◌, Bool, true, false, Option, none, some, List, [], ◌∷◌, arith,
  inl, inr, ◌⊎◌, leb, Option-cases, get_or, length,
}
use meshias.Route.Ops.{unlink}
use meshias.State.{
  MshData, Verdict, PacketObj, Statistics, update_route, emit, new_ptr, new_route, nfq_set_verdict,
  bump, set_alarm, clear_alarm, gettimeofday,
}
use meshias.PacketsFifo.{packets_fifo_push, set_packets, count_dropped}
use meshias.RreqFifo
use meshias.RoutingTable
use meshias.RoutingTable.{add_to_kernel}
use meshias.Packet.{
  AodvPkt, aodv_rreq, aodv_rrep, aodv_rerr, aodv_rrep_ack, aodv_pkt_get_type, put_rreq, get_rreq,
  rreq_to_host, put_rrep, get_rrep, rrep_to_host, aodv_pkt_get_payload_len,
}
use meshias.Packet.Check.{
  Msghdr, send_bytes, aodv_pkt_check, check_rreq, check_rrep, check_rerr, check_rrep_ack,
}
use meshias.Logic.Discovery.{next_rreq, count_rreq_sent, update_entry}
use meshias.Logic.Reply.{renew_seq_num}
use meshias.Logic.Receive.{
  aodv_process_packet, process_checked, dispatch, aodv_process_rerr, aodv_process_rrep_ack,
}
use meshias.Daemon.{Reach, reset_rreq_sent}
use meshias.Act.{Act, pure, ◌>>=◌, ◌>>◌, choose, if_found}
use meshias.Act.Keeps.{Keeps, Keeps-bind, keeps_rules}
use meshias.Invariant.Steps.{Steps, Counts}
use meshias.Invariant.Basics.{
  Basics, Basics-Steps, Basics-Reach, process_route-Keeps, drop_packets-Keeps,
}
use meshias.Invariant.Messages.{get-Keeps, check-Keeps, rreq-Keeps, rrep-Keeps}
use meshias.Invariant.Reach.{manage_packet-Keeps}

abbrev pub IsKnown : ℕ → Type 0
IsKnown t = (t ≡ aodv_rreq) ⊎ ((t ≡ aodv_rrep) ⊎ ((t ≡ aodv_rerr) ⊎ (t ≡ aodv_rrep_ack)))

-- What a check lets through has a known type.
record Passes (m : Act MshData (Option AodvPkt)) : Type 0 where
  pub at : (s : MshData) (pkt : AodvPkt) → (m s).0 ≡ some pkt → IsKnown (aodv_pkt_get_type pkt)

Passes-choose :
    (b : Bool) (m n : Act MshData (Option AodvPkt))
    → (b ≡ true → Passes m)
    → (b ≡ false → Passes n)
    → Passes (choose b m n)
unfolding choose
Passes-choose true m n hm hn = hm refl
Passes-choose false m n hm hn = hn refl

Passes-none : Passes (pure none)
unfolding pure
Passes-none = record { at = λ s pkt h. cc }

Passes-some : (pkt : AodvPkt) → IsKnown (aodv_pkt_get_type pkt) → Passes (pure (some pkt))
unfolding pure
Passes-some pkt k = record { at = λ s q h. grind arith }

Passes-reject : (f : Statistics → Statistics) → Passes (bump f >> pure none)
unfolding bump ◌>>=◌ pure
Passes-reject f = record { at = λ s pkt h. cc }

first_byte :
    (mem : List ℕ) (n d : ℕ) → leb (suc n) (length mem) ≡ true → get_or mem 0 d ≡ get_or mem 0 0
first_byte [] n d h = ground arith
first_byte (x ∷ mem) n d h = refl

rreq-Passes : (pkt : AodvPkt) → aodv_pkt_get_type pkt ≡ aodv_rreq → Passes (check_rreq pkt)
unfolding check_rreq aodv_pkt_get_type aodv_pkt_get_payload_len put_rreq rreq_to_host get_rreq
rreq-Passes pkt t =
    Passes-choose _ _ _
      (λ long. Passes-some _ (inl (sym (first_byte pkt.payload 23 pkt.stray long) ∙ t)))
      (λ short. Passes-reject _)

rrep-Passes : (pkt : AodvPkt) → aodv_pkt_get_type pkt ≡ aodv_rrep → Passes (check_rrep pkt)
unfolding check_rrep aodv_pkt_get_type aodv_pkt_get_payload_len put_rrep rrep_to_host get_rrep
rrep-Passes pkt t =
    Passes-choose _ _ _
      (λ long. Passes-some _ (inr (inl (sym (first_byte pkt.payload 19 pkt.stray long) ∙ t))))
      (λ short. Passes-reject _)

rerr-Passes : (pkt : AodvPkt) → aodv_pkt_get_type pkt ≡ aodv_rerr → Passes (check_rerr pkt)
unfolding check_rerr
rerr-Passes pkt t =
    Passes-choose _ _ _
      (λ long.
        Passes-choose _ _ _ (λ zero_count. Passes-reject _)
          λ some_count.
            Passes-choose _ _ _ (λ fits. Passes-some _ (inr (inr (inl t)))) λ off. Passes-reject _)
      (λ short. Passes-reject _)

ack-Passes : (pkt : AodvPkt) → aodv_pkt_get_type pkt ≡ aodv_rrep_ack → Passes (check_rrep_ack pkt)
unfolding check_rrep_ack
ack-Passes pkt t =
    Passes-choose _ _ _ (λ long. Passes-some _ (inr (inr (inr t)))) (λ short. Passes-reject _)

eq_of : (a b : ℕ) → (a == b) ≡ true → a ≡ b
eq_of a b h = ground arith

check-Passes : (pkt : AodvPkt) → Passes (aodv_pkt_check pkt)
unfolding aodv_pkt_check
check-Passes pkt =
    Passes-choose _ _ _ (λ h. rreq-Passes pkt (eq_of _ _ h))
      λ _.
        Passes-choose _ _ _ (λ h. rrep-Passes pkt (eq_of _ _ h))
          λ _.
            Passes-choose _ _ _ (λ h. rerr-Passes pkt (eq_of _ _ h))
              λ _. Passes-choose _ _ _ (λ h. ack-Passes pkt (eq_of _ _ h)) λ _. Passes-none

module _ {P : MshData → Type 0} where
  Keeps-checked :
      (pkt : AodvPkt) (rest : AodvPkt → Act MshData Unit)
      → Keeps P (aodv_pkt_check pkt)
      → ((q : AodvPkt) → IsKnown (aodv_pkt_get_type q) → Keeps P (rest q))
      → Keeps P (aodv_pkt_check pkt >>= λ checked. if_found checked rest (pure tt))
  unfolding ◌>>=◌ if_found pure
  Keeps-checked pkt rest kept kept_rest = record {
    at = λ s h. elim (Option-cases (aodv_pkt_check pkt s).0) [
      | inl nothing ↦ rw nothing (kept.at s h)
      | inr (q, found) ↦
          rw found ((kept_rest q ((check-Passes pkt).at s q found)).at _ (kept.at s h))
    ];
  }

module _ (k : ℕ) where
  abbrev pub CountIs : MshData → Type 0
  CountIs s = s.stats.aodv_incorrect_type ≡ k

  same :
      {A : Type 0} (m : Act MshData A) → ((s : MshData) → (m s).1.stats ≡ s.stats) → Keeps CountIs m
  same m e = record { at = λ s h. rw e h }

  verdict_kept : (id : ℕ) (v : Verdict) → Keeps CountIs (nfq_set_verdict id v)
  unfolding nfq_set_verdict
  verdict_kept id v = same _ λ s. refl

  packets_kept : (queue : List PacketObj) → Keeps CountIs (set_packets queue)
  unfolding set_packets
  packets_kept queue = same _ λ s. refl

  push_kept : (id dest : ℕ) → Keeps CountIs (packets_fifo_push id dest)
  unfolding packets_fifo_push
  push_kept id dest = same _ λ s. refl

  bump_kept : (f : Statistics → Statistics) → Counts f → Keeps CountIs (bump f)
  unfolding bump
  bump_kept f kf = record { at = λ s h. kf.at s.stats ∙ h }

  dropped_kept : Keeps CountIs (bump count_dropped)
  dropped_kept = bump_kept _ (record { at = λ st. refl; fits = λ st h. ground (arith, h) })

  count-Basics : Basics CountIs
  unfolding update_route new_ptr new_route gettimeofday emit unlink set_alarm clear_alarm
      RoutingTable.list_add add_to_kernel send_bytes next_rreq count_rreq_sent reset_rreq_sent
      renew_seq_num RreqFifo.list_add RreqFifo.list_del update_entry
  count-Basics = record {
    write = λ p f. same _ λ s. refl;
    new_address = same _ λ s. refl;
    allocate = same _ λ s. refl;
    clock = same _ λ s. refl;
    kernel_del = λ n. same _ λ s. refl;
    kernel_gateway = λ n ip len. same _ λ s. refl;
    count = bump_kept;
    alarm = λ o d. same _ λ s. refl;
    no_alarm = λ o. same _ λ s. refl;
    remove = λ p. same _ λ s. refl;
    link = λ p. same _ λ s. refl;
    kernel = λ n r. same _ λ s. refl;
    send = λ pkt. same _ λ s. refl;
    request = same _ λ s. refl;
    request_count = same _ λ s. refl;
    request_reset = same _ λ s. refl;
    renew = λ n. same _ λ s. refl;
    process_route = process_route-Keeps verdict_kept dropped_kept packets_kept;
    drop_packets = drop_packets-Keeps verdict_kept dropped_kept packets_kept;
    entry_add = λ e. same _ λ s. refl;
    entry_del = λ p. same _ λ s. refl;
    entry = λ p f. same _ λ s. refl;
  }

  count-Steps : Steps CountIs
  count-Steps = Basics-Steps count-Basics

  dispatch_kept : (pkt : AodvPkt) → IsKnown (aodv_pkt_get_type pkt) → Keeps CountIs (dispatch pkt)
  unfolding dispatch choose aodv_process_rerr aodv_process_rrep_ack
  dispatch_kept pkt (inl t) = rw t (rreq-Keeps count-Steps pkt)
  dispatch_kept pkt (inr (inl t)) = rw t (rrep-Keeps count-Steps pkt)
  dispatch_kept pkt (inr (inr (inl t))) = rw t (search keeps_rules)
  dispatch_kept pkt (inr (inr (inr t))) = rw t (search keeps_rules)

  checked_kept :
      (pkt : AodvPkt) → IsKnown (aodv_pkt_get_type pkt) → Keeps CountIs (process_checked pkt)
  unfolding process_checked
  checked_kept pkt t = search (keeps_rules, dispatch_kept) depth 20

  message_kept : (msg : Msghdr) (n stray : ℕ) → Keeps CountIs (aodv_process_packet msg n stray)
  unfolding aodv_process_packet
  message_kept msg n stray =
      Keeps-bind _ _ (get-Keeps count-Steps msg n stray)
        λ pkt. Keeps-checked pkt process_checked (check-Keeps count-Steps pkt) checked_kept

-- Whatever arrives, the daemon never counts a message as one of unknown type.
pub Reach-no_incorrect_type :
    {s t : MshData} → Reach s t → t.stats.aodv_incorrect_type ≡ s.stats.aodv_incorrect_type
Reach-no_incorrect_type {s} run =
    Basics-Reach (count-Basics _)
      (manage_packet-Keeps (count-Steps _) (verdict_kept _) (push_kept _)) (message_kept _) run refl
