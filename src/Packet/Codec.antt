-- ===== src/Packet/Codec.antt =====
-- The structs of packet.h as bytes: what is written is read back, and a message that is built for
-- sending passes the receiver's check with the fields that it was built from.
use meshias.Base.{true, ℕ, ◌<◌, ◌≡◌, refl, arith, leb, length, get_or, List, some}
use meshias.Word.{u32_mod, byte, word}
use meshias.Word.Laws.{ntohl-htonl, htonl-lt}
use meshias.State.{MshData}
use meshias.Packet.{
  AodvPkt, AodvRreq, AodvRrep, aodv_rreq, aodv_rrep, get_rreq, put_rreq, get_rrep, put_rrep,
  rreq_to_host, rrep_to_host, aodv_pkt_prepare_rreq, aodv_pkt_prepare_rrep,
}
use meshias.Packet.Check.{aodv_pkt_check}
use meshias.Act.{pure, choose}

word-byte : (x : ℕ) → x < u32_mod → word (byte x 0) (byte x 1) (byte x 2) (byte x 3) ≡ x
word-byte x h = omega arith

-- The values that the fields of a request can hold.
pub record RreqFits (r : AodvRreq) : Type 0 where
  pub reserved2 : r.reserved2 < 8
  pub rreq_id : r.rreq_id < u32_mod
  pub dest_ip_addr : r.dest_ip_addr < u32_mod
  pub dest_seq_num : r.dest_seq_num < u32_mod
  pub orig_ip_addr : r.orig_ip_addr < u32_mod
  pub orig_seq_num : r.orig_seq_num < u32_mod

pub record RrepFits (r : AodvRrep) : Type 0 where
  pub reserved2 : r.reserved2 < 64
  pub prefix_sz : r.prefix_sz < 32
  pub dest_ip_addr : r.dest_ip_addr < u32_mod
  pub dest_seq_num : r.dest_seq_num < u32_mod
  pub orig_ip_addr : r.orig_ip_addr < u32_mod
  pub lifetime : r.lifetime < u32_mod

pub get_rreq-put_rreq : (r : AodvRreq) (mem : List ℕ) → RreqFits r → get_rreq (put_rreq r mem) ≡ r
unfolding get_rreq put_rreq
get_rreq-put_rreq r mem h = ground arith

pub get_rrep-put_rrep : (r : AodvRrep) (mem : List ℕ) → RrepFits r → get_rrep (put_rrep r mem) ≡ r
unfolding get_rrep put_rrep
get_rrep-put_rrep r mem h = ground arith

pub to_host-prepare_rreq : (r : AodvRreq) → RreqFits r → rreq_to_host (aodv_pkt_prepare_rreq r) ≡ r
unfolding rreq_to_host aodv_pkt_prepare_rreq
to_host-prepare_rreq r h = ground (
  arith,
  ntohl-htonl r.rreq_id,
  ntohl-htonl r.dest_ip_addr,
  ntohl-htonl r.dest_seq_num,
  ntohl-htonl r.orig_ip_addr,
  ntohl-htonl r.orig_seq_num,
)

pub to_host-prepare_rrep : (r : AodvRrep) → RrepFits r → rrep_to_host (aodv_pkt_prepare_rrep r) ≡ r
unfolding rrep_to_host aodv_pkt_prepare_rrep
to_host-prepare_rrep r h = ground (
  arith,
  ntohl-htonl r.dest_ip_addr,
  ntohl-htonl r.dest_seq_num,
  ntohl-htonl r.orig_ip_addr,
  ntohl-htonl r.lifetime,
)

prepare_rreq-RreqFits : (r : AodvRreq) → RreqFits r → RreqFits (aodv_pkt_prepare_rreq r)
unfolding aodv_pkt_prepare_rreq
prepare_rreq-RreqFits r h = record {
  reserved2 = h.reserved2;
  rreq_id = htonl-lt r.rreq_id;
  dest_ip_addr = htonl-lt r.dest_ip_addr;
  dest_seq_num = htonl-lt r.dest_seq_num;
  orig_ip_addr = htonl-lt r.orig_ip_addr;
  orig_seq_num = htonl-lt r.orig_seq_num;
}

prepare_rrep-RrepFits : (r : AodvRrep) → RrepFits r → RrepFits (aodv_pkt_prepare_rrep r)
unfolding aodv_pkt_prepare_rrep
prepare_rrep-RrepFits r h = record {
  reserved2 = h.reserved2;
  prefix_sz = h.prefix_sz;
  dest_ip_addr = htonl-lt r.dest_ip_addr;
  dest_seq_num = htonl-lt r.dest_seq_num;
  orig_ip_addr = htonl-lt r.orig_ip_addr;
  lifetime = htonl-lt r.lifetime;
}

type-put_rreq : (r : AodvRreq) (mem : List ℕ) (d : ℕ) → get_or (put_rreq r mem) 0 d ≡ r.type
unfolding put_rreq
type-put_rreq r mem d = refl

type-put_rrep : (r : AodvRrep) (mem : List ℕ) (d : ℕ) → get_or (put_rrep r mem) 0 d ≡ r.type
unfolding put_rrep
type-put_rrep r mem d = refl

room-put_rreq : (r : AodvRreq) (mem : List ℕ) → leb 24 (length (put_rreq r mem)) ≡ true
unfolding put_rreq
room-put_rreq r mem = ground arith

room-put_rrep : (r : AodvRrep) (mem : List ℕ) → leb 20 (length (put_rrep r mem)) ≡ true
unfolding put_rrep
room-put_rrep r mem = ground arith

put_rreq-put_rreq : (r q : AodvRreq) (mem : List ℕ) → put_rreq r (put_rreq q mem) ≡ put_rreq r mem
unfolding put_rreq
put_rreq-put_rreq r q mem = refl

put_rrep-put_rrep : (r q : AodvRrep) (mem : List ℕ) → put_rrep r (put_rrep q mem) ≡ put_rrep r mem
unfolding put_rrep
put_rrep-put_rrep r q mem = refl

check-put_rreq :
    (r : AodvRreq) (mem : List ℕ) (pkt : AodvPkt) (s : MshData)
    → r.type ≡ aodv_rreq
    → aodv_pkt_check (record pkt { payload = put_rreq r mem }) s ≡ (
      some (record pkt {
        payload = put_rreq (rreq_to_host (get_rreq (put_rreq r mem))) (put_rreq r mem);
      }),
      s,
    )
unfolding aodv_pkt_check choose pure
check-put_rreq r mem pkt s t = simp (type-put_rreq, room-put_rreq, t)

check-put_rrep :
    (r : AodvRrep) (mem : List ℕ) (pkt : AodvPkt) (s : MshData)
    → r.type ≡ aodv_rrep
    → aodv_pkt_check (record pkt { payload = put_rrep r mem }) s ≡ (
      some (record pkt {
        payload = put_rrep (rrep_to_host (get_rrep (put_rrep r mem))) (put_rrep r mem);
      }),
      s,
    )
unfolding aodv_pkt_check choose pure
check-put_rrep r mem pkt s t = simp (type-put_rrep, room-put_rrep, t)

-- A request of type RREQ, whose fields fit their widths, arrives as it was prepared for sending: the
-- receiver's check accepts the bytes, counts no error, and leaves the request in host order at the front of the payload.
pub check-prepared_rreq :
    (r : AodvRreq) (mem : List ℕ) (pkt : AodvPkt) (s : MshData)
    → r.type ≡ aodv_rreq
    → RreqFits r
    → aodv_pkt_check (record pkt { payload = put_rreq (aodv_pkt_prepare_rreq r) mem }) s
      ≡ (some (record pkt { payload = put_rreq r mem }), s)
check-prepared_rreq r mem pkt s t h = rw (
  check-put_rreq (aodv_pkt_prepare_rreq r) mem pkt s (unfold aodv_pkt_prepare_rreq in t),
  get_rreq-put_rreq (aodv_pkt_prepare_rreq r) mem (prepare_rreq-RreqFits r h),
  to_host-prepare_rreq r h,
  put_rreq-put_rreq r (aodv_pkt_prepare_rreq r) mem,
)

-- A reply of type RREP, whose fields fit their widths, arrives as it was prepared for sending: the
-- receiver's check accepts the bytes, counts no error, and leaves the reply in host order at the front
-- of the payload.
pub check-prepared_rrep :
    (r : AodvRrep) (mem : List ℕ) (pkt : AodvPkt) (s : MshData)
    → r.type ≡ aodv_rrep
    → RrepFits r
    → aodv_pkt_check (record pkt { payload = put_rrep (aodv_pkt_prepare_rrep r) mem }) s
      ≡ (some (record pkt { payload = put_rrep r mem }), s)
check-prepared_rrep r mem pkt s t h = rw (
  check-put_rrep (aodv_pkt_prepare_rrep r) mem pkt s (unfold aodv_pkt_prepare_rrep in t),
  get_rrep-put_rrep (aodv_pkt_prepare_rrep r) mem (prepare_rrep-RrepFits r h),
  to_host-prepare_rrep r h,
  put_rrep-put_rrep r (aodv_pkt_prepare_rrep r) mem,
)
