-- ===== src/Packet/Check.antt =====
-- Receiving, checking and sending of meshias_daemon/aodv/packet.c.
use meshias.Base.{
  ℕ, ◌+◌, ◌*◌, ◌==◌, leb, ◌&&◌, not, Option, none, some, List, [], ◌∷◌, if◌then◌else◌, ℤ, pos,
  negsuc, eqb_ℤ, get_or, take,
}
use meshias.Word.{u8, u32, htonl}
use meshias.State.{MshData, Statistics, sendto, bump}
use meshias.Packet.{
  AodvPkt, aodv_rreq, aodv_rrep, aodv_rerr, aodv_rrep_ack, sizeof_rreq, sizeof_rrep,
  sizeof_unrecheable_dest, sizeof_rrep_ack, get_rreq, put_rreq, get_rrep, put_rrep, rreq_to_host,
  rrep_to_host, aodv_pkt_get_type, aodv_pkt_get_payload_len,
}
use meshias.Act.{Act, pure, ◌>>=◌, ◌>>◌, choose, when}

-- A control message, and what `recvmsg` fills in: `msg_iov` is the first buffer.
pub record Cmsghdr : Type 0 where
  pub cmsg_level : ℕ
  pub cmsg_type : ℕ
  pub first_byte : ℕ

pub record Msghdr : Type 0 where
  pub msg_namelen : ℕ
  pub msg_name : ℕ
  pub msg_iovlen : ℕ
  pub iov_base : List ℕ
  pub msg_controllen : ℕ
  pub msg_control : List Cmsghdr

abbrev pub sol_ip : ℕ
sol_ip = 0

abbrev pub ip_ttl : ℕ
ip_ttl = 2

-- The loop of `aodv_pkt_receive_ttl`; `-1` as a `uint8_t` is 255.
unfoldable pub aodv_pkt_receive_ttl : List Cmsghdr → ℕ
aodv_pkt_receive_ttl [] = 255
aodv_pkt_receive_ttl (cmsg ∷ rest) =
    if cmsg.cmsg_level == sol_ip && cmsg.cmsg_type == ip_ttl
    then u8 cmsg.first_byte
    else aodv_pkt_receive_ttl rest

abbrev pub count_no_address : Statistics → Statistics
count_no_address s = record s { no_address_received = u32 (s.no_address_received + 1) }

abbrev pub count_no_payload : Statistics → Statistics
count_no_payload s = record s { no_payload_received = u32 (s.no_payload_received + 1) }

abbrev pub count_no_ttl : Statistics → Statistics
count_no_ttl s = record s { no_ttl_received = u32 (s.no_ttl_received + 1) }

abbrev pub count_rreq_size : Statistics → Statistics
count_rreq_size s = record s { rreq_incorrect_size = u32 (s.rreq_incorrect_size + 1) }

abbrev pub count_rrep_size : Statistics → Statistics
count_rrep_size s = record s { rrep_incorrect_size = u32 (s.rrep_incorrect_size + 1) }

abbrev pub count_rerr_size : Statistics → Statistics
count_rerr_size s = record s { rerr_incorrect_size = u32 (s.rerr_incorrect_size + 1) }

abbrev pub count_rerr_zero : Statistics → Statistics
count_rerr_zero s = record s { rerr_dest_cont_zero = u32 (s.rerr_dest_cont_zero + 1) }

abbrev pub count_rrep_ack_size : Statistics → Statistics
count_rrep_ack_size s = record s { rrep_ack_incorrect_size = u32 (s.rrep_ack_incorrect_size + 1) }

abbrev pub count_send_error : Statistics → Statistics
count_send_error s = record s { send_aodv_errors = u32 (s.send_aodv_errors + 1) }

abbrev pub count_incomplete : Statistics → Statistics
count_incomplete s = record s { send_aodv_incomplete = u32 (s.send_aodv_incomplete + 1) }

-- `stray` is the byte behind the received ones.
unfoldable pub aodv_pkt_get : Msghdr → ℕ → ℕ → Act MshData AodvPkt
unfolding aodv_pkt_receive_ttl
aodv_pkt_get msg received stray = do
  when (msg.msg_namelen == 0) (bump count_no_address)
  when (msg.msg_iovlen == 0) (bump count_no_payload)
  when (msg.msg_controllen == 0) (bump count_no_ttl)
  pure (record {
    payload = if msg.msg_iovlen == 0 then [] else take received msg.iov_base;
    address = if msg.msg_namelen == 0 then 0 else msg.msg_name;
    ttl = if msg.msg_controllen == 0 then 0 else aodv_pkt_receive_ttl msg.msg_control;
    stray = stray;
  })

abbrev reject : (Statistics → Statistics) → Act MshData (Option AodvPkt)
reject count = do bump count; pure none

unfoldable pub check_rreq : AodvPkt → Act MshData (Option AodvPkt)
unfolding aodv_pkt_get_payload_len
check_rreq pkt =
    choose (leb sizeof_rreq (aodv_pkt_get_payload_len pkt))
      (pure (
        some (record pkt { payload = put_rreq (rreq_to_host (get_rreq pkt.payload)) pkt.payload })))
      (reject count_rreq_size)

unfoldable pub check_rrep : AodvPkt → Act MshData (Option AodvPkt)
unfolding aodv_pkt_get_payload_len
check_rrep pkt =
    choose (leb sizeof_rrep (aodv_pkt_get_payload_len pkt))
      (pure (
        some (record pkt { payload = put_rrep (rrep_to_host (get_rrep pkt.payload)) pkt.payload })))
      (reject count_rrep_size)

-- `rerr->dest_count` is the fourth byte.
unfoldable pub check_rerr : AodvPkt → Act MshData (Option AodvPkt)
unfolding aodv_pkt_get_payload_len
check_rerr pkt =
    choose (leb (4 + sizeof_unrecheable_dest) (aodv_pkt_get_payload_len pkt))
      (choose (get_or pkt.payload 3 0 == 0) (reject count_rerr_zero) (
        choose
          (aodv_pkt_get_payload_len pkt == 4 + sizeof_unrecheable_dest * get_or pkt.payload 3 0)
          (pure (some pkt)) (reject count_rerr_size)))
      (reject count_rerr_size)

unfoldable pub check_rrep_ack : AodvPkt → Act MshData (Option AodvPkt)
unfolding aodv_pkt_get_payload_len
check_rrep_ack pkt =
    choose (leb sizeof_rrep_ack (aodv_pkt_get_payload_len pkt)) (pure (some pkt))
      (reject count_rrep_ack_size)

-- `aodv_pkt_check`: none where it returns 0, and else the packet with its fields in host order.
unfoldable pub aodv_pkt_check : AodvPkt → Act MshData (Option AodvPkt)
unfolding aodv_pkt_get_type check_rreq check_rrep check_rerr check_rrep_ack
aodv_pkt_check pkt = choose (aodv_pkt_get_type pkt == aodv_rreq) (check_rreq pkt) (
    choose (aodv_pkt_get_type pkt == aodv_rrep) (check_rrep pkt) (
      choose (aodv_pkt_get_type pkt == aodv_rerr) (check_rerr pkt)
        (choose (aodv_pkt_get_type pkt == aodv_rrep_ack) (check_rrep_ack pkt) (pure none))))

-- `sendto`
unfoldable pub send_bytes : AodvPkt → Act MshData ℤ
send_bytes pkt s = (
  s.send_results 0,
  record s {
    trace = sendto pkt.ttl pkt.address pkt.payload ∷ s.trace;
    send_results = λ n. s.send_results (n + 1);
  },
)

-- The byte count of `sendto`, and the packet, whose address is swapped once more.
unfoldable pub aodv_pkt_send : AodvPkt → Act MshData (ℤ × AodvPkt)
unfolding send_bytes
aodv_pkt_send pkt = do
  numbytes ← send_bytes pkt
  choose (eqb_ℤ numbytes (negsuc 0)) (bump count_send_error)
      (when (not (eqb_ℤ numbytes (pos (aodv_pkt_get_payload_len pkt)))) (bump count_incomplete))
  pure (numbytes, record pkt { address = htonl pkt.address })
