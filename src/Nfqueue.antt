-- ===== src/Nfqueue.antt =====
-- meshias_daemon/nfqueue.c: the verdict on each packet that netfilter hands over. The headers are
-- parsed by libnetfilter_queue: a packet is what its accessors give. The functions that open and
-- close the queue, and that print a packet, are not modelled.
pub mod Verdicts
pub mod Headers
pub mod Wire
pub mod Fate
pub mod Print
use meshias.Base.{ℕ, ◌-◌, ◌==◌, Bool, false, not, Option, none, some, if◌then◌else◌, ℤ, pos}
use meshias.Word.{u32_mod, ntohl}
use meshias.State.{MshData, nf_accept, nfq_set_verdict}
use meshias.RoutingTable.{routing_table_update_route}
use meshias.PacketsFifo.{packets_fifo_push}
use meshias.RreqFifo.{rreq_fifo_waiting_response_for}
use meshias.Logic.Discovery.{aodv_find_route}
use meshias.Act.{Act, pure, gets, ◌>>=◌, ◌>>◌, choose, when}

abbrev pub nf_ip_local_in : ℕ
nf_ip_local_in = 1

abbrev pub nf_ip_forward : ℕ
nf_ip_forward = 2

abbrev pub nf_ip_local_out : ℕ
nf_ip_local_out = 3

abbrev pub aodv_udp_port : ℕ
aodv_udp_port = 654

abbrev pub ipproto_udp : ℕ
ipproto_udp = 17

-- `nfq_get_msg_packet_hdr`; the id is in network order.
pub record PacketHdr : Type 0 where
  pub packet_id : ℕ
  pub hook : ℕ

-- `nfq_get_iphdr`, by its accessors, which convert to host order.
pub record IpHdr : Type 0 where
  pub protocol : ℕ
  pub saddr : ℕ
  pub daddr : ℕ

-- `udp_dest` is `nfq_get_udp_dest` of `nfq_get_udphdr`; `uninit` is what an address variable that
-- is never assigned holds.
pub record NfqData : Type 0 where
  pub packet_hdr : Option PacketHdr
  pub iphdr : Option IpHdr
  pub udp_dest : Option ℕ
  pub uninit : ℕ

unfoldable pub nfqueue_packet_get_id : NfqData → ℕ
nfqueue_packet_get_id packet = elim packet.packet_hdr [
  | none ↦ u32_mod - 1
  | some header ↦ ntohl header.packet_id
]

unfoldable pub nfqueue_packet_get_hook : NfqData → ℕ
nfqueue_packet_get_hook packet = elim packet.packet_hdr [
  | none ↦ u32_mod - 1
  | some header ↦ header.hook
]

unfoldable pub nfqueue_packet_get_dest : NfqData → ℕ
nfqueue_packet_get_dest packet = elim packet.iphdr [
  | none ↦ packet.uninit
  | some header ↦ header.daddr
]

unfoldable pub nfqueue_packet_get_orig : NfqData → ℕ
nfqueue_packet_get_orig packet = elim packet.iphdr [
  | none ↦ packet.uninit
  | some header ↦ header.saddr
]

abbrev is_aodv_port : Option ℕ → Bool
is_aodv_port none = false
is_aodv_port (some port) = port == aodv_udp_port

unfoldable pub nfqueue_packet_is_aodv : NfqData → Bool
nfqueue_packet_is_aodv packet = elim packet.iphdr [
  | none ↦ false
  | some header ↦ if header.protocol == ipproto_udp then is_aodv_port packet.udp_dest else false
]

-- Each `manage_` function gives the number that netfilter is answered with: the result of
-- `nfq_set_verdict`, or 1 and 0 where no verdict is set.
unfoldable pub accept : NfqData → Act MshData ℤ
unfolding nfqueue_packet_get_id
accept packet = nfq_set_verdict (nfqueue_packet_get_id packet) nf_accept

-- No route is known: hold the packet back, and search unless a search is on.
unfoldable pub hold : ℕ → ℕ → Act MshData ℤ
hold id dest = do
  packets_fifo_push id dest
  waiting ← gets (λ s. rreq_fifo_waiting_response_for s.rreq_queue dest)
  when (not waiting) (aodv_find_route dest none 0)
  pure (pos 1)

unfoldable pub manage_output_packet : NfqData → Act MshData ℤ
unfolding accept hold nfqueue_packet_get_dest nfqueue_packet_get_id
manage_output_packet packet = do
  let dest = nfqueue_packet_get_dest packet
  broadcast_addr ← gets (λ s. s.broadcast_addr)
  choose (dest == broadcast_addr) (accept packet) do
    known ← routing_table_update_route dest 0
    choose known (accept packet) (hold (nfqueue_packet_get_id packet) dest)

unfoldable pub manage_input_packet : NfqData → Act MshData ℤ
unfolding accept nfqueue_packet_get_dest nfqueue_packet_get_orig
manage_input_packet packet = do
  let dest = nfqueue_packet_get_dest packet
  broadcast_addr ← gets (λ s. s.broadcast_addr)
  choose (dest == broadcast_addr) (accept packet) do
    known ← routing_table_update_route dest (nfqueue_packet_get_orig packet)
    choose known (accept packet) (pure (pos 0))

unfoldable pub manage_forward_packet : NfqData → Act MshData ℤ
unfolding accept nfqueue_packet_get_dest nfqueue_packet_get_orig
manage_forward_packet packet = do
  let dest = nfqueue_packet_get_dest packet
  broadcast_addr ← gets (λ s. s.broadcast_addr)
  choose (dest == broadcast_addr) (accept packet) do
    known ← routing_table_update_route dest (nfqueue_packet_get_orig packet)
    choose known (accept packet) (accept packet)

unfoldable pub manage_packet : NfqData → Act MshData ℤ
unfolding nfqueue_packet_is_aodv nfqueue_packet_get_hook
manage_packet packet = choose (nfqueue_packet_is_aodv packet) (accept packet) (
    choose (nfqueue_packet_get_hook packet == nf_ip_local_in) (manage_input_packet packet) (
      choose (nfqueue_packet_get_hook packet == nf_ip_forward) (manage_forward_packet packet) (
        choose (nfqueue_packet_get_hook packet == nf_ip_local_out) (manage_output_packet packet)
          (accept packet))))
