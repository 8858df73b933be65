-- ===== src/Nfqueue/Headers.antt =====
-- libnetfilter_queue/libnetfilter_queue_headers.c: the IP, TCP and UDP headers of a captured packet.
-- The code casts the payload to packed-looking structs whose fields stand at their natural offsets;
-- the host is little endian and allots bit fields from the lowest bit on.
use meshias.Base.{ℕ, ◌+◌, ◌*◌, ◌/◌, ◌%◌, Option, none, some}
use meshias.Word.{word, byte, ntohl}
use meshias.Nfqueue.{PacketHdr, NfqData}

-- Memory from some byte on, as a pointer into the payload gives it.
abbrev pub Memory : Type 0
Memory = ℕ → ℕ

abbrev pub at_offset : Memory → ℕ → Memory
at_offset bytes n i = bytes (n + i)

-- 16-bit and 32-bit loads, and the swap of a 16-bit word.
abbrev pub load16 : Memory → ℕ → ℕ
load16 bytes i = bytes i + 256 * bytes (i + 1)

abbrev pub load32_at : Memory → ℕ → ℕ
load32_at bytes i = word (bytes i) (bytes (i + 1)) (bytes (i + 2)) (bytes (i + 3))

unfoldable pub ntohs : ℕ → ℕ
ntohs x = byte x 1 + 256 * byte x 0

-- `struct nfq_iphdr`; `version` is declared first, so it has the low bits.
pub record NfqIphdr : Type 0 where
  pub version : ℕ
  pub ihl : ℕ
  pub tos : ℕ
  pub tot_len : ℕ
  pub id : ℕ
  pub frag_off : ℕ
  pub ttl : ℕ
  pub protocol : ℕ
  pub check : ℕ
  pub saddr : ℕ
  pub daddr : ℕ

abbrev pub sizeof_nfq_iphdr : ℕ
sizeof_nfq_iphdr = 20

-- `struct nfq_tcphdr`, without its flag bits, which no function reads.
pub record NfqTcphdr : Type 0 where
  pub source : ℕ
  pub dest : ℕ
  pub seq : ℕ
  pub ack_seq : ℕ
  pub window : ℕ
  pub check : ℕ
  pub urg_ptr : ℕ

-- `struct nfq_udphdr`
pub record NfqUdphdr : Type 0 where
  pub source : ℕ
  pub dest : ℕ
  pub len : ℕ
  pub check : ℕ

unfoldable pub iphdr_at : Memory → NfqIphdr
iphdr_at bytes = record {
  version = bytes 0 % 16;
  ihl = bytes 0 / 16;
  tos = bytes 1;
  tot_len = load16 bytes 2;
  id = load16 bytes 4;
  frag_off = load16 bytes 6;
  ttl = bytes 8;
  protocol = bytes 9;
  check = load16 bytes 10;
  saddr = load32_at bytes 12;
  daddr = load32_at bytes 16;
}

unfoldable pub tcphdr_at : Memory → NfqTcphdr
tcphdr_at bytes = record {
  source = load16 bytes 0;
  dest = load16 bytes 2;
  seq = load32_at bytes 4;
  ack_seq = load32_at bytes 8;
  window = load16 bytes 14;
  check = load16 bytes 16;
  urg_ptr = load16 bytes 18;
}

unfoldable pub udphdr_at : Memory → NfqUdphdr
udphdr_at bytes = record {
  source = load16 bytes 0;
  dest = load16 bytes 2;
  len = load16 bytes 4;
  check = load16 bytes 6;
}

-- What the library gives of a captured packet: `nfq_get_msg_packet_hdr`, and `nfq_get_payload`,
-- none where it returns -1.
pub record Captured : Type 0 where
  pub packet_hdr : Option PacketHdr
  pub payload : Option Memory

unfoldable pub nfq_get_iphdr : Captured → Option NfqIphdr
unfolding iphdr_at
nfq_get_iphdr nfad = elim nfad.payload [ none ↦ none | some bytes ↦ some (iphdr_at bytes) ]

unfoldable pub nfq_get_ip_ihl : NfqIphdr → ℕ
nfq_get_ip_ihl hdr = hdr.ihl

unfoldable pub nfq_get_ip_version : NfqIphdr → ℕ
nfq_get_ip_version hdr = hdr.version

unfoldable pub nfq_get_ip_tos : NfqIphdr → ℕ
nfq_get_ip_tos hdr = hdr.tos

unfoldable pub nfq_get_ip_tot_len : NfqIphdr → ℕ
unfolding ntohs
nfq_get_ip_tot_len hdr = ntohs hdr.tot_len

unfoldable pub nfq_get_ip_id : NfqIphdr → ℕ
unfolding ntohs
nfq_get_ip_id hdr = ntohs hdr.id

unfoldable pub nfq_get_ip_fragoff : NfqIphdr → ℕ
unfolding ntohs
nfq_get_ip_fragoff hdr = ntohs hdr.frag_off

unfoldable pub nfq_get_ip_ttl : NfqIphdr → ℕ
nfq_get_ip_ttl hdr = hdr.ttl

unfoldable pub nfq_get_ip_protocol : NfqIphdr → ℕ
nfq_get_ip_protocol hdr = hdr.protocol

unfoldable pub nfq_get_ip_check : NfqIphdr → ℕ
unfolding ntohs
nfq_get_ip_check hdr = ntohs hdr.check

unfoldable pub nfq_get_ip_saddr : NfqIphdr → ℕ
nfq_get_ip_saddr hdr = ntohl hdr.saddr

unfoldable pub nfq_get_ip_daddr : NfqIphdr → ℕ
nfq_get_ip_daddr hdr = ntohl hdr.daddr

unfoldable pub nfq_get_tcphdr : Captured → Option NfqTcphdr
unfolding tcphdr_at
nfq_get_tcphdr nfad = elim nfad.payload [
  | none ↦ none
  | some bytes ↦ some (tcphdr_at (at_offset bytes sizeof_nfq_iphdr))
]

unfoldable pub nfq_get_tcp_source : NfqTcphdr → ℕ
unfolding ntohs
nfq_get_tcp_source hdr = ntohs hdr.source

unfoldable pub nfq_get_tcp_dest : NfqTcphdr → ℕ
unfolding ntohs
nfq_get_tcp_dest hdr = ntohs hdr.dest

unfoldable pub nfq_get_tcp_seq : NfqTcphdr → ℕ
nfq_get_tcp_seq hdr = ntohl hdr.seq

unfoldable pub nfq_get_tcp_ack_seq : NfqTcphdr → ℕ
nfq_get_tcp_ack_seq hdr = ntohl hdr.ack_seq

-- The code reads the source port here.
unfoldable pub nfq_get_tcp_flags : NfqTcphdr → ℕ
unfolding ntohs
nfq_get_tcp_flags hdr = ntohs hdr.source

unfoldable pub nfq_get_tcp_window : NfqTcphdr → ℕ
unfolding ntohs
nfq_get_tcp_window hdr = ntohs hdr.window

unfoldable pub nfq_get_tcp_check : NfqTcphdr → ℕ
unfolding ntohs
nfq_get_tcp_check hdr = ntohs hdr.check

unfoldable pub nfq_get_tcp_urg_ptr : NfqTcphdr → ℕ
unfolding ntohs
nfq_get_tcp_urg_ptr hdr = ntohs hdr.urg_ptr

unfoldable pub nfq_get_udphdr : Captured → Option NfqUdphdr
unfolding udphdr_at
nfq_get_udphdr nfad = elim nfad.payload [
  | none ↦ none
  | some bytes ↦ some (udphdr_at (at_offset bytes sizeof_nfq_iphdr))
]

unfoldable pub nfq_get_udp_source : NfqUdphdr → ℕ
unfolding ntohs
nfq_get_udp_source hdr = ntohs hdr.source

unfoldable pub nfq_get_udp_dest : NfqUdphdr → ℕ
unfolding ntohs
nfq_get_udp_dest hdr = ntohs hdr.dest

unfoldable pub nfq_get_udp_len : NfqUdphdr → ℕ
unfolding ntohs
nfq_get_udp_len hdr = ntohs hdr.len

unfoldable pub nfq_get_udp_check : NfqUdphdr → ℕ
unfolding ntohs
nfq_get_udp_check hdr = ntohs hdr.check

-- What the daemon reads of a captured packet; `uninit` is what a variable holds that is never set.
unfoldable pub nfq_data : Captured → ℕ → NfqData
unfolding nfq_get_iphdr nfq_get_udphdr nfq_get_ip_protocol nfq_get_ip_saddr nfq_get_ip_daddr
    nfq_get_udp_dest
nfq_data nfad uninit = record {
  packet_hdr = nfad.packet_hdr;
  iphdr = elim (nfq_get_iphdr nfad) [
    | none ↦ none
    | some hdr ↦ some (record {
      protocol = nfq_get_ip_protocol hdr;
      saddr = nfq_get_ip_saddr hdr;
      daddr = nfq_get_ip_daddr hdr;
    })
  ];
  udp_dest = elim (nfq_get_udphdr nfad) [ none ↦ none | some hdr ↦ some (nfq_get_udp_dest hdr) ];
  uninit = uninit;
}
