-- ===== src/Nfqueue/Wire.antt =====
-- Captured packets as RFC 791 and RFC 768 lay them out, and what the accessors read off them.
use meshias.Base.{
  ℕ, ◌+◌, ◌*◌, ◌<◌, ◌≡◌, ◌==◌, Bool, false, if◌then◌else◌, arith, Option, some, List, [], ◌∷◌, ◌++◌,
  get_or,
}
use meshias.Word.{u32_mod, word, byte, ntohl}
use meshias.Nfqueue.{
  PacketHdr, nfqueue_packet_is_aodv, ipproto_udp, aodv_udp_port, nfqueue_packet_get_dest,
  nfqueue_packet_get_orig,
}
use meshias.Nfqueue.Headers.{
  Memory, Captured, iphdr_at, nfq_get_ip_version, nfq_get_ip_ihl, nfq_data, nfq_get_iphdr,
  nfq_get_udphdr, nfq_get_ip_saddr, nfq_get_ip_daddr, nfq_get_udp_dest, udphdr_at,
  nfq_get_ip_protocol, ntohs,
}

-- An IPv4 header of `ihl` words, whose `options` have four bytes for each word beyond the fifth, and
-- the ports of the transport header behind it.
pub record Datagram : Type 0 where
  pub ihl : ℕ
  pub tos : ℕ
  pub ttl : ℕ
  pub protocol : ℕ
  pub saddr : ℕ
  pub daddr : ℕ
  pub options : List ℕ
  pub source_port : ℕ
  pub dest_port : ℕ
  pub rest : List ℕ

pub record Fits (d : Datagram) : Type 0 where
  pub ihl : d.ihl < 16
  pub saddr : d.saddr < u32_mod
  pub daddr : d.daddr < u32_mod
  pub source_port : d.source_port < 65536
  pub dest_port : d.dest_port < 65536

-- Network order.
abbrev pub big16 : ℕ → List ℕ → List ℕ
big16 x rest = byte x 1 ∷ byte x 0 ∷ rest

abbrev pub big32 : ℕ → List ℕ → List ℕ
big32 x rest = byte x 3 ∷ byte x 2 ∷ byte x 1 ∷ byte x 0 ∷ rest

abbrev pub transport : Datagram → List ℕ
transport d = big16 d.source_port (big16 d.dest_port d.rest)

-- Version 4 is the high half of the first byte. The length, the identification, the fragment offset
-- and the checksum are 0 here: nothing reads them.
abbrev pub wire : Datagram → List ℕ
wire d =
    (4 * 16 + d.ihl)
    ∷ d.tos
    ∷ 0
    ∷ 0
    ∷ 0
    ∷ 0
    ∷ 0
    ∷ 0
    ∷ d.ttl
    ∷ d.protocol
    ∷ 0
    ∷ 0
    ∷ big32 d.saddr (big32 d.daddr (d.options ++ transport d))

-- The bytes in memory, with whatever lies behind them.
abbrev pub in_memory : List ℕ → Memory → Memory
in_memory bytes beyond i = get_or bytes i (beyond i)

abbrev pub capture : Option PacketHdr → Datagram → Memory → Captured
capture header d beyond = record { packet_hdr = header; payload = some (in_memory (wire d) beyond) }

-- The two halves of the first byte are exchanged: the accessor of the version gives the length of the
-- header in words, and the accessor of the length gives the version, which is 4.
pub version-ihl_swapped :
    (d : Datagram) (beyond : Memory)
    → Fits d
    → (nfq_get_ip_version (iphdr_at (in_memory (wire d) beyond)) ≡ d.ihl)
      × (nfq_get_ip_ihl (iphdr_at (in_memory (wire d) beyond)) ≡ 4)
unfolding nfq_get_ip_version nfq_get_ip_ihl iphdr_at
version-ihl_swapped d beyond h = (omega (arith, h.ihl), omega (arith, h.ihl))

addresses_lem :
    (x : ℕ)
    → x < u32_mod
    → word
        (byte (word (byte x 3) (byte x 2) (byte x 1) (byte x 0)) 3)
        (byte (word (byte x 3) (byte x 2) (byte x 1) (byte x 0)) 2)
        (byte (word (byte x 3) (byte x 2) (byte x 1) (byte x 0)) 1)
        (byte (word (byte x 3) (byte x 2) (byte x 1) (byte x 0)) 0)
      ≡ x
addresses_lem x h = omega arith

-- The daemon reads the addresses of a datagram right.
pub addresses_exact :
    (header : Option PacketHdr) (d : Datagram) (beyond : Memory) (uninit : ℕ)
    → Fits d
    → let packet = nfq_data (capture header d beyond) uninit in
      (nfqueue_packet_get_dest packet ≡ d.daddr) × (nfqueue_packet_get_orig packet ≡ d.saddr)
unfolding nfq_data nfq_get_iphdr nfq_get_udphdr iphdr_at nfq_get_ip_saddr nfq_get_ip_daddr ntohl
    nfqueue_packet_get_dest nfqueue_packet_get_orig
addresses_exact header d beyond uninit h =
    (addresses_lem d.daddr h.daddr, addresses_lem d.saddr h.saddr)

port_lem :
    (x : ℕ)
    → x < 65536
    → byte (byte x 1 + 256 * byte x 0) 1 + 256 * byte (byte x 1 + 256 * byte x 0) 0 ≡ x
port_lem x h = omega arith

-- Is this the traffic that the daemon lets pass unseen: UDP to the given port?
abbrev pub to_aodv_port : ℕ → ℕ → Bool
to_aodv_port protocol port = if protocol == ipproto_udp then port == aodv_udp_port else false

-- A datagram without options is taken for AODV traffic exactly if it is UDP to port 654.
pub is_aodv-plain :
    (header : Option PacketHdr) (d : Datagram) (beyond : Memory) (uninit : ℕ)
    → Fits d
    → d.options ≡ []
    → nfqueue_packet_is_aodv (nfq_data (capture header d beyond) uninit)
      ≡ to_aodv_port d.protocol d.dest_port
unfolding nfq_data nfq_get_iphdr nfq_get_udphdr iphdr_at udphdr_at nfq_get_ip_protocol
    nfq_get_udp_dest ntohs nfqueue_packet_is_aodv
is_aodv-plain header d beyond uninit h plain = rw (plain, port_lem d.dest_port h.dest_port)

-- Behind options the code looks for the port in the options: a datagram whose first four option bytes
-- are a, b, c and e is taken for AODV traffic exactly if it is UDP and c and e spell 654, whatever
-- its port is.
pub is_aodv-options :
    (header : Option PacketHdr) (d : Datagram) (beyond : Memory) (uninit a b c e : ℕ)
    (more : List ℕ)
    → c < 256
    → e < 256
    → d.options ≡ a ∷ b ∷ c ∷ e ∷ more
    → nfqueue_packet_is_aodv (nfq_data (capture header d beyond) uninit)
      ≡ to_aodv_port d.protocol (c * 256 + e)
unfolding nfq_data nfq_get_iphdr nfq_get_udphdr iphdr_at udphdr_at nfq_get_ip_protocol
    nfq_get_udp_dest ntohs nfqueue_packet_is_aodv
is_aodv-options header d beyond uninit a b c e more hc he options = rw (options, swap_lem c e hc he)
  where
    swap_lem :
        (c e : ℕ)
        → c < 256
        → e < 256
        → byte (c + 256 * e) 1 + 256 * byte (c + 256 * e) 0 ≡ c * 256 + e
    swap_lem c e hc he = omega arith
