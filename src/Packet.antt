-- ===== src/Packet.antt =====
-- meshias_daemon/aodv/packet.h and packet.c: AODV messages as bytes in memory order, and as the C
-- structs that the code reads them through, with the bit fields of a little-endian host.
-- `calloc` succeeds, and what is freed is not used again.
pub mod Check
pub mod Rerr
pub mod Codec
use meshias.Base.{
  ℕ, ◌+◌, ◌-◌, ◌*◌, ◌/◌, ◌%◌, ◌==◌, ◌!=◌, leb, Bool, true, false, ◌&&◌, not, Option, none, some,
  List, [], ◌∷◌, ◌++◌, if◌then◌else◌, ℤ, pos, negsuc, eqb_ℤ, length, get_or, take, drop,
}
use meshias.Word.{u8, u32, byte, word, htonl, ntohl}
use meshias.State.{MshData, Statistics, Event, sendto, emit, bump}
use meshias.Act.{Act, pure, gets, modify, ◌>>=◌, ◌>>◌, choose, when, if_found}

abbrev pub aodv_rreq : ℕ
aodv_rreq = 1

abbrev pub aodv_rrep : ℕ
aodv_rrep = 2

abbrev pub aodv_rerr : ℕ
aodv_rerr = 3

abbrev pub aodv_rrep_ack : ℕ
aodv_rrep_ack = 4

abbrev pub rreq_gratuitous_rrep_flag : ℕ
rreq_gratuitous_rrep_flag = 4

abbrev pub rreq_dest_only_flag : ℕ
rreq_dest_only_flag = 2

abbrev pub rreq_unknown_seq_num_flag : ℕ
rreq_unknown_seq_num_flag = 1

abbrev pub default_ttl : ℕ
default_ttl = 64

-- The sizes of the structs and of `struct unrecheable_dest`.
abbrev pub sizeof_rreq : ℕ
sizeof_rreq = 24

abbrev pub sizeof_rrep : ℕ
sizeof_rrep = 20

abbrev pub sizeof_rerr : ℕ
sizeof_rerr = 4

abbrev pub sizeof_unrecheable_dest : ℕ
sizeof_unrecheable_dest = 8

abbrev pub sizeof_rrep_ack : ℕ
sizeof_rrep_ack = 2

pub record AodvRreq : Type 0 where
  pub type : ℕ
  pub reserved2 : ℕ
  pub flags : ℕ
  pub reserved : ℕ
  pub hop_count : ℕ
  pub rreq_id : ℕ
  pub dest_ip_addr : ℕ
  pub dest_seq_num : ℕ
  pub orig_ip_addr : ℕ
  pub orig_seq_num : ℕ

pub record AodvRrep : Type 0 where
  pub type : ℕ
  pub reserved2 : ℕ
  pub flags : ℕ
  pub prefix_sz : ℕ
  pub reserved : ℕ
  pub hop_count : ℕ
  pub dest_ip_addr : ℕ
  pub dest_seq_num : ℕ
  pub orig_ip_addr : ℕ
  pub lifetime : ℕ

-- `address` is `address.sin_addr.s_addr` as it stands in memory; `stray` is the byte that lies
-- behind the payload, which the code reads where the payload is empty.
pub record AodvPkt : Type 0 where
  pub payload : List ℕ
  pub address : ℕ
  pub ttl : ℕ
  pub stray : ℕ

-- A 32-bit load and store on a little-endian host.
abbrev pub load32 : List ℕ → ℕ → ℕ
load32 mem i =
    word (get_or mem i 0) (get_or mem (i + 1) 0) (get_or mem (i + 2) 0) (get_or mem (i + 3) 0)

abbrev pub store32 : ℕ → List ℕ → List ℕ
store32 x rest = byte x 0 ∷ byte x 1 ∷ byte x 2 ∷ byte x 3 ∷ rest

-- `(struct aodv_rreq*)payload`, read and written back over the front of the payload.
unfoldable pub get_rreq : List ℕ → AodvRreq
get_rreq mem = record {
  type = get_or mem 0 0;
  reserved2 = get_or mem 1 0 % 8;
  flags = get_or mem 1 0 / 8;
  reserved = get_or mem 2 0;
  hop_count = get_or mem 3 0;
  rreq_id = load32 mem 4;
  dest_ip_addr = load32 mem 8;
  dest_seq_num = load32 mem 12;
  orig_ip_addr = load32 mem 16;
  orig_seq_num = load32 mem 20;
}

unfoldable pub put_rreq : AodvRreq → List ℕ → List ℕ
put_rreq r mem =
    r.type
    ∷ (r.reserved2 + 8 * r.flags)
    ∷ r.reserved
    ∷ r.hop_count
    ∷ store32 r.rreq_id (
        store32 r.dest_ip_addr (
          store32 r.dest_seq_num
            (store32 r.orig_ip_addr (store32 r.orig_seq_num (drop sizeof_rreq mem)))))

unfoldable pub get_rrep : List ℕ → AodvRrep
get_rrep mem = record {
  type = get_or mem 0 0;
  reserved2 = get_or mem 1 0 % 64;
  flags = get_or mem 1 0 / 64;
  prefix_sz = get_or mem 2 0 % 32;
  reserved = get_or mem 2 0 / 32;
  hop_count = get_or mem 3 0;
  dest_ip_addr = load32 mem 4;
  dest_seq_num = load32 mem 8;
  orig_ip_addr = load32 mem 12;
  lifetime = load32 mem 16;
}

unfoldable pub put_rrep : AodvRrep → List ℕ → List ℕ
put_rrep r mem =
    r.type
    ∷ (r.reserved2 + 64 * r.flags)
    ∷ (r.prefix_sz + 32 * r.reserved)
    ∷ r.hop_count
    ∷ store32 r.dest_ip_addr (
        store32 r.dest_seq_num (store32 r.orig_ip_addr (store32 r.lifetime (drop sizeof_rrep mem))))

-- The `ntohl` lines of `aodv_pkt_check`.
unfoldable pub rreq_to_host : AodvRreq → AodvRreq
rreq_to_host r = record r {
  rreq_id = ntohl r.rreq_id;
  dest_ip_addr = ntohl r.dest_ip_addr;
  dest_seq_num = ntohl r.dest_seq_num;
  orig_ip_addr = ntohl r.orig_ip_addr;
  orig_seq_num = ntohl r.orig_seq_num;
}

unfoldable pub rrep_to_host : AodvRrep → AodvRrep
rrep_to_host r = record r {
  dest_ip_addr = ntohl r.dest_ip_addr;
  dest_seq_num = ntohl r.dest_seq_num;
  orig_ip_addr = ntohl r.orig_ip_addr;
  lifetime = ntohl r.lifetime;
}

unfoldable pub aodv_pkt_prepare_rreq : AodvRreq → AodvRreq
aodv_pkt_prepare_rreq r = record r {
  rreq_id = htonl r.rreq_id;
  dest_ip_addr = htonl r.dest_ip_addr;
  dest_seq_num = htonl r.dest_seq_num;
  orig_ip_addr = htonl r.orig_ip_addr;
  orig_seq_num = htonl r.orig_seq_num;
}

unfoldable pub aodv_pkt_prepare_rrep : AodvRrep → AodvRrep
aodv_pkt_prepare_rrep r = record r {
  dest_ip_addr = htonl r.dest_ip_addr;
  dest_seq_num = htonl r.dest_seq_num;
  orig_ip_addr = htonl r.orig_ip_addr;
  lifetime = htonl r.lifetime;
}

-- `broadcast_addr` is the field of the global data.
unfoldable pub aodv_pkt_alloc : ℕ → AodvPkt
aodv_pkt_alloc broadcast_addr = record {
  payload = [];
  address = broadcast_addr;
  ttl = default_ttl;
  stray = 0;
}

unfoldable pub aodv_pkt_set_ttl : ℕ → AodvPkt → AodvPkt
aodv_pkt_set_ttl ttl pkt = record pkt { ttl = u8 ttl }

unfoldable pub aodv_pkt_decrease_ttl : AodvPkt → AodvPkt
aodv_pkt_decrease_ttl pkt = record pkt { ttl = u8 (pkt.ttl + 255) }

unfoldable pub aodv_pkt_get_address : AodvPkt → ℕ
aodv_pkt_get_address pkt = ntohl pkt.address

unfoldable pub aodv_pkt_set_address : ℕ → AodvPkt → AodvPkt
aodv_pkt_set_address addr pkt = record pkt { address = htonl addr }

-- A `char` above 127 is negative, and is no message type either way.
unfoldable pub aodv_pkt_get_type : AodvPkt → ℕ
aodv_pkt_get_type pkt = get_or pkt.payload 0 pkt.stray

unfoldable pub aodv_pkt_get_payload_len : AodvPkt → ℕ
aodv_pkt_get_payload_len pkt = length pkt.payload

-- The bit fields hold 5 and 8 bits; `calloc` cleared the rest.
unfoldable pub aodv_pkt_build_rreq : ℕ → ℕ → ℕ → ℕ → ℕ → ℕ → ℕ → AodvPkt → AodvPkt
aodv_pkt_build_rreq flags hop_count rreq_id dest_ip_addr dest_seq_num orig_ip_addr orig_seq_num
      pkt =
    record pkt {
      payload =
          put_rreq
            (record {
              type = aodv_rreq;
              reserved2 = 0;
              flags = flags % 32;
              reserved = 0;
              hop_count = u8 hop_count;
              rreq_id = htonl rreq_id;
              dest_ip_addr = htonl dest_ip_addr;
              dest_seq_num = htonl dest_seq_num;
              orig_ip_addr = htonl orig_ip_addr;
              orig_seq_num = htonl orig_seq_num;
            })
            [];
    }

unfoldable pub aodv_pkt_build_rrep : ℕ → ℕ → ℕ → ℕ → ℕ → ℕ → ℕ → AodvPkt → AodvPkt
aodv_pkt_build_rrep flags prefix_sz hop_count dest_ip_addr dest_seq_num orig_ip_addr lifetime pkt =
    record pkt {
      payload =
          put_rrep
            (record {
              type = aodv_rrep;
              reserved2 = 0;
              flags = flags % 4;
              prefix_sz = prefix_sz % 32;
              reserved = 0;
              hop_count = u8 hop_count;
              dest_ip_addr = htonl dest_ip_addr;
              dest_seq_num = htonl dest_seq_num;
              orig_ip_addr = htonl orig_ip_addr;
              lifetime = htonl lifetime;
            })
            [];
    }

unfoldable pub aodv_pkt_build_rrep_ack : AodvPkt → AodvPkt
aodv_pkt_build_rrep_ack pkt = record pkt { payload = aodv_rrep_ack ∷ 0 ∷ [] }
