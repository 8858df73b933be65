-- ===== src/Nfqueue/Print.antt =====
-- `nfqueue_packet_print` of meshias_daemon/nfqueue.c, which prints what the library tells of a packet.
use meshias.Base.{
  ℕ, ◌+◌, ◌==◌, leb, Bool, true, ◌&&◌, Option, none, some, List, [], ◌∷◌, ◌++◌, if◌then◌else◌, zero,
  suc, codes, ℤ, pos, All, ◌≡◌, arith,
}
use meshias.Word.{ntohl, signed32}
use meshias.Time.{Timeval}
use meshias.Nfqueue.{PacketHdr}
use meshias.Nfqueue.Headers.{
  Memory, Captured, NfqIphdr, NfqTcphdr, ntohs, nfq_get_iphdr, nfq_get_ip_saddr, nfq_get_ip_daddr,
  nfq_get_tcphdr, nfq_get_tcp_source, nfq_get_tcp_dest,
}

-- What is written to the terminal, one entry for each call.
pub data Output : Type 0 where
  printf : (format : List ℕ) (values : List ℤ) → Output
  puts : (text : List ℕ) → Output
  fputc : (c : ℕ) → Output

-- What else the library gives of a packet: `hw_protocol` of its header, `hw_addrlen` of
-- `nfq_get_packet_hw`, the time stamp, the mark, the devices and the length of the payload.
pub record Details : Type 0 where
  pub captured : Captured
  pub hw_protocol : ℕ
  pub hw_addrlen : Option ℕ
  pub timestamp : Option Timeval
  pub nfmark : ℕ
  pub indev : ℕ
  pub outdev : ℕ
  pub length : ℕ

-- In the C locale.
abbrev pub isprint : ℕ → Bool
isprint c = leb 32 c && leb c 126

-- The loop over the payload.
unfoldable pub print_payload : Memory → ℕ → ℕ → List Output
print_payload bytes i zero = []
print_payload bytes i (suc n) =
    fputc (if isprint (bytes i) then bytes i else 32) ∷ print_payload bytes (i + 1) n

abbrev print_number : List ℕ → List ℕ → ℕ → List Output
print_number format missing x =
    if x == 0 then puts missing ∷ [] else printf format (pos x ∷ []) ∷ []

abbrev print_header : ℕ → Option PacketHdr → List Output
print_header hw_protocol none = []
print_header hw_protocol (some header) =
    printf (codes "hw_protocol=0x%04x hook=%u id=%u\n")
      (pos (ntohs hw_protocol) ∷ pos header.hook ∷ pos (ntohl header.packet_id) ∷ [])
    ∷ []

abbrev print_address : Option ℕ → List Output
print_address none = puts (codes "no MAC adress") ∷ []
print_address (some hw_addrlen) =
    printf (codes "mac len %d address\n") (pos (ntohs hw_addrlen) ∷ []) ∷ []

abbrev print_timestamp : Option Timeval → List Output
print_timestamp none = puts (codes "no timestamp") ∷ []
print_timestamp (some t) =
    printf (codes "timestamp %ld.%ld") (pos t.tv_sec ∷ pos t.tv_usec ∷ []) ∷ []

abbrev print_data : ℕ → Option Memory → List Output
print_data length none = []
print_data length (some bytes) =
    printf (codes "pckt_data[%d]:{") (pos length ∷ []) ∷ print_payload bytes 0 length

abbrev print_ends : ℤ → ℤ → List Output
print_ends source dest = printf (codes "source: %d\ndest: %d\n") (source ∷ dest ∷ []) ∷ []

abbrev print_ip : Option NfqIphdr → List Output
print_ip none = []
print_ip (some hdr) = print_ends (signed32 (nfq_get_ip_saddr hdr)) (signed32 (nfq_get_ip_daddr hdr))

abbrev print_tcp : Option NfqTcphdr → List Output
print_tcp none = []
print_tcp (some hdr) = print_ends (pos (nfq_get_tcp_source hdr)) (pos (nfq_get_tcp_dest hdr))

-- The id that is returned, and what is written.
unfoldable pub nfqueue_packet_print : Details → ℕ × List Output
unfolding print_payload
nfqueue_packet_print packet = (
  elim packet.captured.packet_hdr [ none ↦ 0 | some header ↦ ntohl header.packet_id ],
  print_header packet.hw_protocol packet.captured.packet_hdr
      ++ (print_address packet.hw_addrlen
          ++ (print_timestamp packet.timestamp
              ++ (print_number (codes "mark=%u\n") (codes "no mark") packet.nfmark
                  ++ (print_number (codes "indev=%u\n") (codes "no indev") packet.indev
                      ++ (print_number (codes "outdev=%u\n") (codes "no outdev") packet.outdev
                          ++ (print_data packet.length packet.captured.payload
                              ++ (puts (codes "}") ∷ []
                                  ++ (print_ip (nfq_get_iphdr packet.captured)
                                      ++ print_tcp (nfq_get_tcphdr packet.captured))))))))),
)

abbrev pub IsSafe : Output → Type 0
IsSafe (printf format values) = Unit
IsSafe (puts text) = Unit
IsSafe (fputc c) = isprint c ≡ true

print_payload-IsSafe : (bytes : Memory) (i n : ℕ) → All IsSafe (print_payload bytes i n)
unfolding print_payload
print_payload-IsSafe bytes i zero = tt
print_payload-IsSafe bytes i (suc n) = (ground arith, print_payload-IsSafe bytes (i + 1) n)

All-append : (P : Output → Type 0) (xs ys : List Output) → All P xs → All P ys → All P (xs ++ ys)
All-append P [] ys h k = k
All-append P (x ∷ xs) ys h k = (h.0, All-append P xs ys h.1 k)

header-IsSafe :
    (hw_protocol : ℕ) (header : Option PacketHdr) → All IsSafe (print_header hw_protocol header)
header-IsSafe hw_protocol none = tt
header-IsSafe hw_protocol (some header) = (tt, tt)

address-IsSafe : (hw_addrlen : Option ℕ) → All IsSafe (print_address hw_addrlen)
address-IsSafe none = (tt, tt)
address-IsSafe (some hw_addrlen) = (tt, tt)

timestamp-IsSafe : (t : Option Timeval) → All IsSafe (print_timestamp t)
timestamp-IsSafe none = (tt, tt)
timestamp-IsSafe (some t) = (tt, tt)

number-IsSafe : (format missing : List ℕ) (x : ℕ) → All IsSafe (print_number format missing x)
number-IsSafe format missing x = ground arith

data-IsSafe : (length : ℕ) (payload : Option Memory) → All IsSafe (print_data length payload)
data-IsSafe length none = tt
data-IsSafe length (some bytes) = (tt, print_payload-IsSafe bytes 0 length)

ip-IsSafe : (hdr : Option NfqIphdr) → All IsSafe (print_ip hdr)
ip-IsSafe none = tt
ip-IsSafe (some hdr) = (tt, tt)

tcp-IsSafe : (hdr : Option NfqTcphdr) → All IsSafe (print_tcp hdr)
tcp-IsSafe none = tt
tcp-IsSafe (some hdr) = (tt, tt)

-- Whatever a packet carries, each character of its payload that is written is a printable one.
pub packet_print-IsSafe : (packet : Details) → All IsSafe (nfqueue_packet_print packet).1
unfolding nfqueue_packet_print
packet_print-IsSafe packet = All-append IsSafe _ _ (header-IsSafe _ packet.captured.packet_hdr) (
    All-append IsSafe _ _ (address-IsSafe packet.hw_addrlen) (
      All-append IsSafe _ _ (timestamp-IsSafe packet.timestamp) (
        All-append IsSafe _ _ (number-IsSafe _ _ packet.nfmark) (
          All-append IsSafe _ _ (number-IsSafe _ _ packet.indev) (
            All-append IsSafe _ _ (number-IsSafe _ _ packet.outdev) (
              All-append IsSafe _ _ (data-IsSafe packet.length packet.captured.payload) (
                tt,
                All-append IsSafe _ _ (ip-IsSafe (nfq_get_iphdr packet.captured))
                    (tcp-IsSafe (nfq_get_tcphdr packet.captured)),
              )))))))
