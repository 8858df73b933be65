-- ===== src/Tests/Wire.antt =====
-- Runs of the theorems about captured bytes.
use meshias.Base.{◌≡◌, refl, true, none, [], ◌∷◌, arith}
use meshias.Nfqueue.{nfqueue_packet_is_aodv}
use meshias.Nfqueue.Headers.{nfq_data}
use meshias.Nfqueue.Wire.{Datagram, Fits, capture, to_aodv_port, is_aodv-plain, is_aodv-options}

-- UDP to port 654.
abbrev plain : Datagram
plain = record {
  ihl = 5;
  tos = 0;
  ttl = 64;
  protocol = 17;
  saddr = 167772161;
  daddr = 167772162;
  options = [];
  source_port = 654;
  dest_port = 654;
  rest = [];
}

-- UDP to port 53 with four bytes of options, which spell 654.
abbrev with_options : Datagram
with_options = record plain { ihl = 6; options = 1 ∷ 1 ∷ 2 ∷ 142 ∷ []; dest_port = 53 }

plain-Fits : Fits plain
plain-Fits = record {
  ihl = ground arith;
  saddr = ground arith;
  daddr = ground arith;
  source_port = ground arith;
  dest_port = ground arith;
}

is_aodv-plain_example :
    nfqueue_packet_is_aodv (nfq_data (capture none plain (λ i. 0)) 0) ≡ to_aodv_port 17 654
is_aodv-plain_example = is_aodv-plain none plain (λ i. 0) 0 plain-Fits refl

is_aodv-options_example :
    nfqueue_packet_is_aodv (nfq_data (capture none with_options (λ i. 0)) 0) ≡ true
is_aodv-options_example =
    is_aodv-options none with_options (λ i. 0) 0 1 1 2 142 [] (ground arith) (ground arith) refl
