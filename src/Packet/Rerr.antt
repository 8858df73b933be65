-- ===== src/Packet/Rerr.antt =====
-- `aodv_pkt_build_rerr` of meshias_daemon/aodv/packet.c, which nothing calls.
use meshias.Base.{
  ℕ, zero, suc, ◌+◌, ◌*◌, ◌%◌, ◌<◌, ◌≡◌, refl, ◌∙◌, leb, Bool, Bool-cases, inl, inr, true, false,
  List, [], ◌∷◌, if◌then◌else◌, length, arith,
}
use meshias.Word.{byte, htonl}
use meshias.Packet.{aodv_rerr, sizeof_rerr, sizeof_unrecheable_dest}

pub record UnrecheableDest : Type 0 where
  pub ip_addr : ℕ
  pub seq_num : ℕ

-- The bytes of the payload, and whether something was written behind them.
pub record RerrBuffer : Type 0 where
  pub bytes : List ℕ
  pub past_end : Bool

-- The byte at an index, replaced.
abbrev pub put_byte : ℕ → ℕ → List ℕ → List ℕ
put_byte i x [] = []
put_byte zero x (b ∷ rest) = x ∷ rest
put_byte (suc i) x (b ∷ rest) = b ∷ put_byte i x rest

-- A 32-bit store.
unfoldable pub store_at : ℕ → ℕ → RerrBuffer → RerrBuffer
store_at offset x buffer =
    if leb (offset + 4) (length buffer.bytes)
    then record buffer {
      bytes = put_byte offset (byte x 0) (
          put_byte (offset + 1) (byte x 1)
            (put_byte (offset + 2) (byte x 2) (put_byte (offset + 3) (byte x 3) buffer.bytes)));
    }
    else record buffer { past_end = true }

-- The loop over the destinations.
unfoldable pub write_dests : ℕ → List UnrecheableDest → RerrBuffer → RerrBuffer
unfolding store_at
write_dests aux [] buffer = buffer
write_dests aux (dest ∷ dests) buffer =
    write_dests (aux + sizeof_unrecheable_dest) dests
      (store_at (aux + 4) (htonl dest.seq_num) (store_at aux (htonl dest.ip_addr) buffer))

abbrev pub zeros : ℕ → List ℕ
zeros zero = []
zeros (suc n) = 0 ∷ zeros n

-- The memory that `calloc` reserves, with the header: the flag is the high bit of the second byte.
abbrev pub reserved_rerr : ℕ → List UnrecheableDest → RerrBuffer
reserved_rerr flag dests = record {
  bytes =
      aodv_rerr
      ∷ 128 * (flag % 2)
      ∷ 0
      ∷ length dests % 256
      ∷ zeros (length dests * sizeof_unrecheable_dest);
  past_end = false;
}

-- The header is added to a pointer to `struct unrecheable_dest`, so that its size counts in units of
-- eight bytes.
unfoldable pub aodv_pkt_build_rerr : ℕ → List UnrecheableDest → RerrBuffer
unfolding write_dests
aodv_pkt_build_rerr flag dests =
    write_dests (sizeof_rerr * sizeof_unrecheable_dest) dests (reserved_rerr flag dests)

length-put_byte : (i x : ℕ) (bytes : List ℕ) → length (put_byte i x bytes) ≡ length bytes
length-put_byte i x [] = refl
length-put_byte zero x (b ∷ rest) = refl
length-put_byte (suc i) x (b ∷ rest) = omega (arith, length-put_byte i x rest)

length-zeros : (n : ℕ) → length (zeros n) ≡ n
length-zeros zero = refl
length-zeros (suc n) = omega (arith, length-zeros n)

record Stored (offset : ℕ) (old new : RerrBuffer) : Type 0 where
  pub same : length new.bytes ≡ length old.bytes
  pub sticky : old.past_end ≡ true → new.past_end ≡ true
  pub outside : length old.bytes < offset + 4 → new.past_end ≡ true

store_at-Stored :
    (offset x : ℕ) (buffer : RerrBuffer) → Stored offset buffer (store_at offset x buffer)
unfolding store_at
store_at-Stored offset x buffer = elim (Bool-cases (leb (offset + 4) (length buffer.bytes))) [
  | inl fits ↦ rw fits (record {
    same =
        length-put_byte offset (byte x 0) _
        ∙ length-put_byte (offset + 1) (byte x 1) _
        ∙ length-put_byte (offset + 2) (byte x 2) _
        ∙ length-put_byte (offset + 3) (byte x 3) buffer.bytes;
    sticky = λ h. h;
    outside = λ short. absurd (ground (arith, fits, short));
  })
  | inr over ↦ rw over (record { same = refl; sticky = λ h. refl; outside = λ h. refl })
]

write_dests-sticky :
    (aux : ℕ) (dests : List UnrecheableDest) (buffer : RerrBuffer)
    → buffer.past_end ≡ true
    → (write_dests aux dests buffer).past_end ≡ true
unfolding write_dests
write_dests-sticky aux [] buffer h = h
write_dests-sticky aux (d ∷ dests) buffer h =
    let first = store_at-Stored aux (htonl d.ip_addr) buffer in
    let second =
      store_at-Stored (aux + 4) (htonl d.seq_num) (store_at aux (htonl d.ip_addr) buffer) in
    write_dests-sticky (aux + 8) dests _ (second.sticky (first.sticky h))

write_dests-outside :
    (aux : ℕ) (d : UnrecheableDest) (dests : List UnrecheableDest) (buffer : RerrBuffer)
    → length buffer.bytes < aux + 8 * suc (length dests)
    → (write_dests aux (d ∷ dests) buffer).past_end ≡ true
unfolding write_dests
write_dests-outside aux d [] buffer short =
    let first = store_at-Stored aux (htonl d.ip_addr) buffer in
    let second =
      store_at-Stored (aux + 4) (htonl d.seq_num) (store_at aux (htonl d.ip_addr) buffer) in
    second.outside (omega (arith, short, first.same))
write_dests-outside aux d (e ∷ dests) buffer short =
    let first = store_at-Stored aux (htonl d.ip_addr) buffer in
    let second =
      store_at-Stored (aux + 4) (htonl d.seq_num) (store_at aux (htonl d.ip_addr) buffer) in
    write_dests-outside (aux + 8) e dests _ (omega (arith, short, first.same, second.same))

-- A message with at least one destination is written past the end of its buffer.
pub build_rerr-outside :
    (flag : ℕ) (d : UnrecheableDest) (dests : List UnrecheableDest)
    → (aodv_pkt_build_rerr flag (d ∷ dests)).past_end ≡ true
unfolding aodv_pkt_build_rerr
build_rerr-outside flag d dests =
    write_dests-outside 32 d dests (reserved_rerr flag (d ∷ dests))
      (omega (arith, length-zeros (suc (length dests) * 8)))
