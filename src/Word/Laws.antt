-- ===== src/Word/Laws.antt =====
-- The laws of byte order, signed comparison and flags that the other modules use.
use meshias.Base.{ℕ, ◌^◌, ◌<◌, ◌≡◌, ◌↔◌, true, arith, ltb_ℤ}
use meshias.Word.{u32_mod, htonl, ntohl, signed32, signed_lt}

pub ntohl-htonl : (x : ℕ) → x < u32_mod → ntohl (htonl x) ≡ x
unfolding ntohl htonl
ntohl-htonl x h = omega arith

pub htonl-ntohl : (x : ℕ) → x < u32_mod → htonl (ntohl x) ≡ x
unfolding ntohl htonl
htonl-ntohl x h = omega arith

pub htonl-lt : (x : ℕ) → htonl x < u32_mod
unfolding htonl
htonl-lt x = omega arith

pub ntohl-lt : (x : ℕ) → ntohl x < u32_mod
unfolding ntohl
ntohl-lt x = omega arith

-- The comparison of bit patterns is the order of the signed integers that they stand for.
pub signed_lt_lem :
    (a b : ℕ) → a < u32_mod → b < u32_mod → signed_lt a b ≡ ltb_ℤ (signed32 a) (signed32 b)
unfolding signed_lt
signed_lt_lem a b ha hb = ground arith

pub signed_lt-small : (a b : ℕ) → a < 2 ^ 31 → b < 2 ^ 31 → (signed_lt a b ≡ true) ↔ (a < b)
unfolding signed_lt
signed_lt-small a b ha hb = ground arith
