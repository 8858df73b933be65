-- ===== src/Config/Laws.antt =====
-- Bounds on the computed parameters.
use meshias.Base.{ℕ, ◌+◌, ◌*◌, ◌≤◌, ◌<◌, ◌≡◌, refl, arith, suc, zero, pos}
use meshias.Word.{u32_mod}
use meshias.Time.{Timeval}
use meshias.Config.{binary_exponential_backoff_time, expanding_ring_search_ttl, minimal_lifetime}

-- A fresh search starts three hops beyond the last known distance.
pub expanding_ring_search_ttl-zero :
    (hop_count : ℕ) → expanding_ring_search_ttl hop_count (pos 0) ≡ hop_count + 3
unfolding expanding_ring_search_ttl
expanding_ring_search_ttl-zero h = refl

pub minimal_lifetime-lt : (now : Timeval) (hop_count : ℕ) → minimal_lifetime now hop_count < u32_mod
unfolding minimal_lifetime
minimal_lifetime-lt now h = omega arith

pub backoff-double :
    (n : ℕ)
    → n ≤ 1
    → binary_exponential_backoff_time (pos (suc n)) ≡ 2 * binary_exponential_backoff_time (pos n)
unfolding binary_exponential_backoff_time
backoff-double zero h = refl
backoff-double (suc zero) h = refl
backoff-double (suc (suc n)) h = absurd (omega arith)
