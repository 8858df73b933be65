-- ===== src/Config.antt =====
-- meshias_daemon/aodv/configuration_parameters.c, whose twin in libmeshias/aodv is the same text.
pub mod Laws
use meshias.Base.{
  ℕ, ◌+◌, ◌-◌, ◌*◌, ◌/◌, ◌^◌, ◌%◌, ltb, if◌then◌else◌, ℤ, pos, negsuc, pos_part, neg_part, eqb_ℤ,
}
use meshias.Word.{u32, u32_mod}
use meshias.Time.{Timeval, get_alarm_time}

abbrev pub active_route_timeout : ℕ
active_route_timeout = 3000

abbrev pub allowed_hello_loss : ℕ
allowed_hello_loss = 2

abbrev pub rreq_retries : ℕ
rreq_retries = 2

abbrev pub hello_interval : ℕ
hello_interval = 1000

abbrev pub local_add_ttl : ℕ
local_add_ttl = 2

abbrev pub net_diameter : ℕ
net_diameter = 35

abbrev pub rerr_ratelimit : ℕ
rerr_ratelimit = 10

abbrev pub rreq_ratelimit : ℕ
rreq_ratelimit = 10

abbrev pub timeout_buffer : ℕ
timeout_buffer = 2

abbrev pub ttl_start : ℕ
ttl_start = 3

abbrev pub ttl_increment : ℕ
ttl_increment = 2

abbrev pub ttl_threshold : ℕ
ttl_threshold = 7

abbrev pub node_traversal_time : ℕ
node_traversal_time = 40

abbrev pub next_hop_wait : ℕ
next_hop_wait = node_traversal_time + 10

-- `0.3 * 35` is a double just above or below 10.5; its integer part is 10.
abbrev pub max_repair_ttl : ℕ
max_repair_ttl = 3 * net_diameter / 10

abbrev pub my_route_timeout : ℕ
my_route_timeout = 2 * active_route_timeout

abbrev pub net_traversal_time : ℕ
net_traversal_time = 2 * node_traversal_time * net_diameter

abbrev pub blacklist_timeout : ℕ
blacklist_timeout = rreq_retries * net_traversal_time

abbrev pub path_discovery_time : ℕ
path_discovery_time = 2 * net_traversal_time

abbrev pub delete_period : ℕ
delete_period = allowed_hello_loss * hello_interval

abbrev pub min_repair_ttl : ℕ
min_repair_ttl = 0

abbrev pub ttl_value : ℕ
ttl_value = 0

abbrev pub ring_traversal_time : ℕ
ring_traversal_time = 2 * node_traversal_time * (ttl_value + timeout_buffer)

-- `prev_tries` is not negative where this is called; `1 << -1` is undefined, and reads 0 here.
unfoldable pub binary_exponential_backoff_time : ℤ → ℕ
binary_exponential_backoff_time (pos prev_tries) = u32 (2 ^ prev_tries * net_traversal_time)
binary_exponential_backoff_time (negsuc n) = 0

-- The product `prev_tries * TTL_INCREMENT()` is made in `uint32_t`.
unfoldable pub expanding_ring_search_ttl : ℕ → ℤ → ℕ
expanding_ring_search_ttl hop_count prev_tries =
    if eqb_ℤ prev_tries (pos 0)
    then hop_count + ttl_start
    else (let ret = u32 (
          hop_count
          + ttl_start
          + pos_part prev_tries * ttl_increment
          + (u32_mod - neg_part prev_tries * ttl_increment)) in
        if ltb ttl_threshold ret then net_diameter else ret)

-- `now` is the clock reading that the function takes.
unfoldable pub minimal_lifetime : Timeval → ℕ → ℕ
minimal_lifetime now hop_count = u32 (
    get_alarm_time now.tv_sec now.tv_usec
    + 2 * net_traversal_time
    + u32_mod
    - 2 * hop_count * node_traversal_time)
