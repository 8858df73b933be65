-- ===== src/Loop/Startup.antt =====
-- Start-up: `msh_data_init` of meshias_daemon/msh_data.c, with `nfqueue_init`, `aodv_socket_init`,
-- `comm_interface_init` and sockets/fds.c. The results of system and library calls are parameters.
use meshias.Base.{
  ◌==◌, ℕ, ltb, Bool, false, not, ◌||◌, Option, none, some, List, [], ◌∷◌, if◌then◌else◌, ℤ, pos,
  negsuc, pos_part, ltb_ℤ, eqb_ℤ,
}
use meshias.State.{MshData, stats_reset}
use meshias.Word.{ntohl}
use meshias.Act.{Act, pure, ◌>>◌, choose, if_found}

-- `struct fds`
pub record Fds : Type 0 where
  pub maxfd : ℕ
  pub readfds : List ℕ

-- `calloc` and `FD_ZERO`
abbrev pub create_fds : Fds
create_fds = record { maxfd = 0; readfds = [] }

unfoldable pub register_fd : ℕ → Fds → Fds
register_fd fd fds = record {
  maxfd = if ltb fds.maxfd fd then fd else fds.maxfd;
  readfds = fd ∷ fds.readfds;
}

abbrev pub is_negative : ℤ → Bool
is_negative n = ltb_ℤ n (pos 0)

abbrev pub is_minus_one : ℤ → Bool
is_minus_one n = eqb_ℤ n (negsuc 0)

-- What the calls of `nfqueue_init` return: is the handle there, is the queue, and the numbers.
pub record NfqCalls : Type 0 where
  pub nfq_open : Bool
  pub unbind_pf : ℤ
  pub bind_pf : ℤ
  pub create_queue : Bool
  pub set_mode : ℤ
  pub fd : ℕ

-- The set of sockets after `nfqueue_init`; none where it returns ERR_INIT.
unfoldable pub nfqueue_init : NfqCalls → Fds → Option Fds
unfolding register_fd
nfqueue_init calls fds =
    if not calls.nfq_open
      || is_negative calls.unbind_pf
      || is_negative calls.bind_pf
      || not calls.create_queue
      || is_negative calls.set_mode
    then none
    else some (register_fd calls.fd fds)

pub record AodvCalls : Type 0 where
  pub socket : ℤ
  pub set_broadcast : ℤ
  pub set_recvttl : ℤ
  pub bind : ℤ

unfoldable pub aodv_socket_init : AodvCalls → Fds → Option Fds
unfolding register_fd
aodv_socket_init calls fds =
    if is_minus_one calls.socket
      || is_minus_one calls.set_broadcast
      || is_minus_one calls.set_recvttl
      || is_minus_one calls.bind
    then none
    else some (register_fd (pos_part calls.socket) fds)

pub record CommCalls : Type 0 where
  pub socket : ℤ
  pub set_reuseaddr : ℤ
  pub bind : ℤ
  pub listen : ℤ

unfoldable pub comm_interface_init : CommCalls → Fds → Option Fds
unfolding register_fd
comm_interface_init calls fds =
    if is_minus_one calls.socket
      || is_minus_one calls.set_reuseaddr
      || is_minus_one calls.bind
      || is_minus_one calls.listen
    then none
    else some (register_fd (pos_part calls.socket) fds)

-- `link` is the index of the named interface, none where there is none. `local` and `broadcast` are
-- its addresses as libnl gives them, in network order.
pub record InitCalls : Type 0 where
  pub argc : ℕ
  pub uid : ℕ
  pub fds_allocated : Bool
  pub nfq : NfqCalls
  pub aodv : AodvCalls
  pub comm : CommCalls
  pub link : Option ℕ
  pub local : ℕ
  pub broadcast : ℕ

pub data InitResult : Type 0 where
  exited err_init : InitResult
  started : Fds → InitResult

abbrev and_then : Option Fds → (Fds → Option Fds) → Option Fds
and_then none next = none
and_then (some fds) next = next fds

-- The three sockets, in this order.
unfoldable pub open_sockets : InitCalls → Option Fds
unfolding nfqueue_init aodv_socket_init comm_interface_init
open_sockets calls = and_then (nfqueue_init calls.nfq create_fds) λ with_nfq.
    and_then (aodv_socket_init calls.aodv with_nfq)
      λ with_aodv. comm_interface_init calls.comm with_aodv

-- `memset(&data, 0, sizeof(data))`; the lists are allocated later, empty.
unfoldable pub clear_data : Act MshData Unit
clear_data s = (
  tt,
  record s {
    routing_table = [];
    rreq_queue = [];
    packets_queue = [];
    net_iface = 0;
    ip_addr = 0;
    broadcast_addr = 0;
    seq_num = 0;
    rreq_id = 0;
    num_rreq_sent = 0;
    end = false;
  },
)

unfoldable pub stats_init : Act MshData Unit
stats_init s = (tt, record s { stats = stats_reset })

-- The interface, and `__init_addr` with its addresses.
unfoldable pub set_interface : ℕ → ℕ → ℕ → Act MshData Unit
set_interface net_iface local broadcast s = (
  tt,
  record s { net_iface = net_iface; ip_addr = ntohl local; broadcast_addr = ntohl broadcast },
)

-- The part behind the sockets.
unfoldable pub find_interface : InitCalls → Fds → Act MshData InitResult
unfolding set_interface
find_interface calls fds =
    if_found calls.link
      (λ net_iface. do set_interface net_iface calls.local calls.broadcast; pure (started fds))
      (pure err_init)

unfoldable pub msh_data_init : InitCalls → Act MshData InitResult
unfolding open_sockets clear_data stats_init find_interface
msh_data_init calls = do
  clear_data
  choose (ltb calls.argc 2) (pure exited) (
      choose (not (calls.uid == 0)) (pure err_init) do
        stats_init
        choose (not calls.fds_allocated) (pure err_init)
            (if_found (open_sockets calls) (find_interface calls) (pure err_init)))
