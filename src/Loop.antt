-- ===== src/Loop.antt =====
-- `main` of meshias_daemon/meshias.c: the loop around `select`, with the functions that receive from
-- the three sockets (nfqueue.c, sockets/aodv_socket.c, communication_interface.c) and the shut-down of
-- msh_data.c. What `select` reports, and what is then received, is a list with one entry for each
-- call. Start-up is in Loop/Startup.
pub mod Startup
pub mod Keeps
pub mod Always
pub mod Searches
pub mod Words
pub mod Ending
pub mod Shutdown
pub mod Verdicts
use meshias.Base.{ℕ, ◌+◌, Bool, true, Option, none, some, List, [], ◌∷◌, ℤ, starts_with}
use meshias.Word.{u32}
use meshias.Time.{Timeval}
use meshias.Alarm.{flush_alarm, get_next_alarm_run}
use meshias.State.{MshData, Statistics, bump, gettimeofday, clear_alarm}
use meshias.RoutingTable.{routing_table_del}
use meshias.PacketsFifo.{packets_fifo_delete}
use meshias.RreqFifo.{rreq_fifo_delete}
use meshias.Packet.Check.{Msghdr}
use meshias.Logic.Receive.{aodv_process_packet}
use meshias.Nfqueue.{NfqData, manage_packet}
use meshias.Comm.{comm_interface_receive_packets}
use meshias.Daemon.{process_alarms}
use meshias.Loop.Startup.{InitCalls, InitResult, exited, err_init, started, msh_data_init}
use meshias.Act.{Act, pure, gets, ◌>>=◌, ◌>>◌, choose, if_found}

-- `recv` on the netfilter socket: it fails, or `nfq_handle_packet` finds a packet in what it gives, or
-- none.
pub data NfqRead : Type 0 where
  nfq_failed nfq_nothing : NfqRead
  nfq_packet : NfqData → NfqRead

-- `recvmsg` on the AODV socket: it returns -1, or a number of bytes. The last number is the byte that
-- lies behind them.
pub data AodvRead : Type 0 where
  recvmsg_failed : AodvRead
  recvmsg_message : Msghdr → ℕ → ℕ → AodvRead

abbrev pub count_nfq_recv : Statistics → Statistics
count_nfq_recv stats = record stats { error_nfq_recv = u32 (stats.error_nfq_recv + 1) }

abbrev pub count_aodv_recv : Statistics → Statistics
count_aodv_recv stats = record stats { error_aodv_recv = u32 (stats.error_aodv_recv + 1) }

unfoldable pub nfqueue_receive_packet : NfqRead → Act MshData Unit
nfqueue_receive_packet nfq_failed = bump count_nfq_recv
nfqueue_receive_packet nfq_nothing = pure tt
nfqueue_receive_packet (nfq_packet packet) = do manage_packet packet; pure tt

unfoldable pub aodv_socket_receive_packet : AodvRead → Act MshData Unit
aodv_socket_receive_packet recvmsg_failed = bump count_aodv_recv
aodv_socket_receive_packet (recvmsg_message msg numbytes stray) =
    aodv_process_packet msg numbytes stray

-- The sockets that are ready, with what is received from them.
pub record Ready : Type 0 where
  pub nfqueue : Option NfqRead
  pub daemon : Option AodvRead
  pub comm : Option (Option (List ℕ))

-- `select` returns 0 or less, or says which sockets are ready.
pub data Select : Type 0 where
  timed_out : Select
  ready : Ready → Select

abbrev pub or_else : Option Timeval → Timeval → Timeval
or_else none next = next
or_else (some time) next = time

-- `next_run = get_next_alarm_run(&next)`, which leaves `next` alone where it returns NULL. What
-- `next_run` points to is the timeout of `select`, which the list of reports stands for.
unfoldable pub look_ahead : Timeval → Act MshData Timeval
look_ahead next = do
  now ← gettimeofday
  found ← gets (λ s. get_next_alarm_run now s.alarms)
  pure (or_else found next)

-- The two lines behind the inner loop.
unfoldable pub wake : Timeval → Act MshData Timeval
unfolding look_ahead
wake next = do
  ahead ← look_ahead next
  found ← process_alarms (some ahead)
  pure (or_else found ahead)

-- The body of the inner loop.
unfoldable pub receive : Ready → Act MshData Unit
unfolding nfqueue_receive_packet aodv_socket_receive_packet
receive r = do
  if_found r.nfqueue nfqueue_receive_packet (pure tt)
  if_found r.daemon aodv_socket_receive_packet (pure tt)
  if_found r.comm (λ received. do comm_interface_receive_packets received; pure tt) (pure tt)

-- What follows one call of `select`, up to the next test of `data.end` by the outer loop or, behind a
-- ready socket, by the inner one.
unfoldable pub turn : Select → Timeval → Act MshData Timeval
unfolding wake receive look_ahead
turn timed_out next = wake next
turn (ready r) next = do
  receive r
  ahead ← look_ahead next
  ended ← gets (λ s. s.end)
  choose ended (wake ahead) (pure ahead)

-- The main loop on so many reports of `select`: has it ended?
unfoldable pub main_loop : List Select → Timeval → Act MshData Bool
unfolding turn
main_loop [] next = gets (λ s. s.end)
main_loop (report ∷ reports) next = do
  ended ← gets (λ s. s.end)
  choose ended (pure true) do ahead ← turn report next; main_loop reports ahead

-- The loop of `routing_table_delete`. `free` is not modelled, nor is the scratch route.
unfoldable pub delete_routes : List ℕ → Act MshData Unit
delete_routes [] = pure tt
delete_routes (entry ∷ rest) = do routing_table_del entry; delete_routes rest

unfoldable pub routing_table_delete : Act MshData Unit
unfolding delete_routes
routing_table_delete = do table ← gets (λ s. s.routing_table); delete_routes table

-- Closing the sockets is not modelled.
unfoldable pub msh_data_shutdown : Act MshData Unit
unfolding routing_table_delete
msh_data_shutdown = do
  clear_alarm flush_alarm
  routing_table_delete
  rreq_fifo_delete
  packets_fifo_delete

pub data MainResult : Type 0 where
  not_started running finished : MainResult

-- `main` behind its initialisation.
unfoldable pub run_started : List Select → Timeval → InitResult → Act MshData MainResult
unfolding main_loop msh_data_shutdown
run_started reports next exited = pure not_started
run_started reports next err_init = pure not_started
run_started reports next (started fds) = do
  ended ← main_loop reports next
  choose ended (do msh_data_shutdown; pure finished) (pure running)

-- `main` on so many reports of `select`; `next` is the variable of that name.
unfoldable pub main : InitCalls → List Select → Timeval → Act MshData MainResult
unfolding run_started
main calls reports next = do initialised ← msh_data_init calls; run_started reports next initialised
