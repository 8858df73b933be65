-- ===== src/Lib.antt =====
-- meshias: a model of the AODV routing daemon for mesh networks.
--
-- The daemon is one process around a `select` loop (meshias_daemon/meshias.c). A turn of the loop
-- takes a packet that netfilter has captured, an AODV message from the UDP socket, a command from the
-- control socket, or runs the alarms that are due; they share the global `data`
-- (meshias_daemon/msh_data.h). The model keeps the names of the C functions. A function that touches
-- the global data is an action `Act MshData A`, a function from the state to a result and a state.
-- `Loop.main` is the whole program on a list of reports of `select`, and `Daemon.Step` is one event,
-- for properties that do not depend on how the loop orders them.
--
-- The files, with the code that they model:
--   Base, Base/*: shared helpers (tests on numbers, integers, lists, text as character codes);
--   Act, Act/*: actions, and the rules by which a property of the state is kept by them;
--   Word: 32-bit words, byte order, flags and signed comparison;
--   Time: struct timeval with the macros of <sys/time.h>, and meshias_daemon/utils.c;
--   Config: meshias_daemon/aodv/configuration_parameters.c;
--   Alarm: libmeshias/alarm/alarm.c, as the ordered list of the pending alarms; the callbacks run in
--     Daemon; Alarm/Tree has the walk of `__add_alarm` over the tree;
--   Route, Route/*: meshias_daemon/msh_route.c and msh_route.h;
--   State: meshias_daemon/msh_data.h and statistics.h;
--   RoutingTable, RoutingTable/*: meshias_daemon/routing_table.c;
--   PacketsFifo, PacketsFifo/*: meshias_daemon/packets_fifo.c;
--   RreqFifo: meshias_daemon/rreq_fifo.c;
--   Packet, Packet/*: meshias_daemon/aodv/packet.c and packet.h;
--   Logic, Logic/*: meshias_daemon/aodv/logic.c, and in Logic/Discovery the alarm of a
--     request of rreq_fifo.c;
--   Nfqueue, Nfqueue/*: meshias_daemon/nfqueue.c, and in Nfqueue/Headers the accessors of
--     libnetfilter_queue/libnetfilter_queue_headers.c on the bytes of a packet;
--   Daemon: the wait-queue alarm of msh_data.c and the alarm run of alarm.c;
--   Comm, Comm/*: meshias_daemon/communication_interface.c;
--   Tools, Tools/*: meshias_daemon/meshias-tools.c, in Tools/Terminal its dialogue on the characters
--     that are typed, and its connection;
--   Connection, Connection/*: libmeshias/libmeshias.c, the library for clients;
--   Loop, Loop/*: meshias_daemon/meshias.c, the receiving functions of nfqueue.c and
--     sockets/aodv_socket.c, and start-up and shut-down (msh_data.c, sockets/*, nfqueue.c);
--   Invariant/*: properties of every state that the daemon reaches;
--   Tests, Tests/*: runs of the theorems at concrete states.
--
-- How the state corresponds to the code. A route lives on a heap, a function from addresses to
-- `MshRoute`, since the routing table, the alarms and the handlers share it; an address that
-- `calloc` returns is `next_ptr`, and no allocation fails. The lists of the daemon are lists from the
-- head of the C list on. The red-black tree of alarms is its in-order sequence, which is how
-- the code walks it; `rb_insert_color`, which comes with the Linux tree, is a parameter of Alarm/Tree
-- that keeps the order of the nodes. What system and library
-- calls return (the clock, `rtnl_route_add`, `sendto`, `nfq_set_verdict`) are streams of the state,
-- of which the model says nothing, so a theorem holds for every answer of the kernel; what the daemon
-- asks of them is in `trace`, the newest first. A route that is freed stays as it was in the model; of
-- a freed route request the code reads the destination, and what it finds there is `freed_dst` of the
-- state, of which the model says nothing either.
-- Where the code leaves an array or follows a null pointer, the model says so in its result
-- (`written_outside`, `past_end`, `null_dereference`), and such an operation changes nothing else.
-- A signed value is `ℤ` where the code computes with its sign, and a 32-bit word with its wrap-around
-- written out where it is a counter, a sequence number or a time. Loops run over a list, but for the
-- one of `send_msg`, which runs on as much fuel as the text has bytes; Comm/Sending shows that this is
-- enough. The loops of the command line client run on fuel, `get_command` on one more than the number of
-- characters left, of which every round takes one, and `client_loop` on any number of commands. What the
-- client's `snprintf` makes of a `%` without an argument is a parameter, `conversion`. The loop
-- of the daemon's `main` runs on the list of what `select` reports, with what is then received.
--
-- Not modelled: closing the sockets and the netfilter and netlink handles, which are system calls only;
-- the prompts of the command line client and the debug output; the functions that
-- libmeshias/libmeshias.h declares and nothing defines; the copies of the Linux kernel's list and
-- red-black tree and of libnetfilter_queue (libnetfilter_queue.c, libipq_compat.c), whose calls are
-- parameters; and the copies of the daemon's files in libmeshias.
pub mod Base
pub mod Act
pub mod Word
pub mod Time
pub mod Config
pub mod Alarm
pub mod Route
pub mod State
pub mod RoutingTable
pub mod PacketsFifo
pub mod RreqFifo
pub mod Packet
pub mod Logic
pub mod Nfqueue
pub mod Daemon
pub mod Comm
pub mod Tools
pub mod Connection
pub mod Loop
pub mod Invariant
pub mod Tests
