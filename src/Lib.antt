-- ===== src/Lib.antt =====
-- swnet-win32: TCP and UDP links over IO completion ports, tcp.c, udp.c, packet.c, ncb.c, io.c, os.c,
-- network.c, mxx.c and arp.c. A link is a control block (ncb_t) behind a handle of a reference counted
-- object manager. A request is a packet (packet_t) that the system holds until it completes; an IO
-- thread (__iorun) then hands it through so_dispatch_io_event to the handler of its protocol,
-- tcp_dispatch_io_event or udp_dispatch_io_event, which hands data to the user's callback, starts the
-- next request and closes the link on failure.
--
-- The files, and what they model:
--   Types           packet_t, ncb_t, tst_t and the enums: packet.h, ncb.h, network.h
--   Tcp/Recv        the receive path of tcp.c (tcp_prase_logic_packet, tcp_lb_assemble and the part of
--                   tcp_dispatch_io_recv around them), with ncb_mark_lb and ncb_unmark_lb of ncb.c
--   Tcp/Recv/Spec   the reference for it: a byte stream cut into packets, with no buffers
--   Tcp/Send        the critical section of tcp_try_write; Tcp/Send/History is the link as a step
--                   relation, for any interleaving of its threads
--   World           what the handlers run in: the control blocks by handle, the history of all calls, and
--                   what the code outside answers
--   Packets         packet.c; Links: ncb_init and ncb_post_* of ncb.c, ioatth and ioclose of io.c
--   Options         the socket options of ncb.c and tcp.c
--   Ledger          what a history says of references, packets and blocks; Ledger/Held has the rules with
--                   which the Balance modules follow the references of a handler through its code
--   Tcp/Object, Tcp/Accept, Tcp/Io, Tcp/Write, Tcp/Api
--                   the rest of tcp.c: objects, accepting, IO events, tcp_write, the user's calls
--   Tcp/References  the references across whole handlers
--   Tcp/Delivery    from the frames of tcp_write to the callbacks of the receive path
--   Udp/Object, Udp/Io, Udp/Tx, Udp/Group, Udp/Api
--                   udp.c: objects and udp_create, IO events, udp_write, groups of packets, the other
--                   calls of the user; Udp/Tx/Wire is about the bytes that sendto takes
--   Pipe            tcp_awaken and udp_awaken, and io_get_pipefd of io.c
--   Io              the IO threads of io.c: ioinit and iouninit
--   Network         network.c, and __iorun of io.c; Network/Startup is so_init and so_uninit in any order
--   Mxx             mxx.c: contexts, masks, nis_cntl
--   Mxx/Hosts       the queries of mxx.c on names and network cards; Arp: arp.c
--   Os              os.c: locked pages; Os/Loop is about its loop, Os/Pages counts them
--   Tests           concrete links and runs, at which the theorems are applied
--
-- The receive path is written as functions into Option: `none` is undefined behaviour (a copy outside a
-- block, a NULL buffer, a failed assertion) or a loop that outruns its fuel. The loop of
-- tcp_prase_logic_packet runs on one unit of fuel more than there are bytes, and each round takes at
-- least a header. The loop of __udp_tx_single_packet has no bound of its own, since sendto may be
-- interrupted for ever: its fuel is enough when it exceeds the size of the message and the number of
-- calls after which no interruption comes, together. So is the fuel of the loop of
-- os_lock_virtual_pages, with the number of calls after which the working set is large enough. The handlers run in a monad over World. The
-- allocator, Winsock, the object manager, posix__atomic_initial_* and the user's callbacks are outside
-- the repository: what they answer is an argument, a function of the history. The loop of tcp_syn has its
-- own bound, 151 rounds, and the loop that claims the right to send is a recursion on the completions
-- that come between its steps. __iorun is a recursion on the completions that its thread gets.
--
-- A handler is one step: a callback that calls back into the link, and two IO threads inside handlers of
-- the same link, are modelled for the send path alone. Sizes of headers, backlogs and user contexts are
-- natural numbers, and options of sockets are numbers that tell them apart. The contents of a socket
-- address that was never set are zero. The memory of large blocks is not in the ledger. A user context
-- that is copied or freed after it was freed is undefined behaviour in mxx.c; other blocks are not
-- followed in this way. A packet in
-- locked pages gets them as an answer of the environment, `lock_pages`, and not from Os. Texts of addresses
-- and names are the answers of the functions that read them. Not modelled: logging (nis_call_ecr). The
-- object manager is a library outside the repository.
pub mod Base
pub mod Types
pub mod Tcp
pub mod World
pub mod Packets
pub mod Links
pub mod Options
pub mod Udp
pub mod Pipe
pub mod Io
pub mod Network
pub mod Mxx
pub mod Os
pub mod Arp
pub mod Ledger
pub mod Tests
