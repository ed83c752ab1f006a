-- ===== src/Tcp/References.antt =====
-- The references of every link across the handlers of tcp.c.
use swnet_win.Base.{ℕ, ℤ, Bool}
use swnet_win.Types.{Packet}
use swnet_win.World.{Env, World}
use swnet_win.Ledger.{KnowsHandles, KeepsRefs}
use swnet_win.Ledger.Held.{Allocates, Holds-KeepsRefs}
use swnet_win.Packets.{asio_tcp_accept}
use swnet_win.Packets.Balance.{asio_tcp_accept-Holds}
use swnet_win.Tcp.Object.{TcpInit, tcp_allocate_object}
use swnet_win.Tcp.Object.Balance.{tcp_allocate_object-Holds}
use swnet_win.Tcp.Accept.{tcp_dispatch_io_syn, tcp_syn, tcp_shutdown_by_packet}
use swnet_win.Tcp.Accept.Balance.{
  tcp_dispatch_io_syn-Holds, tcp_syn-Holds, tcp_shutdown_by_packet-Holds,
}
use swnet_win.Tcp.Io.{tcp_dispatch_io_connected, tcp_dispatch_io_send, tcp_dispatch_io_exception}
use swnet_win.Tcp.Io.Balance.{
  tcp_dispatch_io_connected-Holds, tcp_dispatch_io_send-Holds, tcp_dispatch_io_exception-Holds,
}

module _ (env : Env) (allocates : Allocates env) (inited : Bool) (w : World)
    (known : KnowsHandles w) (h : ℤ) where
  -- tcp_dispatch_io_send gives back the references of every link as often as it takes them, on
  -- every branch: no bytes sent, a link that is gone, and a next packet that is sent, refused by
  -- the system, or not there. The object manager gives an object for a handle that it has just
  -- allocated, and control blocks know their handles.
  pub tcp_dispatch_io_send-KeepsRefs :
      (packet : Packet) → KeepsRefs h w (tcp_dispatch_io_send inited packet env w).1
  tcp_dispatch_io_send-KeepsRefs packet =
      Holds-KeepsRefs w h (tcp_dispatch_io_send-Holds allocates inited packet) known

  -- tcp_dispatch_io_exception gives back the references of every link as often as it takes them,
  -- for every type of packet and every status. The object manager gives an object for a handle that
  -- it has just allocated, and control blocks know their handles.
  pub tcp_dispatch_io_exception-KeepsRefs :
      (packet : Packet) (status : ℕ)
      → KeepsRefs h w (tcp_dispatch_io_exception inited packet status env w).1
  tcp_dispatch_io_exception-KeepsRefs packet status =
      Holds-KeepsRefs w h (tcp_dispatch_io_exception-Holds allocates inited packet status) known

  -- tcp_syn, with all its rounds, gives back the references of every link as often as it takes
  -- them, the links that it allocates included. The object manager gives an object for a handle
  -- that it has just allocated, and control blocks know their handles.
  pub tcp_syn-KeepsRefs : (listen : ℤ) → KeepsRefs h w (tcp_syn inited listen env w).1
  tcp_syn-KeepsRefs listen = Holds-KeepsRefs w h (tcp_syn-Holds allocates inited listen) known

  -- tcp_shutdown_by_packet gives back the references of every link as often as it takes them, for
  -- every type of packet, also when an accept request is posted again. The object manager gives an
  -- object for a handle that it has just allocated, and control blocks know their handles.
  pub tcp_shutdown_by_packet-KeepsRefs :
      (packet : Packet) → KeepsRefs h w (tcp_shutdown_by_packet inited packet env w).1
  tcp_shutdown_by_packet-KeepsRefs packet =
      Holds-KeepsRefs w h (tcp_shutdown_by_packet-Holds allocates inited packet) known

  -- tcp_allocate_object gives back the references of every link as often as it takes them, whether
  -- the socket, the binding or the attachment fails or not. The object manager gives an object for
  -- a handle that it has just allocated, and control blocks know their handles.
  pub tcp_allocate_object-KeepsRefs :
      (ctx : TcpInit) → KeepsRefs h w (tcp_allocate_object inited ctx env w).1
  tcp_allocate_object-KeepsRefs ctx =
      Holds-KeepsRefs w h (tcp_allocate_object-Holds allocates inited ctx) known

  -- tcp_dispatch_io_syn gives back the references of every link as often as it takes them, those of
  -- the listening link and of the accepted link included, on every branch: either link gone, the
  -- context not copied, no request for data, no further accept request. The object manager gives an
  -- object for a handle that it has just allocated, and control blocks know their handles.
  pub tcp_dispatch_io_syn-KeepsRefs :
      (found : Bool) (packet : Packet)
      → KeepsRefs h w (tcp_dispatch_io_syn inited found packet env w).1
  tcp_dispatch_io_syn-KeepsRefs found packet =
      Holds-KeepsRefs w h (tcp_dispatch_io_syn-Holds allocates inited found packet) known

  -- tcp_dispatch_io_connected gives back the references of every link as often as it takes them, on
  -- every branch. The object manager gives an object for a handle that it has just allocated, and
  -- control blocks know their handles.
  pub tcp_dispatch_io_connected-KeepsRefs :
      (ntohl : ℕ → ℕ) (packet : Packet)
      → KeepsRefs h w (tcp_dispatch_io_connected inited ntohl packet env w).1
  tcp_dispatch_io_connected-KeepsRefs ntohl packet =
      Holds-KeepsRefs w h (tcp_dispatch_io_connected-Holds allocates inited ntohl packet) known

module _ (env : Env) (w : World) (known : KnowsHandles w) (h : ℤ) where
  -- asio_tcp_accept gives back the references of every link as often as it takes them, on every
  -- branch. Control blocks know their handles.
  asio_tcp_accept-KeepsRefs : (packet : Packet) → KeepsRefs h w (asio_tcp_accept packet env w).1
  asio_tcp_accept-KeepsRefs packet = Holds-KeepsRefs w h (asio_tcp_accept-Holds packet) known
