-- ===== src/Udp/Io.antt =====
-- The IO events of a UDP link, udp.c: udp_shutdown_by_packet, udp_dispatch_io_recv,
-- udp_dispatch_io_send, udp_dispatch_io_exception and udp_dispatch_io_event.
pub mod Balance
use swnet_win.Base.{
  ℕ, ◌==◌, ◌||◌, not, is_neg, Bool, none, some, List, [], take, drop, if◌then◌else◌,
}
use swnet_win.Types.{send, recv, Packet, Ncb}
use swnet_win.Packets.{freepkt, asio_udp_recv}
use swnet_win.Tcp.Io.{nt_success}
use swnet_win.Udp.Object.{udprefr}
use swnet_win.World.{
  M, U, return, when◌then◌else◌, ◌>>=◌, ◌>>◌, inet_ntop, receive_from, notify, objdefr, objclos,
  get_ncb, syscall, Datagram,
}

-- udp_shutdown_by_packet
unfoldable pub udp_shutdown_by_packet : Packet → M U
udp_shutdown_by_packet packet = do objclos packet.link; freepkt packet

-- The bytes at `irp_`, as many as the callback is told.
pub irp_bytes : Packet → List ℕ
irp_bytes packet = elim packet.ori_buffer [
  | none ↦ []
  | some b ↦ elim packet.irp [
    | none ↦ []
    | some o ↦ take packet.size_for_translation (drop o b.bytes)
  ]
]

-- udp_dispatch_io_recv, the event. `shown` is whether inet_ntop gave the address.
pub received_event : (ℕ → ℕ) → Packet → Bool → Datagram
received_event ntohs packet shown = record {
  link = packet.link;
  size = packet.size_for_translation;
  bytes = irp_bytes packet;
  remote_port = ntohs packet.remote_addr.port;
  remote_address = if shown then some packet.remote_addr.addr else none;
}

-- udp_dispatch_io_recv, the callback
unfoldable pub udp_notify : (ℕ → ℕ) → Packet → Ncb → M U
udp_notify ntohs packet ncb =
    when ncb.nis_callback
    then (do
      text ← syscall inet_ntop
      notify ncb (receive_from (received_event ntohs packet (not (is_neg text)))))
    else return tt

-- The request for the next datagram, with the same packet; its result does not count.
unfoldable pub recv_again : Packet → M U
recv_again packet = do asio_udp_recv (record packet { size_for_translation = 0 }); return tt

-- udp_dispatch_io_recv
unfoldable pub udp_dispatch_io_recv : (ℕ → ℕ) → Packet → M U
udp_dispatch_io_recv ntohs packet = do
  found ← udprefr packet.link
  when is_neg found then return tt else (do
    ncb ← get_ncb packet.link
    udp_notify ntohs packet ncb
    recv_again packet
    after ← get_ncb packet.link
    objdefr after.hld)

-- udp_dispatch_io_send
unfoldable pub udp_dispatch_io_send : Packet → M U
udp_dispatch_io_send packet = freepkt packet

-- STATUS_PORT_UNREACHABLE, STATUS_PROTOCOL_UNREACHABLE and STATUS_HOST_UNREACHABLE
abbrev pub is_unreachable : ℕ → Bool
is_unreachable status = status == 0xC000023F || (status == 0xC000023E || status == 0xC000023D)

-- udp_dispatch_io_exception
unfoldable pub udp_dispatch_io_exception : Packet → ℕ → M U
udp_dispatch_io_exception packet status = do
  found ← udprefr packet.link
  when is_neg found then return tt else (do
    when is_unreachable status then recv_again packet else udp_shutdown_by_packet packet
    ncb ← get_ncb packet.link
    objdefr ncb.hld)

-- udp_dispatch_io_event
unfoldable pub udp_dispatch_io_event : (ℕ → ℕ) → Packet → ℕ → M U
udp_dispatch_io_event ntohs packet status =
    when nt_success status
    then when packet.size_for_translation == 0
      then udp_shutdown_by_packet packet
      else elim packet.type [
        | recv ↦ udp_dispatch_io_recv ntohs packet
        | send ↦ udp_dispatch_io_send packet
        | _ ↦ return tt
      ]
    else udp_dispatch_io_exception packet status
