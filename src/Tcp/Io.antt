-- ===== src/Tcp/Io.antt =====
-- The IO events of a TCP link, tcp.c: tcp_try_write, tcp_dispatch_io_send, tcp_dispatch_io_recv,
-- tcp_dispatch_io_connected, tcp_dispatch_io_exception and tcp_dispatch_io_event.
pub mod Balance
pub mod Receiving
use swnet_win.Base.{
  ℕ, ltb, ◌^◌, ℤ, pos, minus_one, is_neg, Bool, true, false, Option, none, some, List, [], ◌∷◌,
  ◌==◌, ◌||◌,
}
use swnet_win.Types.{PktType, proto_tcp, send, recv, syn, connect, virtual_heap, Packet}
use swnet_win.Packets.{allocate_packet, freepkt, asio_tcp_send, asio_tcp_recv, learn_local_addr}
use swnet_win.Links.{ncb_post_connected}
use swnet_win.Tcp.Recv.{Received, recv_unpack, tcp_recv_buffer_size}
use swnet_win.Tcp.Send.{try_write_locked, release_pending}
use swnet_win.Tcp.Object.{tcprefr}
use swnet_win.Tcp.Accept.{tcp_shutdown_by_packet, tcp_dispatch_io_syn}
use swnet_win.Options.{so_update_connect_context}
use swnet_win.World.{
  on_option, M, U, return, when◌then◌else◌, ◌>>=◌, ◌>>◌, emit, lock_entered, lock_left, notified,
  receive, setsockopt, getpeername, objdefr, objclos, get_ncb, put_ncb, syscall, address, ask,
}

-- STATUS_REMOTE_DISCONNECT, STATUS_CONNECTION_DISCONNECTED and STATUS_CONNECTION_RESET
abbrev pub is_disconnect : ℕ → Bool
is_disconnect status = status == 0xC000013C || (status == 0xC000020C || status == 0xC000020D)

-- `kSend == packet->type_`
abbrev pub is_send : PktType → Bool
is_send send = true
is_send _ = false

-- NT_SUCCESS, on an NTSTATUS as a 32-bit word
abbrev pub nt_success : ℕ → Bool
nt_success status = ltb status (2 ^ 31)

-- The callbacks of one completed request, in order.
pub notify_all : ℤ → List Received → M U
notify_all h [] = return tt
notify_all h (e ∷ es) = do emit (notified h (receive e)); notify_all h es

-- The peer's address, once SO_UPDATE_CONNECT_CONTEXT is set.
pub update_remote_addr : ℤ → M U
update_remote_addr h = do
  updated ← syscall (setsockopt so_update_connect_context 0)
  when is_neg updated then return tt else (do
    got ← syscall getpeername
    peer ← address
    ncb ← get_ncb h
    when is_neg got then return tt else put_ncb h (record ncb { remote_addr = peer }))

module _ (inited : Bool) where
  -- tcp_try_write, after the critical section
  pub send_next : ℤ → Option Packet → M ℤ
  send_next retval none = return retval
  send_next retval (some next_packet) = do
    sent ← asio_tcp_send next_packet
    when is_neg sent then tcp_shutdown_by_packet inited next_packet else return tt
    return (pos 0)

  -- tcp_try_write. What the other threads do meanwhile is an answer of the environment.
  pub tcp_try_write : ℤ → Option Packet → M ℤ
  tcp_try_write h packet = do
    emit (lock_entered h)
    ncb ← get_ncb h
    others ← (λ env w. (env.interference w.history, w))
    on_option (try_write_locked others ncb packet) (return minus_one)
        (λ r. do put_ncb h r.ncb; emit (lock_left h); send_next r.retval r.next_packet)

  -- tcp_dispatch_io_send
  pub tcp_dispatch_io_send : Packet → M U
  tcp_dispatch_io_send packet =
      when packet.size_for_translation == 0 then tcp_shutdown_by_packet inited packet else (do
        found ← tcprefr packet.link
        when is_neg found then freepkt packet else (do
          ncb ← get_ncb packet.link
          put_ncb packet.link (release_pending ncb)
          tcp_try_write packet.link none
          freepkt packet
          objdefr packet.link))

  -- tcp_dispatch_io_recv, once the link is referenced
  pub recv_referenced : Packet → M U
  recv_referenced packet = do
    ncb ← get_ncb packet.link
    mask ← ask (λ env. env.linkattr_tcp_fully_receive)
    blocks ←
        (λ env w. (λ n. elim (env.malloc w.history n) [ none ↦ none | some b ↦ some b.bytes ], w))
    elim (recv_unpack blocks mask ncb packet) [
      | none ↦ return tt
      | some out ↦ do
        put_ncb packet.link out.ncb
        notify_all ncb.hld out.events
        retval ← (when is_neg out.retval then return out.retval else asio_tcp_recv out.packet)
        when is_neg retval then (do objclos out.ncb.hld; freepkt out.packet) else return tt
        objdefr out.ncb.hld
    ]

  -- tcp_dispatch_io_recv
  pub tcp_dispatch_io_recv : Packet → M U
  tcp_dispatch_io_recv packet =
      when packet.size_for_translation == 0 then tcp_shutdown_by_packet inited packet else (do
        found ← tcprefr packet.link
        when is_neg found then freepkt packet else recv_referenced packet)

  -- tcp_dispatch_io_connected, the first request for data; `true` is success
  pub connected_recv : ℤ → M Bool
  connected_recv h = do
    ncb ← get_ncb h
    packet_recv ← allocate_packet ncb.hld proto_tcp recv tcp_recv_buffer_size virtual_heap
    on_option packet_recv (return false) (λ p. do
      retval ← asio_tcp_recv p
      when is_neg retval then (do tcp_shutdown_by_packet inited p; return false) else return true)

  -- tcp_dispatch_io_connected; `ntohl` is the byte swap of the system's library
  pub tcp_dispatch_io_connected : (ℕ → ℕ) → Packet → M U
  tcp_dispatch_io_connected ntohl packet_connect = do
    found ← tcprefr packet_connect.link
    when is_neg found then freepkt packet_connect else (do
      freepkt packet_connect
      learn_local_addr packet_connect.link ntohl
      update_remote_addr packet_connect.link
      receiving ← connected_recv packet_connect.link
      ncb ← get_ncb packet_connect.link
      when receiving
          then (do ncb_post_connected ncb; objdefr ncb.hld)
          else (do objdefr ncb.hld; objclos ncb.hld))

  -- tcp_dispatch_io_exception. A send that failed for another reason makes room for the next one.
  pub tcp_dispatch_io_exception : Packet → ℕ → M U
  tcp_dispatch_io_exception packet status = do
    found ← tcprefr packet.link
    when is_neg found then freepkt packet else (do
      when is_send packet.type
          then when is_disconnect status then tcp_shutdown_by_packet inited packet else (do
            ncb ← get_ncb packet.link
            put_ncb packet.link (release_pending ncb)
            freepkt packet
            tcp_try_write packet.link none
            return tt)
          else tcp_shutdown_by_packet inited packet
      ncb ← get_ncb packet.link
      objdefr ncb.hld)

  -- tcp_dispatch_io_event. An NTSTATUS is a success if its sign bit is clear.
  unfoldable pub tcp_dispatch_io_event : Bool → (ℕ → ℕ) → Packet → ℕ → M U
  tcp_dispatch_io_event known ntohl packet status =
      when nt_success status
      then elim packet.type [
        | syn ↦ tcp_dispatch_io_syn inited known packet
        | recv ↦ tcp_dispatch_io_recv packet
        | send ↦ tcp_dispatch_io_send packet
        | connect ↦ tcp_dispatch_io_connected ntohl packet
        | _ ↦ return tt
      ]
      else tcp_dispatch_io_exception packet status
