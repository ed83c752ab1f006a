-- ===== src/Network.antt =====
-- The socket layer, network.c: so_init, so_uninit, so_create, so_bind, and the dispatch of a
-- completed packet; and the loop of an IO thread, __iorun of io.c.
pub mod Startup
pub mod References
pub mod Pipes
use swnet_win.Base.{
  ℕ, ◌==◌, ◌^◌, ◌-◌, ℤ, pos, minus_one, is_neg, Bool, true, false, ◌||◌, Option, none, some, List,
  [], ◌∷◌, increment, decrement, if◌then◌else◌,
}
use swnet_win.Types.{
  ProtoType, proto_unknown, proto_ip, proto_udp, proto_tcp, proto_pipe, Packet, Ncb,
}
use swnet_win.Packets.{freepkt}
use swnet_win.Links.{ncb_post_pipedata}
use swnet_win.Io.{Atomic, IoState, ioinit, iouninit}
use swnet_win.Tcp.Io.{tcp_dispatch_io_event}
use swnet_win.Udp.Io.{udp_dispatch_io_event}
use swnet_win.World.{
  M, U, return, when◌then◌else◌, on_option, ◌>>=◌, ◌>>◌, wsa_startup, wsa_cleanup, obj_init,
  obj_uninit, wsa_socket, wsa_bind, objrefr, get_ncb, syscall,
}

-- `__so_startup` and `__so_protocol_initialized`, with what io.c keeps.
pub record Sockets : Type 0 where
  pub startup : ℕ
  pub initialized : ProtoType → Bool
  pub io : IoState

abbrev same_proto : ProtoType → ProtoType → Bool
same_proto proto_unknown proto_unknown = true
same_proto proto_ip proto_ip = true
same_proto proto_udp proto_udp = true
same_proto proto_tcp proto_tcp = true
same_proto proto_pipe proto_pipe = true
same_proto _ _ = false

abbrev pub set_flag : ProtoType → Bool → Sockets → Sockets
set_flag proto b s = record s {
  initialized = λ k. if same_proto k proto then b else s.initialized k;
}

-- so_init: the flag of the protocol. That of TCP is set only where it is set.
unfoldable pub set_initialized : ProtoType → Sockets → Sockets
set_initialized proto s = elim proto [
  | proto_tcp ↦ if s.initialized proto_tcp then set_flag proto_tcp true s else s
  | proto_udp ↦ if s.initialized proto_udp then s else set_flag proto_udp true s
  | _ ↦ s
]

-- so_init
unfoldable pub so_init : Atomic → ProtoType → Sockets → M (ℤ × Sockets)
so_init atomic proto s =
    let startup = increment s.startup in
    when startup == 1
    then (do
      started ← syscall wsa_startup
      when is_neg started then return (minus_one, record s { startup = decrement startup }) else (do
        r ← ioinit atomic s.io
        when is_neg r.0
            then (do
              syscall wsa_cleanup
              return (minus_one, record s { startup = decrement startup; io = r.1 }))
            else (do
              syscall obj_init
              return (pos 0, set_initialized proto (record s { startup = startup; io = r.1 })))))
    else return (pos 0, set_initialized proto (record s { startup = decrement startup }))

-- so_uninit: whether the flag of some protocol is set
unfoldable pub any_initialized : Sockets → Bool
any_initialized s =
    s.initialized proto_ip
    || (s.initialized proto_udp || (s.initialized proto_tcp || s.initialized proto_pipe))

-- so_uninit, once the protocol is one of the two
unfoldable pub uninit_protocol : Atomic → ProtoType → Sockets → M Sockets
uninit_protocol atomic proto s =
    let cleared = set_flag proto false s in
    when any_initialized cleared then return cleared else (do
      syscall obj_uninit
      io ← iouninit atomic cleared.io
      syscall wsa_cleanup
      return (record cleared { io = io }))

-- so_uninit
unfoldable pub so_uninit : Atomic → ProtoType → Sockets → M Sockets
so_uninit atomic proto s = elim proto [
  | proto_tcp ↦ uninit_protocol atomic proto_tcp s
  | proto_udp ↦ uninit_protocol atomic proto_udp s
  | _ ↦ return s
]

-- tcp_init, tcp_uninit, udp_init and udp_uninit
pub tcp_init : Atomic → Sockets → M (ℤ × Sockets)
tcp_init atomic s = so_init atomic proto_tcp s

pub tcp_uninit : Atomic → Sockets → M Sockets
tcp_uninit atomic s = so_uninit atomic proto_tcp s

pub udp_init : Atomic → Sockets → M (ℤ × Sockets)
udp_init atomic s = so_init atomic proto_udp s

pub udp_uninit : Atomic → Sockets → M Sockets
udp_uninit atomic s = so_uninit atomic proto_udp s

-- so_create and so_bind; a socket is `none` for INVALID_SOCKET
pub so_create : M ℤ
so_create = syscall wsa_socket

pub so_bind : Option ℕ → M ℤ
so_bind none = return minus_one
so_bind (some s) = syscall wsa_bind

-- so_dispatch_pipe_event. The reference is not given back.
unfoldable pub so_dispatch_pipe_event : Packet → M U
so_dispatch_pipe_event packet = do
  found ← objrefr packet.link
  when found
      then (do ncb ← get_ncb packet.link; ncb_post_pipedata ncb packet.size_for_translation)
      else return tt
  freepkt packet

module _ (inited known : Bool) (ntohs ntohl : ℕ → ℕ) where
  -- so_dispatch_io_event, for a packet, the bytes of its transfer, and its NTSTATUS
  unfoldable pub so_dispatch_io_event : Option Packet → ℕ → ℕ → M U
  so_dispatch_io_event pOvlp transfer_bytes status = on_option pOvlp (return tt) (λ p.
      let packet : Packet = record p { size_for_translation = transfer_bytes } in
      elim p.proto_type [
        | proto_udp ↦ udp_dispatch_io_event ntohs packet status
        | proto_tcp ↦ tcp_dispatch_io_event inited known ntohl packet status
        | proto_pipe ↦ so_dispatch_pipe_event packet
        | _ ↦ return tt
      ])

-- What GetQueuedCompletionStatus gives: its result, and through its pointers the bytes and the
-- packet, with the NTSTATUS in it.
pub record Completion : Type 0 where
  pub successful : Bool
  pub ovlp : Option Packet
  pub bytes_transfered : ℕ
  pub status : ℕ

-- IOCP_INVALID_SIZE_TRANSFER
abbrev pub iocp_invalid_size_transfer : ℕ
iocp_invalid_size_transfer = 2 ^ 32 - 1

module _ (inited known : Bool) (ntohs ntohl : ℕ → ℕ) where
  -- __iorun, on the completions that the thread gets, in order; `true` is that it ended, `false` that
  -- it waits for the next one.
  unfoldable pub iorun : List Completion → M Bool
  iorun [] = return false
  iorun (c ∷ cs) =
      when c.successful
      then when c.bytes_transfered == iocp_invalid_size_transfer then return true else (do
        so_dispatch_io_event inited known ntohs ntohl c.ovlp c.bytes_transfered c.status
        iorun cs)
      else (do
        on_option c.ovlp (return tt) (λ p.
            so_dispatch_io_event inited known ntohs ntohl (some p) c.bytes_transfered c.status)
        iorun cs)
