-- ===== src/Packets/Ownership.antt =====
-- Who owns a packet after each function of packet.c, and what it does to the references.
use swnet_win.Base.{ℕ, suc, ◌+◌, ℤ, pos, minus_one, ◌≡◌, Option, none, some, ◌⊎◌, arith}
use swnet_win.Types.{ProtoType, PktType, PageStyle, Packet}
use swnet_win.World.{Env, World, ◌>>=◌, ◌>>◌, when◌then◌else◌, on_option}
use swnet_win.Ledger.{made, freed, in_system, KnowsHandles, KeepsRefs}
use swnet_win.Packets.{
  packet_buffer, allocate_packet, freepkt, submitted, submitted_bool, on_link, asio_tcp_send,
  asio_tcp_recv, asio_udp_recv, asio_tcp_connect,
}

-- A call that hands a packet to the system or reports -1: no reference is kept, no packet is
-- allocated or freed, and the control blocks stay as they are.
pub record Posts (h : ℤ) (w : World) (r : ℤ × World) : Type 0 where
  pub refs : KeepsRefs h w r.1
  pub freed_same : freed r.1.history ≡ freed w.history
  pub made_same : made r.1.history ≡ made w.history
  pub ncbs_same : r.1.ncbs ≡ w.ncbs
  pub owner :
      ((r.0 ≡ pos 0) × (in_system r.1.history ≡ suc (in_system w.history)))
      ⊎ ((r.0 ≡ minus_one) × (in_system r.1.history ≡ in_system w.history))

-- One packet, if there is one.
abbrev pub is_made : Option Packet → ℕ
is_made none = 0
is_made (some p) = 1

module _ (env : Env) (w : World) (h : ℤ) where
  -- freepkt frees one packet structure, makes none, hands none to the system, and leaves the
  -- references balanced.
  freepkt-once :
      (p : Packet)
      → let w' = (freepkt p env w).1 in
        (freed w'.history ≡ suc (freed w.history))
        × (made w'.history ≡ made w.history)
        × (in_system w'.history ≡ in_system w.history)
        × KeepsRefs h w w'
  unfolding freepkt ◌>>=◌ ◌>>◌ when◌then◌else◌ on_option
  freepkt-once p = ground arith

  -- allocate_packet leaves the references balanced and hands nothing to the system, and the packet
  -- structures made and not freed grow by one when it gives a packet, and not at all when it gives
  -- none.
  pub allocate_packet-owned :
      (k : ℤ) (proto : ProtoType) (type : PktType) (cb : ℕ) (style : PageStyle)
      → let r = allocate_packet k proto type cb style env w in
        KeepsRefs h w r.1
        × (in_system r.1.history ≡ in_system w.history)
        × (made r.1.history + freed w.history ≡ is_made r.0 + (made w.history + freed r.1.history))
  unfolding allocate_packet packet_buffer ◌>>=◌ ◌>>◌ when◌then◌else◌ on_option
  allocate_packet-owned k proto type cb style = ground arith

module _ (env : Env) (w : World) (known : KnowsHandles w) (h : ℤ) where
  -- asio_tcp_send either reports 0 with the packet handed to the system once, or -1 with nothing
  -- handed over; on every branch the references are balanced, no packet is made or freed, and the
  -- control blocks stay as they are. Control blocks know their handles.
  asio_tcp_send-Posts : (p : Packet) → Posts h w (asio_tcp_send p env w)
  unfolding asio_tcp_send on_link submitted ◌>>=◌ ◌>>◌ when◌then◌else◌ on_option
  asio_tcp_send-Posts p = ground (arith, known p.link)

  -- asio_tcp_recv either reports 0 with the packet handed to the system once, or -1 with nothing
  -- handed over; on every branch the references are balanced, no packet is made or freed, and the
  -- control blocks stay as they are. Control blocks know their handles.
  asio_tcp_recv-Posts : (p : Packet) → Posts h w (asio_tcp_recv p env w)
  unfolding asio_tcp_recv on_link submitted ◌>>=◌ ◌>>◌ when◌then◌else◌ on_option
  asio_tcp_recv-Posts p = ground (arith, known p.link)

  -- asio_udp_recv either reports 0 with the packet handed to the system once, or -1 with nothing
  -- handed over; on every branch the references are balanced, no packet is made or freed, and the
  -- control blocks stay as they are. Control blocks know their handles.
  asio_udp_recv-Posts : (p : Packet) → Posts h w (asio_udp_recv p env w)
  unfolding asio_udp_recv on_link submitted ◌>>=◌ ◌>>◌ when◌then◌else◌ on_option
  asio_udp_recv-Posts p = ground (arith, known p.link)

  -- asio_tcp_connect either reports 0 with the packet handed to the system once, or -1 with nothing
  -- handed over; on every branch, a missing extension function included, the references are
  -- balanced, no packet is made or freed, and the control blocks stay as they are. Control blocks
  -- know their handles.
  asio_tcp_connect-Posts : (p : Packet) → Posts h w (asio_tcp_connect p env w)
  unfolding asio_tcp_connect on_link submitted_bool ◌>>=◌ ◌>>◌ when◌then◌else◌ on_option
  asio_tcp_connect-Posts p = ground (arith, known p.link)

  -- asio_tcp_send, asio_tcp_recv, asio_udp_recv and asio_tcp_connect each either report 0 with the
  -- packet handed to the system once, or -1 with nothing handed over; on every branch the
  -- references are balanced, no packet is made or freed, and the control blocks stay as they are.
  -- Control blocks know their handles.
  pub asio-Posts :
      (p : Packet)
      → Posts h w (asio_tcp_send p env w)
        × Posts h w (asio_tcp_recv p env w)
        × Posts h w (asio_udp_recv p env w)
        × Posts h w (asio_tcp_connect p env w)
  asio-Posts p = (
    asio_tcp_send-Posts p,
    asio_tcp_recv-Posts p,
    asio_udp_recv-Posts p,
    asio_tcp_connect-Posts p,
  )
