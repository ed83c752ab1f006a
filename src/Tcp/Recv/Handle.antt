-- ===== src/Tcp/Recv/Handle.antt =====
-- The receive path leaves the handle of a link alone: recv_unpack and what it calls, tcp.c and ncb.c.
use swnet_win.Base.{ℕ, zero, suc, ◌+◌, ℤ, ◌≡◌, Option, some, List, arith}
use swnet_win.Types.{Packet, Ncb, Block}
use swnet_win.Tcp.Recv.{
  Received, Unpacked, failed, ncb_unmark_lb, lb_complete, lb_append, lb_fill, tcp_lb_assemble,
  ncb_mark_lb, prase_finish, prase_large, prase_loop, prase_raw, tcp_prase_logic_packet, recv_parse,
  recv_unpack,
}

-- A stage that gives a result gives the link's handle.
abbrev pub Keeps : ℤ → Option Unpacked → Type 0
Keeps h o = (out : Unpacked) → o ≡ some out → out.ncb.hld ≡ h

lb_complete-Keeps :
    (ncb : Ncb) (packet : Packet) (lb : List ℕ) (buffer : Block) (u n : ℕ)
    → Keeps ncb.hld (lb_complete ncb packet lb buffer u n)
unfolding lb_complete ncb_unmark_lb
lb_complete-Keeps ncb packet lb buffer u n out e = ground (arith, e)

lb_append-Keeps :
    (ncb : Ncb) (packet : Packet) (lb : List ℕ) (buffer : Block)
    → Keeps ncb.hld (lb_append ncb packet lb buffer)
unfolding lb_append
lb_append-Keeps ncb packet lb buffer out e = ground (arith, e)

lb_fill-Keeps :
    (ncb : Ncb) (packet : Packet) (lb : List ℕ) (buffer : Block) (user_size : ℤ)
    → Keeps ncb.hld (lb_fill ncb packet lb buffer user_size)
unfolding lb_fill
lb_fill-Keeps ncb packet lb buffer user_size out e =
    grind (arith, lb_append-Keeps ncb packet lb buffer, lb_complete-Keeps ncb packet lb buffer, e)

tcp_lb_assemble-Keeps : (ncb : Ncb) (packet : Packet) → Keeps ncb.hld (tcp_lb_assemble ncb packet)
unfolding tcp_lb_assemble failed
tcp_lb_assemble-Keeps ncb packet out e = grind (arith, lb_fill-Keeps ncb packet, e)

module _ (malloc : ℕ → Option (List ℕ)) (mask : ℕ) where
  prase_large-Keeps :
      (ncb : Ncb) (packet : Packet) (b : Block) (useful offset : ℕ) (events : List Received)
      (total : ℕ)
      → Keeps ncb.hld (prase_large malloc mask ncb packet b useful offset events total)
  unfolding prase_large ncb_mark_lb failed
  prase_large-Keeps ncb packet b useful offset events total out e = ground (arith, e)

  prase_finish-Keeps :
      (ncb : Ncb) (packet : Packet) (b : Block) (useful offset : ℕ) (events : List Received)
      → Keeps ncb.hld (prase_finish malloc mask ncb packet b useful offset events)
  unfolding prase_finish
  prase_finish-Keeps ncb packet b useful offset events out e = ground (arith, e)

  prase_loop-Keeps :
      (fuel : ℕ) (ncb : Ncb) (packet : Packet) (b : Block) (useful offset : ℕ)
      (events : List Received)
      → Keeps ncb.hld (prase_loop malloc mask fuel ncb packet b useful offset events)
  unfolding prase_loop failed
  prase_loop-Keeps zero ncb packet b useful offset events out e = ground (arith, e)
  prase_loop-Keeps (suc fuel) ncb packet b useful offset events out e = grind (
    arith,
    prase_large-Keeps ncb packet b useful offset events,
    prase_finish-Keeps ncb packet b useful offset events,
    prase_loop-Keeps fuel ncb packet b,
    e,
  )

  tcp_prase_logic_packet-Keeps :
      (ncb : Ncb) (packet : Packet) → Keeps ncb.hld (tcp_prase_logic_packet malloc mask ncb packet)
  unfolding tcp_prase_logic_packet failed prase_raw
  tcp_prase_logic_packet-Keeps ncb packet out e = grind (
    arith,
    prase_loop-Keeps (suc (packet.analyzed_offset + packet.size_for_translation)) ncb packet,
    e,
  )

  recv_parse-Keeps :
      (ncb : Ncb) (packet : Packet) (before : List Received)
      → Keeps ncb.hld (recv_parse malloc mask ncb packet before)
  unfolding recv_parse
  recv_parse-Keeps ncb packet before out e =
      grind (arith, tcp_prase_logic_packet-Keeps ncb packet, e)

  -- The block that unpacks a completed request does not change the handle of the link.
  pub recv_unpack-Keeps :
      (ncb : Ncb) (packet : Packet) → Keeps ncb.hld (recv_unpack malloc mask ncb packet)
  unfolding recv_unpack
  recv_unpack-Keeps ncb packet out e =
      grind (arith, tcp_lb_assemble-Keeps ncb packet, recv_parse-Keeps, e)
