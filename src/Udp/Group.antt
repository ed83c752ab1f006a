-- ===== src/Udp/Group.antt =====
-- Groups of packets and the default peer of a UDP link, udp.c: udp_initialize_grp, udp_release_grp,
-- udp_raise_grp, udp_detach_grp and udp_write_grp.
pub mod Balance
pub mod Blocks
pub mod Peer
use swnet_win.Base.{
  ℕ, ◌*◌, ◌==◌, ◌||◌, ltb, ℤ, pos, minus_one, is_neg, is_nonpos, Bool, true, false, Option, none,
  some, List, [], ◌∷◌, length,
}
use swnet_win.Types.{SockAddr, proto_udp, send, no_access, Block, Packet, Ncb}
use swnet_win.Packets.{allocate_packet, freepkt, syio_v_connect, syio_v_disconnect, syio_grp_send}
use swnet_win.Udp.Object.{udprefr}
use swnet_win.World.{
  M, U, return, when◌then◌else◌, on_option, ◌>>=◌, ◌>>◌, inet_pton, objdefr, get_ncb, put_ncb,
  syscall, address, ask, allocate, release,
}

-- `packet_grp_t`: the items, as many as Count says. `block` is Data, `none` for NULL.
pub record Item : Type 0 where
  pub block : Option Block
  pub length : ℕ

-- udp_initialize_grp, the blocks. `true` is that every item has one; the items after the one that
-- stopped the loop keep what they held.
unfoldable pub fill_items : ℕ → List Item → M (Bool × List Item)
fill_items mtu [] = return (true, [])
fill_items mtu (item ∷ items) =
    when item.length == 0 || ltb mtu item.length then return (false, item ∷ items) else (do
      made ← allocate item.length
      on_option made (return (false, record item { block = none } ∷ items)) (λ b. do
        rest ← fill_items mtu items
        return (rest.0, record item { block = some b } ∷ rest.1)))

-- The loop of udp_release_grp and of the rollback: it frees up to the first item with no block.
unfoldable pub free_items : List Item → M (List Item)
free_items [] = return []
free_items (item ∷ items) = on_option item.block (return (item ∷ items)) (λ b. do
  release (some b)
  rest ← free_items items
  return (record item { block = none } ∷ rest))

-- udp_initialize_grp, once the link is referenced
unfoldable pub init_referenced : ℤ → List Item → M (ℤ × List Item)
init_referenced lnk items = do
  mtu ← ask (λ env. env.mtu)
  ncb ← get_ncb lnk
  r ←
      (when ncb.connected == 0 then return (minus_one, items) else (do
        filled ← fill_items mtu items
        when filled.0
            then return (pos 0, filled.1)
            else (do rolled_back ← free_items filled.1; return (minus_one, rolled_back))))
  objdefr ncb.hld
  return r

-- udp_initialize_grp; the group is `none` for NULL. Count is the number of items.
unfoldable pub udp_initialize_grp : ℤ → Option (List Item) → M (ℤ × List Item)
udp_initialize_grp lnk none = return (minus_one, [])
udp_initialize_grp lnk (some items) = when length items == 0 then return (minus_one, items) else (do
  found ← udprefr lnk
  when is_neg found then return (minus_one, items) else init_referenced lnk items)

-- udp_release_grp
unfoldable pub udp_release_grp : Option (List Item) → M (List Item)
udp_release_grp none = return []
udp_release_grp (some items) = free_items items

-- udp_raise_grp, once the peer's address is known. `connected_` holds its IP address, and not its port.
unfoldable pub raise_to : (ℕ → ℕ) → ℤ → Ncb → SockAddr → M ℤ
raise_to htonl lnk ncb r_addr =
    when ncb.connected == 0
    then (do
      retval ← syio_v_connect htonl lnk r_addr
      ready ← get_ncb lnk
      when is_neg retval
          then return retval
          else (do put_ncb lnk (record ready { connected = r_addr.addr }); return retval))
    else when ncb.connected == r_addr.addr
    then return (pos 0)
    else return minus_one

-- udp_raise_grp
unfoldable pub udp_raise_grp : (ℕ → ℕ) → (ℕ → ℕ) → ℤ → ℕ → M ℤ
udp_raise_grp htons htonl lnk r_port = do
  found ← udprefr lnk
  when is_neg found then return minus_one else (do
    ncb ← get_ncb lnk
    parsed ← syscall inet_pton
    given ← address
    let r_addr : SockAddr = record { port = htons r_port; addr = given.addr }
    retval ← (when is_nonpos parsed then return minus_one else raise_to htonl lnk ncb r_addr)
    after ← get_ncb lnk
    objdefr after.hld
    return retval)

-- udp_detach_grp
unfoldable pub udp_detach_grp : ℤ → M U
udp_detach_grp lnk = do
  found ← udprefr lnk
  when is_neg found then return tt else (do
    ncb ← get_ncb lnk
    when ncb.connected == 0 then return tt else (do syio_v_disconnect lnk; return tt)
    after ← get_ncb lnk
    objdefr after.hld)

-- udp_write_grp, with its packet. Where the elements cannot be allocated, the result is still that
-- of allocate_packet, 0. Either way the packet is freed.
unfoldable pub send_group : Bool → Packet → ℕ → M ℤ
send_group known packet count = do
  size ← ask (λ env. env.sizeof_element)
  elements ← allocate (size * count)
  retval ←
      on_option elements (return (pos 0))
        (λ e. syio_grp_send known (record packet { grp_packets = some e; grp_packets_cnt = count }))
  freepkt (record packet { grp_packets = elements; grp_packets_cnt = count })
  return retval

-- udp_write_grp. `known` says whether an earlier call has found the extension function.
unfoldable pub udp_write_grp : Bool → ℤ → Option (List Item) → M ℤ
udp_write_grp known lnk none = return minus_one
udp_write_grp known lnk (some items) = when length items == 0 then return minus_one else (do
  found ← udprefr lnk
  when is_neg found then return minus_one else (do
    ncb ← get_ncb lnk
    retval ←
        (when ncb.connected == 0 then return minus_one else (do
          packet ← allocate_packet lnk proto_udp send 0 no_access
          on_option packet (return minus_one) (λ p. send_group known p (length items))))
    after ← get_ncb lnk
    objdefr after.hld
    return retval))
