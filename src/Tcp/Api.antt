-- ===== src/Tcp/Api.antt =====
-- The calls of the user on a TCP link, tcp.c, but for tcp_write.
pub mod Settings
pub mod Balance
use swnet_win.Base.{
  ℕ, eq_ℤ, zero, suc, ◌+◌, ℤ, pos, negsuc, minus_one, is_neg, Bool, true, false, ◌||◌, not, Option,
  none, some, List, ltb, leb, ◌==◌, if◌then◌else◌, bit_and, bit_or, ◌-◌,
}
use swnet_win.Types.{
  proto_tcp, proto_pipe, recv, connect, pipe, no_access, virtual_heap, SockAddr, Block, Tst, Packet,
  Ncb,
}
use swnet_win.Packets.{allocate_packet, freepkt, asio_tcp_recv, asio_tcp_connect, learn_local_addr}
use swnet_win.Links.{ioclose, ncb_post_connected}
use swnet_win.Tcp.Recv.{tcp_recv_buffer_size}
use swnet_win.Tcp.Recv.Copy.{put}
use swnet_win.Tcp.Object.{tcprefr, TcpInit, tcp_allocate_object}
use swnet_win.Tcp.Accept.{tcp_syn}
use swnet_win.World.{
  Env, M, U, return, when◌then◌else◌, on_option, ◌>>=◌, ◌>>◌, emit, posted, wsa_listen, wsa_connect,
  setsockopt, getsockopt, inet_pton, post_iocp, objrefr, objreff, objdefr, get_ncb, put_ncb,
  syscall, address, ask, allocate, release,
}

-- A link of the right protocol, or the error of tcprefr.
unfoldable pub with_link : ℤ → (ℤ → ℤ) → (Ncb → M ℤ) → M ℤ
with_link lnk error body = do
  found ← tcprefr lnk
  when is_neg found then return (error found) else (do
    ncb ← get_ncb lnk
    retval ← body ncb
    after ← get_ncb lnk
    objdefr after.hld
    return retval)

-- tcp_settst
unfoldable pub tcp_settst : ℤ → Option Tst → M ℤ
tcp_settst lnk none = return minus_one
tcp_settst lnk (some tst) =
    with_link lnk (λ e. minus_one)
      (λ ncb. do put_ncb lnk (record ncb { tcp_tst = tst }); return (pos 0))

-- TCP_MAXIMUM_TEMPLATE_SIZE
abbrev pub tcp_maximum_template_size : ℕ
tcp_maximum_template_size = 32

-- tcp_settst_r: each field is exchanged and then set to what it held before.
pub tcp_settst_r : ℤ → Option Tst → M ℤ
tcp_settst_r link none = ask (λ env. negsuc env.einval)
tcp_settst_r link (some tst) =
    when ltb tcp_maximum_template_size tst.cb
    then ask (λ env. negsuc env.einval)
    else with_link link (λ e. e)
        (λ ncb. do
          put_ncb link (record ncb { tcp_tst = tst })
          put_ncb link (record ncb { tcp_tst = ncb.tcp_tst })
          return (pos 0))

-- tcp_gettst: the template that the link has
pub tcp_gettst : ℤ → M (ℤ × Option Tst)
tcp_gettst lnk = do
  found ← tcprefr lnk
  when is_neg found
      then return (minus_one, none)
      else (do ncb ← get_ncb lnk; objdefr ncb.hld; return (pos 0, some ncb.tcp_tst))

-- tcp_gettst_r, into the template at `tst`, with what stood there before
pub tcp_gettst_r : ℤ → Option Tst → M (ℤ × Option (Tst × Tst))
tcp_gettst_r link none = do e ← ask (λ env. negsuc env.einval); return (e, none)
tcp_gettst_r link (some tst) = do
  found ← tcprefr link
  when is_neg found
      then return (found, none)
      else (do ncb ← get_ncb link; objdefr link; return (found, some (ncb.tcp_tst, tst)))

-- `x == 0`
abbrev is_zero : ℤ → Bool
is_zero x = eq_ℤ x (pos 0)

-- tcp_create. The address is `none` for NULL, and INVALID_HTCPLINK is -1.
pub tcp_create : Bool → (ℕ → ℕ) → Bool → Bool → ℕ → M ℤ
tcp_create inited htons has_callback has_address l_port =
    when has_callback
    then (do
      parsed ← (when has_address then syscall inet_pton else return (pos 1))
      given ← address
      when is_neg parsed || is_zero parsed
          then return minus_one
          else tcp_allocate_object inited (record {
            ip = if has_address then given.addr else 0;
            port = htons l_port;
            callback = true;
            is_remote = false;
          }))
    else return minus_one

-- tcp_destroy
pub tcp_destroy : ℤ → M U
tcp_destroy lnk = do
  found ← objreff lnk
  when found then (do ioclose lnk; objdefr lnk) else return tt

-- tcp_connect: after the system's connect, the first request for data; `none` on success, and else
-- the packet that is still to be freed.
pub connect_recv : ℤ → Ncb → M (ℤ × Option Packet)
connect_recv lnk ncb = do
  packet ← allocate_packet ncb.hld proto_tcp recv tcp_recv_buffer_size virtual_heap
  elim packet [
    | none ↦ return (minus_one, none)
    | some p ↦ do
      retval ← asio_tcp_recv p
      when is_neg retval then return (minus_one, some p) else return (pos 0, none)
  ]

-- tcp_connect, once the link is referenced
pub connect_referenced : (ℕ → ℕ) → (ℕ → ℕ) → ℤ → ℕ → Ncb → M ℤ
connect_referenced htons ntohl lnk port ncb = do
  parsed ← syscall inet_pton
  r_addr ← address
  when is_neg parsed || is_zero parsed then return minus_one else (do
    made ← syscall (wsa_connect (record { port = htons port; addr = r_addr.addr }))
    when is_neg made then return minus_one else (do
      learn_local_addr lnk ntohl
      started ← connect_recv lnk ncb
      elim started.1 [ none ↦ return tt | some p ↦ freepkt p ]
      when is_neg started.0 then return minus_one else (do
        known ← get_ncb lnk
        ncb_post_connected known
        put_ncb lnk
            (record known { remote_addr = record { port = htons port; addr = r_addr.addr } })
        return (pos 0))))

-- tcp_connect
pub tcp_connect : (ℕ → ℕ) → (ℕ → ℕ) → ℤ → Bool → ℕ → M ℤ
tcp_connect htons ntohl lnk has_address port =
    when not has_address || port == 0
    then ask (λ env. negsuc env.einval)
    else with_link lnk (λ e. minus_one) (connect_referenced htons ntohl lnk port)

-- tcp_connect2, once the link is referenced. A packet that was not allocated is nothing to free.
pub connect2_referenced : (ℕ → ℕ) → ℕ → Ncb → M ℤ
connect2_referenced htons port ncb = do
  packet ← allocate_packet ncb.hld proto_tcp connect 0 no_access
  elim packet [
    | none ↦ return minus_one
    | some p ↦ do
      parsed ← syscall inet_pton
      r_addr ← address
      let target : Packet = record p {
        remote_addr = record { port = htons port; addr = r_addr.addr };
      }
      retval ←
          (when is_neg parsed || is_zero parsed then return minus_one else asio_tcp_connect target)
      when is_neg retval then (do freepkt target; return minus_one) else return (pos 0)
  ]

-- tcp_connect2
pub tcp_connect2 : (ℕ → ℕ) → ℤ → Bool → ℕ → M ℤ
tcp_connect2 htons lnk has_address port =
    when not has_address || port == 0
    then ask (λ env. negsuc env.einval)
    else with_link lnk (λ e. minus_one) (connect2_referenced htons port)

-- tcp_listen: as many accept requests as the backlog, up to one that fails.
pub listen_loop : Bool → ℕ → ℤ → M ℤ
listen_loop inited zero lnk = return (pos 0)
listen_loop inited (suc n) lnk = do
  retval ← tcp_syn inited lnk
  elim (is_neg retval) [
    | true ↦ return retval
    | false ↦ elim n [ zero ↦ return retval | suc m ↦ listen_loop inited n lnk ]
  ]

-- TCP_LISTEN_BLOCK_COUNT
abbrev pub tcp_listen_block_count : ℕ
tcp_listen_block_count = 5

-- tcp_listen
pub tcp_listen : Bool → ℤ → ℕ → M ℤ
tcp_listen inited lnk block =
    let backlog : ℕ = if block == 0 then tcp_listen_block_count else block in
    with_link lnk (λ e. minus_one)
      (λ ncb. do
        retval ← syscall wsa_listen
        when is_neg retval then return retval else listen_loop inited backlog lnk)

-- tcp_getaddr: LINK_ADDR_LOCAL, LINK_ADDR_REMOTE, or another type, which is an error
pub data AddrType : Type 0 where
  link_addr_local link_addr_remote link_addr_other : AddrType

pub tcp_getaddr : (ℕ → ℕ) → (ℕ → ℕ) → ℤ → AddrType → M (ℤ × Option SockAddr)
tcp_getaddr htonl htons lnk type = do
  found ← tcprefr lnk
  when is_neg found then return (minus_one, none) else (do
    ncb ← get_ncb lnk
    objdefr ncb.hld
    elim type [
      | link_addr_local ↦ return (pos 0, some (swapped ncb.local_addr))
      | link_addr_remote ↦ return (pos 0, some (swapped ncb.remote_addr))
      | link_addr_other ↦ return (minus_one, none)
    ])
  where
    swapped : SockAddr → SockAddr
    swapped a = record { port = htons a.port; addr = htonl a.addr }

-- tcp_setopt and tcp_getopt
pub tcp_setopt : ℤ → Bool → ℕ → ℕ → M ℤ
tcp_setopt lnk has_value opt value =
    when has_value
    then with_link lnk (λ e. minus_one) (λ ncb. syscall (setsockopt opt value))
    else return minus_one

pub tcp_getopt : ℤ → Bool → ℕ → M ℤ
tcp_getopt lnk has_room opt =
    when has_room
    then with_link lnk (λ e. minus_one) (λ ncb. syscall (getsockopt opt 0))
    else return minus_one

-- `attr & ~mask`, for 32-bit words
abbrev pub clear_bits : ℕ → ℕ → ℕ
clear_bits attr mask = attr - bit_and attr mask

-- tcp_setattr: only the three attributes of a TCP link can be set.
pub tcp_setattr : ℤ → ℕ → Bool → M ℤ
tcp_setattr lnk attr enable =
    with_link lnk (λ e. e)
      (λ ncb. do
        known ← ask (λ env.
            attr == env.linkattr_tcp_fully_receive
            || (attr == env.linkattr_tcp_no_build
                || attr == env.linkattr_tcp_update_accept_context))
        when known
            then (do
              put_ncb lnk (record ncb {
                attr = if enable then bit_or ncb.attr attr else clear_bits ncb.attr attr;
              })
              return (pos 0))
            else ask (λ env. negsuc env.einval))

-- tcp_getattr: whether any bit of the mask is set
pub tcp_getattr : ℤ → ℕ → M (ℤ × Option Bool)
tcp_getattr lnk attr = do
  found ← tcprefr lnk
  when is_neg found then return (found, none) else (do
    ncb ← get_ncb lnk
    objdefr lnk
    return (found, some (not (bit_and ncb.attr attr == 0))))
