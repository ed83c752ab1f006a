-- ===== src/Udp/Api.antt =====
-- The other calls of the user on a UDP link, udp.c: udp_destroy, udp_getaddr, udp_setopt,
-- udp_getopt, udp_joingrp and udp_dropgrp.
use swnet_win.Base.{
  ℕ, ◌==◌, ◌||◌, not, bit_and, ℤ, pos, negsuc, minus_one, eq_ℤ, is_neg, Bool, true, false, Option,
  none, some,
}
use swnet_win.Types.{Mreq, SockAddr, Ncb}
use swnet_win.Links.{ioclose}
use swnet_win.Options.{ip_multicast_loop, ip_add_membership, ip_drop_membership}
use swnet_win.Udp.Object.{udprefr}
use swnet_win.World.{
  M, U, return, when◌then◌else◌, on_option, ◌>>=◌, ◌>>◌, setsockopt, getsockopt, objrefr, objreff,
  objdefr, get_ncb, put_ncb, syscall, ask, allocate,
}

-- udp_destroy
unfoldable pub udp_destroy : ℤ → M U
udp_destroy lnk = do
  found ← objreff lnk
  when found then (do ioclose lnk; objdefr lnk) else return tt

-- udp_getaddr, with what it writes; `htonl` and `htons` are the byte swaps of the system's library.
unfoldable pub udp_getaddr : (ℕ → ℕ) → (ℕ → ℕ) → ℤ → M (Option SockAddr)
udp_getaddr htonl htons lnk = when eq_ℤ lnk minus_one then return none else (do
  found ← udprefr lnk
  when is_neg found then return none else (do
    ncb ← get_ncb lnk
    objdefr ncb.hld
    return (some (record { port = htons ncb.local_addr.port; addr = htonl ncb.local_addr.addr }))))

-- udp_setopt and udp_getopt; `has_val` is whether the pointers are set
unfoldable pub with_udp : ℤ → Bool → (Ncb → M ℤ) → M ℤ
with_udp lnk has_val body = when eq_ℤ lnk minus_one || not has_val then return minus_one else (do
  found ← udprefr lnk
  when is_neg found
      then return minus_one
      else (do ncb ← get_ncb lnk; retval ← body ncb; objdefr ncb.hld; return retval))

unfoldable pub udp_setopt : ℤ → ℕ → Bool → ℕ → M ℤ
udp_setopt lnk opt has_val value = with_udp lnk has_val (λ ncb. syscall (setsockopt opt value))

unfoldable pub udp_getopt : ℤ → ℕ → Bool → M ℤ
udp_getopt lnk opt has_val = with_udp lnk has_val (λ ncb. syscall (getsockopt opt 0))

-- udp_joingrp, the structure for the group: the link's, or a new one. `false` is that there is none.
unfoldable pub own_mreq : ℤ → Ncb → M Bool
own_mreq lnk ncb =
    on_option ncb.mreq
      (do
        size ← ask (λ env. env.sizeof_mreq)
        block ← allocate size
        on_option block (return false) (λ b. return true))
      (λ m. return true)

-- udp_joingrp, on a multicast link. With no memory the result is still that of the first setsockopt.
unfoldable pub join_multicast : ℤ → ℕ → M ℤ
join_multicast lnk g_addr = do
  looped ← syscall (setsockopt ip_multicast_loop 1)
  when eq_ℤ looped minus_one then return looped else (do
    ncb ← get_ncb lnk
    owned ← own_mreq lnk ncb
    when owned
        then (do
          put_ncb lnk (record ncb {
            mreq = some (record { multiaddr = g_addr; interface = ncb.local_addr.addr });
          })
          joined ← syscall (setsockopt ip_add_membership g_addr)
          when eq_ℤ joined minus_one then return joined else return (pos 0))
        else return looped)

-- udp_joingrp; the address is what inet_addr gives for the text, `none` where there is none.
unfoldable pub udp_joingrp : ℤ → Option ℕ → ℕ → M ℤ
udp_joingrp lnk g_addr g_port = on_option g_addr (ask (λ env. negsuc env.einval)) (λ addr.
    when is_neg lnk || g_port == 0 then ask (λ env. negsuc env.einval) else (do
      multicast ← ask (λ env. env.udp_flag_multicast)
      found ← objrefr lnk
      when found
          then (do
            ncb ← get_ncb lnk
            retval ←
                when bit_and ncb.flag multicast == 0
                then return minus_one
                else join_multicast lnk addr
            objdefr lnk
            return retval)
          else return minus_one))

-- udp_dropgrp, on a multicast link with a group, which it keeps
unfoldable pub drop_multicast : Mreq → M ℤ
drop_multicast mreq = do
  looped ← syscall (setsockopt ip_multicast_loop 0)
  when eq_ℤ looped minus_one then return looped else (do
    dropped ← syscall (setsockopt ip_drop_membership mreq.multiaddr)
    when eq_ℤ dropped minus_one then return dropped else return (pos 0))

-- udp_dropgrp
unfoldable pub udp_dropgrp : ℤ → M ℤ
udp_dropgrp lnk = when is_neg lnk then ask (λ env. negsuc env.einval) else (do
  multicast ← ask (λ env. env.udp_flag_multicast)
  found ← objrefr lnk
  when found
      then (do
        ncb ← get_ncb lnk
        retval ←
            when bit_and ncb.flag multicast == 0
            then return minus_one
            else on_option ncb.mreq (return minus_one) (λ mreq. drop_multicast mreq)
        objdefr lnk
        return retval)
      else return minus_one)
