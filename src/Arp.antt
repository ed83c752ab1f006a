-- ===== src/Arp.antt =====
-- ARP requests: arp.c.
pub mod References
use swnet_win.Base.{
  ℕ, ℤ, pos, negsuc, minus_one, eq_ℤ, is_neg, Bool, true, false, Option, none, some, List, [], ◌∷◌,
  take, if◌then◌else◌,
}
use swnet_win.Types.{proto_ip, Ncb}
use swnet_win.Links.{ncb_init, ncb_post_preclose, ncb_post_close, ioclose, free_context}
use swnet_win.World.{
  M, U, return, when◌then◌else◌, on_option, ◌>>=◌, ◌>>◌, emit, notified, ArpReply, arp_reply,
  wsa_socket, shutdown_close, send_arp, new_object, objrefr, objreff, objdefr, get_ncb, put_ncb,
  syscall, ask,
}

-- __arprefr: 0 with a reference taken, or a negative error with none.
unfoldable pub arprefr : ℤ → M ℤ
arprefr hld = when is_neg hld then ask (λ env. negsuc env.einval) else (do
  found ← objrefr hld
  when found
      then (do
        ncb ← get_ncb hld
        elim ncb.proto_type [
          | proto_ip ↦ return (pos 0)
          | _ ↦ do objdefr hld; ask (λ env. negsuc env.eprototype)
        ])
      else ask (λ env. negsuc env.enoent))

-- arp_unload
pub arp_unload : ℤ → M U
arp_unload h = do
  opened ← get_ncb h
  ncb_post_preclose opened
  ioclose h
  ncb ← get_ncb h
  free_context ncb
  ncb_post_close ncb

-- An adapter of GetAdaptersInfo: whether its first address is the one that is looked for, and its
-- hardware address.
pub record Adapter : Type 0 where
  pub has_ip : Bool
  pub address : List ℕ

-- get_eth_MAC: what it writes. Its result is -1 whether it writes or not.
pub get_eth_mac : List Adapter → List ℕ → List ℕ
get_eth_mac [] mac = mac
get_eth_mac (a ∷ rest) mac = if a.has_ip then take 6 a.address else get_eth_mac rest mac

-- A SOCKET, which is no negative number: INVALID_SOCKET is `none`.
abbrev socket_of : ℤ → Option ℕ
socket_of (pos s) = some s
socket_of (negsuc n) = none

-- arp_create, on the block of the object `h`
unfoldable pub arp_entry : ℤ → Option ℕ → Bool → ℕ → List Adapter → M U
arp_entry h fd callback source adapters =
    let fresh : Ncb = ncb_init proto_ip in
    put_ncb h (record fresh {
      nis_callback = callback;
      sockfd = fd;
      hld = h;
      local_addr = record { port = 0; addr = source };
      source_mac = get_eth_mac adapters fresh.source_mac;
    })

-- arp_create. A socket that could not be made is not seen. `none` is the assertion that the object
-- is there.
unfoldable pub arp_create : Bool → ℕ → List Adapter → M (Option ℤ)
arp_create callback source adapters = do
  fd ← syscall wsa_socket
  hld ← new_object
  when is_neg hld then (do syscall shutdown_close; return (some minus_one)) else (do
    found ← objrefr hld
    when found
        then (do
          arp_entry hld (socket_of fd) callback source adapters
          objdefr hld
          return (some hld))
        else return none)

-- arp_destroy
pub arp_destroy : ℤ → M U
arp_destroy link = do
  found ← objreff link
  when found then (do ioclose link; objdefr link) else return tt

-- A result, unless the program stopped before it.
abbrev on_reply : Option U → ℤ → Option ℤ
on_reply none r = none
on_reply (some u) r = some r

module _ (ntohl ntohs : ℕ → ℕ) (makeerror : ℤ → ℤ) where
  -- arp_nrequest, the event; `mac` is what SendARP wrote.
  pub reply_event : Ncb → ℕ → List ℕ → ArpReply
  reply_event ncb target mac = record {
    hardware_type = 1;
    protocol_type = 0x0800;
    hardware_size = 6;
    protocol_size = 4;
    op_code = ntohs 2;
    sender_mac = take 6 mac;
    sender_ip = ntohl target;
    target_mac = ncb.source_mac;
    target_ip = ntohl ncb.local_addr.addr;
  }

  -- arp_nrequest, the callback, which is called in any case: `none` is a call of NULL.
  unfoldable pub reply : Ncb → ArpReply → M (Option U)
  reply ncb event =
      when ncb.nis_callback
      then (do emit (notified ncb.hld (arp_reply event)); return (some tt))
      else return none

  -- arp_nrequest; posix__makeerror is a function of another library.
  unfoldable pub arp_nrequest : List ℕ → ℤ → ℕ → M (Option ℤ)
  arp_nrequest mac link target = do
    found ← arprefr link
    when is_neg found then return (some found) else (do
      ncb ← get_ncb link
      retval ← syscall (send_arp target)
      called_back ←
          (when eq_ℤ retval (pos 0)
            then reply ncb (reply_event ncb target mac)
            else return (some tt))
      objdefr link
      return (on_reply called_back (makeerror retval)))

  -- arp_request; `address` is what inet_addr gives.
  pub arp_request : List ℕ → ℤ → ℕ → M (Option ℤ)
  arp_request mac link address = arp_nrequest mac link address
