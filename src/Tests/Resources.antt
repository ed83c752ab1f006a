-- ===== src/Tests/Resources.antt =====
-- The theorems on packets, references and settings in a world with one open link.
use swnet_win.Base.{false, ◌+◌, pos, is_neg, true, inl, ◌⊎◌, ◌≡◌, refl, none, some, [], ◌∷◌}
use swnet_win.Types.{Packet, syn, proto_tcp, send, virtual_heap}
use swnet_win.Packets.{
  allocate_packet, asio_tcp_send, asio_tcp_recv, asio_udp_recv, asio_tcp_connect,
}
use swnet_win.Packets.Ownership.{Posts, is_made, allocate_packet-owned, asio-Posts}
use swnet_win.World.{Env, World, ◌>>=◌, ◌>>◌, when◌then◌else◌, on_option}
use swnet_win.Ledger.{made, freed, in_system, KnowsHandles, KeepsRefs, TakesRef}
use swnet_win.Tcp.Object.{tcprefr, tcp_unload, tcp_allocate_object}
use swnet_win.Tcp.Object.References.{tcprefr-TakesRef}
use swnet_win.Tcp.Object.Unload.{tcp_unload-frees}
use swnet_win.Ledger.Held.{Allocates}
use swnet_win.Tcp.Accept.{tcp_syn, tcp_shutdown_by_packet}
use swnet_win.Tcp.Io.{tcp_dispatch_io_send, tcp_dispatch_io_recv}
use swnet_win.Tcp.Recv.{
  recv_unpack, recv_parse, tcp_prase_logic_packet, prase_loop, prase_round, logic_data,
  prase_finish,
}
use swnet_win.Tcp.Io.Receiving.{tcp_dispatch_io_recv-KeepsRefs}
use swnet_win.Tcp.References.{
  tcp_dispatch_io_send-KeepsRefs, tcp_syn-KeepsRefs, tcp_shutdown_by_packet-KeepsRefs,
  tcp_allocate_object-KeepsRefs,
}
use swnet_win.Tcp.Api.{with_link, tcp_settst, tcp_settst_r, tcp_gettst, tcp_setattr}
use swnet_win.Tcp.Api.Settings.{tcp_settst_r-keeps, tcp_settst-tcp_gettst, tcp_setattr-sets}
use swnet_win.Packets.{null_addr}
use swnet_win.Tcp.Accept.{tcp_dispatch_io_syn}
use swnet_win.Tcp.Io.{tcp_dispatch_io_connected}
use swnet_win.Tcp.References.{tcp_dispatch_io_syn-KeepsRefs, tcp_dispatch_io_connected-KeepsRefs}
use swnet_win.Tests.{byte_header, open_link, receive_packet}

-- Every call succeeds, and blocks are empty.
abbrev pub willing : Env
willing = record {
  refer = λ t h. true;
  detach = λ t h. true;
  objallo = λ t. pos 8;
  malloc = λ t n. some (record { address = 1000; bytes = [] });
  lock_pages = λ t n. some (record { address = 2000; bytes = [] });
  system = λ t c. pos 0;
  started = λ t c. true;
  io_pending = λ t. true;
  address = λ t. null_addr;
  accepted_local = λ t. null_addr;
  interference = λ t. [];
  interrupted = λ t. false;
  last_error = λ t. 0;
  option_value = λ t. 0;
  sizeof_packet = 200;
  sizeof_pointer = 8;
  sizeof_mreq = 8;
  sizeof_element = 24;
  sizeof_epoll = 40;
  max_udp_unit = 1472;
  mtu = 1500;
  udp_flag_broadcast = 1;
  udp_flag_multicast = 2;
  einval = 21;
  enoent = 1;
  eprototype = 106;
  enomem = 11;
  eexist = 16;
  eagain = 10;
  linkattr_tcp_fully_receive = 1;
  linkattr_tcp_no_build = 2;
  linkattr_tcp_update_accept_context = 4;
}

abbrev pub world : World
world = record {
  ncbs = λ h. record (open_link byte_header) {
    hld = h;
    tcp_sender_cache = receive_packet ∷ receive_packet ∷ [];
    tcp_sender_list_size = 2;
  };
  history = [];
}

pub world-KnowsHandles : KnowsHandles world
world-KnowsHandles k = refl

allocate_packet-owned_example :
    let r = allocate_packet (pos 7) proto_tcp send 64 virtual_heap willing world in
    KeepsRefs (pos 7) world r.1
    × (in_system r.1.history ≡ 0)
    × (made r.1.history + 0 ≡ is_made r.0 + (0 + freed r.1.history))
allocate_packet-owned_example =
    allocate_packet-owned willing world (pos 7) (pos 7) proto_tcp send 64 virtual_heap

asio-Posts_example :
    Posts (pos 7) world (asio_tcp_send receive_packet willing world)
    × Posts (pos 7) world (asio_tcp_recv receive_packet willing world)
    × Posts (pos 7) world (asio_udp_recv receive_packet willing world)
    × Posts (pos 7) world (asio_tcp_connect receive_packet willing world)
asio-Posts_example = asio-Posts willing world world-KnowsHandles (pos 7) receive_packet

tcprefr-TakesRef_example :
    let r = tcprefr (pos 7) willing world in
    ((r.0 ≡ pos 0) × (proto_tcp ≡ proto_tcp) × TakesRef (pos 7) world r.1)
    ⊎ ((is_neg r.0 ≡ true) × KeepsRefs (pos 7) world r.1)
tcprefr-TakesRef_example = tcprefr-TakesRef willing world world-KnowsHandles (pos 7)

tcp_unload-frees_example : freed (tcp_unload (pos 7) willing world).1.history ≡ 2 + 0
tcp_unload-frees_example = tcp_unload-frees willing (pos 7) world (inl refl)

tcp_settst_r-keeps_example :
    let r =
      tcp_settst_r
        (pos 7)
        (some (record { cb = 4; builder = none; parser = none }))
        willing
        world in
    ((r.1.ncbs (pos 7)).tcp_tst ≡ byte_header) × KeepsRefs (pos 7) world r.1
tcp_settst_r-keeps_example =
    tcp_settst_r-keeps willing world world-KnowsHandles (pos 7)
      (some (record { cb = 4; builder = none; parser = none }))

tcp_settst-tcp_gettst_example :
    let s = tcp_gettst (pos 7) willing (tcp_settst (pos 7) (some byte_header) willing world).1 in
    (s.0 ≡ (pos 0, some byte_header)) ⊎ (is_neg s.0.0 ≡ true)
unfolding tcp_settst with_link tcprefr ◌>>=◌ ◌>>◌ when◌then◌else◌ on_option
tcp_settst-tcp_gettst_example =
    tcp_settst-tcp_gettst willing world world-KnowsHandles (pos 7) byte_header refl

tcp_setattr-sets_example :
    let r = tcp_setattr (pos 7) 2 true willing world in
    KeepsRefs (pos 7) world r.1
    × (((r.0 ≡ pos 0) × (r.1.ncbs (pos 7) ≡ record (world.ncbs (pos 7)) { attr = 2 }))
        ⊎ ((is_neg r.0 ≡ true) × (r.1.ncbs ≡ world.ncbs)))
tcp_setattr-sets_example = tcp_setattr-sets willing world world-KnowsHandles (pos 7) 2 true

pub willing-Allocates : Allocates willing
willing-Allocates t e = refl

tcp_dispatch_io_send-KeepsRefs_example :
    KeepsRefs
      (pos 7)
      world
      (tcp_dispatch_io_send true
        (record receive_packet { type = send; size_for_translation = 5 })
        willing
        world).1
tcp_dispatch_io_send-KeepsRefs_example =
    tcp_dispatch_io_send-KeepsRefs willing willing-Allocates true world world-KnowsHandles (pos 7)
      (record receive_packet { type = send; size_for_translation = 5 })

-- Three bytes that make one whole packet.
abbrev three_bytes : Packet
three_bytes = record receive_packet {
  size_for_translation = 3;
  ori_buffer = some (record { address = 1000; bytes = 2 ∷ 5 ∷ 6 ∷ [] });
}

tcp_dispatch_io_recv-KeepsRefs_example :
    KeepsRefs (pos 7) world (tcp_dispatch_io_recv true three_bytes willing world).1
unfolding recv_unpack recv_parse tcp_prase_logic_packet prase_loop prase_round logic_data
    prase_finish
tcp_dispatch_io_recv-KeepsRefs_example =
    tcp_dispatch_io_recv-KeepsRefs willing willing-Allocates true three_bytes world (pos 7)
      world-KnowsHandles (λ some_bytes t. (_, refl))

tcp_syn-KeepsRefs_example : KeepsRefs (pos 8) world (tcp_syn true (pos 7) willing world).1
tcp_syn-KeepsRefs_example =
    tcp_syn-KeepsRefs willing willing-Allocates true world world-KnowsHandles (pos 8) (pos 7)

tcp_shutdown_by_packet-KeepsRefs_example :
    KeepsRefs
      (pos 7)
      world
      (tcp_shutdown_by_packet true (record receive_packet { type = syn }) willing world).1
tcp_shutdown_by_packet-KeepsRefs_example =
    tcp_shutdown_by_packet-KeepsRefs willing willing-Allocates true world world-KnowsHandles (pos 7)
      (record receive_packet { type = syn })

tcp_allocate_object-KeepsRefs_example :
    KeepsRefs
      (pos 8)
      world
      (tcp_allocate_object true
        (record { ip = 0; port = 0; callback = true; is_remote = false })
        willing
        world).1
tcp_allocate_object-KeepsRefs_example =
    tcp_allocate_object-KeepsRefs willing willing-Allocates true world world-KnowsHandles (pos 8)
      (record { ip = 0; port = 0; callback = true; is_remote = false })

tcp_dispatch_io_syn-KeepsRefs_example :
    KeepsRefs
      (pos 7)
      world
      (tcp_dispatch_io_syn true false
        (record receive_packet { type = syn; accepted_link = pos 9 })
        willing
        world).1
tcp_dispatch_io_syn-KeepsRefs_example =
    tcp_dispatch_io_syn-KeepsRefs willing willing-Allocates true world world-KnowsHandles (pos 7)
      false (record receive_packet { type = syn; accepted_link = pos 9 })

tcp_dispatch_io_connected-KeepsRefs_example :
    KeepsRefs (pos 7) world (tcp_dispatch_io_connected true (λ a. a) receive_packet willing world).1
tcp_dispatch_io_connected-KeepsRefs_example =
    tcp_dispatch_io_connected-KeepsRefs willing willing-Allocates true world world-KnowsHandles
      (pos 7) (λ a. a) receive_packet
