-- ===== src/Tests.antt =====
-- Concrete links, packets and runs, at which the theorems are applied.
pub mod Receive
pub mod Sending
pub mod Resources
pub mod Links
use swnet_win.Base.{
  ℕ, ℤ, pos, negsuc, Bool, true, false, Option, none, some, List, [], ◌∷◌, ◌++◌, ◌≡◌, refl,
  replicate, length-replicate, drop,
}
use swnet_win.Types.{
  ProtoType, proto_tcp, PktType, recv, virtual_heap, SockAddr, Tst, Block, Packet, Ncb,
}
use swnet_win.Packets.{null_addr}
use swnet_win.Tcp.Recv.{tcp_recv_buffer_size}

-- A header of one byte, the size of what follows.
abbrev pub read_header : List ℕ → ℕ → ℤ × ℤ
read_header [] n = (negsuc 0, pos 0)
read_header (x ∷ xs) n = (pos 0, pos x)

abbrev pub build_header : List ℕ → ℕ → ℤ × List ℕ
build_header [] n = (pos 0, [])
build_header (x ∷ xs) n = (pos 0, n ∷ xs)

abbrev pub byte_header : Tst
byte_header = record { cb = 1; builder = some build_header; parser = some read_header }

-- A TCP link that is open, at handle 7.
abbrev pub open_link : Tst → Ncb
open_link tst = record {
  hld = pos 7;
  sockfd = some 3;
  proto_type = proto_tcp;
  local_addr = record { port = 80; addr = 1 };
  remote_addr = record { port = 81; addr = 2 };
  nis_callback = true;
  flag = 0;
  connected = 0;
  mreq = none;
  rcvtimeo = 0;
  sndtimeo = 0;
  iptos = 0;
  attr = 0;
  context = none;
  prcontext = none;
  lb_data = none;
  lb_cpy_offset = 0;
  lb_length = 0;
  tcp_sender_cache = [];
  tcp_sender_list_size = 0;
  tcp_write_pending = 0;
  tcp_tst = tst;
  mss = 0;
  ncb_ctx = none;
  ncb_ctx_size = 0;
  source_mac = replicate 6 0;
}

abbrev pub receive_block : Block
receive_block = record { address = 900; bytes = replicate tcp_recv_buffer_size 0 }

-- The packet of a link's first request for data.
abbrev pub receive_packet : Packet
receive_packet = record {
  self = 800;
  type = recv;
  proto_type = proto_tcp;
  page_style = virtual_heap;
  flag = 0;
  link = pos 7;
  accepted_link = negsuc 0;
  remote_addr = null_addr;
  local_addr = null_addr;
  size_for_req = tcp_recv_buffer_size;
  size_for_translation = 0;
  size_completion = 0;
  analyzed_offset = 0;
  ori_buffer = some receive_block;
  irp = some 0;
  grp_packets = none;
  grp_packets_cnt = 0;
}
