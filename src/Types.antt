-- ===== src/Types.antt =====
-- The data of packet.h, ncb.h and network.h: packets, network control blocks, and their enums.
-- A pointer to a block that one structure owns is the block itself, `none` for NULL.
use swnet_win.Base.{ℕ, ℤ, Bool, Option, List}

-- `enum proto_type_t`; `kProto_MaximumId` only bounds the tables.
pub data ProtoType : Type 0 where
  proto_unknown proto_ip proto_udp proto_tcp proto_pipe : ProtoType

-- `enum pkt_type_t`
pub data PktType : Type 0 where
  send recv syn connect pipe unknown : PktType

-- `enum page_style_t`
pub data PageStyle : Type 0 where
  no_access virtual_heap non_paged_pool : PageStyle

-- `struct sockaddr_in`: the port and the IPv4 address, as the 16- and 32-bit numbers stored.
pub record SockAddr : Type 0 where
  pub port : ℕ
  pub addr : ℕ

-- `IP_MREQ`: the group and the interface.
pub record Mreq : Type 0 where
  pub multiaddr : ℕ
  pub interface : ℕ

-- `tst_t`: the size of the protocol header and the two callbacks of the user.
-- The parser gets the header and its size, and gives its return value and the size it writes.
-- The builder gets the buffer and the size of the data, and gives its return value and the buffer.
pub record Tst : Type 0 where
  pub cb : ℕ
  pub builder : Option (List ℕ → ℕ → ℤ × List ℕ)
  pub parser : Option (List ℕ → ℕ → ℤ × ℤ)

-- A block of memory from `malloc` or the page allocator: its address and its bytes.
pub record Block : Type 0 where
  pub address : ℕ
  pub bytes : List ℕ

-- `packet_t`, with its own address first. `irp` is the offset of `irp_` in the buffer.
pub record Packet : Type 0 where
  pub self : ℕ
  pub type : PktType
  pub proto_type : ProtoType
  pub page_style : PageStyle
  pub flag : ℕ
  pub link : ℤ
  pub accepted_link : ℤ
  pub remote_addr : SockAddr
  pub local_addr : SockAddr
  pub size_for_req : ℕ
  pub size_for_translation : ℕ
  pub size_completion : ℕ
  pub analyzed_offset : ℕ
  pub ori_buffer : Option Block
  pub irp : Option ℕ
  pub grp_packets : Option Block
  pub grp_packets_cnt : ℕ

-- `ncb_t`. `sockfd` is `none` for INVALID_SOCKET, and `nis_callback` says whether it is set.
-- `lb_data` is the large block by its bytes; the cached packets are in the order of the queue.
pub record Ncb : Type 0 where
  pub hld : ℤ
  pub sockfd : Option ℕ
  pub proto_type : ProtoType
  pub local_addr : SockAddr
  pub remote_addr : SockAddr
  pub nis_callback : Bool
  pub flag : ℕ
  pub connected : ℕ
  pub mreq : Option Mreq
  pub rcvtimeo : ℕ
  pub sndtimeo : ℕ
  pub iptos : ℕ
  pub attr : ℕ
  pub context : Option ℕ
  pub prcontext : Option ℕ
  pub lb_data : Option (List ℕ)
  pub lb_cpy_offset : ℕ
  pub lb_length : ℕ
  pub tcp_sender_cache : List Packet
  pub tcp_sender_list_size : ℕ
  pub tcp_write_pending : ℕ
  pub tcp_tst : Tst
  pub mss : ℕ
  pub ncb_ctx : Option Block
  pub ncb_ctx_size : ℕ
  pub source_mac : List ℕ
