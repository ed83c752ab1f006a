-- ===== src/World.antt =====
-- What the handlers run in: the control blocks, the calls of code outside the repository with what
-- they answer, and a small monad. The object manager (objallo, objrefr, objdefr, objclos, objreff),
-- the allocator, Winsock and the user's callbacks are not defined here: what they answer is an
-- argument, a function of all that happened before, and each call leaves its mark in the history.
use swnet_win.Base.{
  ℕ, ℤ, pos, negsuc, minus_one, eq_ℤ, Bool, Option, none, some, List, [], ◌∷◌, if◌then◌else◌, take,
  ◌==◌, not, true, false,
}
use swnet_win.Types.{SockAddr, Block, Packet, Ncb}
use swnet_win.Tcp.Recv.{Received}

-- The calls of Winsock and the system whose result decides what the code does next.
pub data Syscall : Type 0 where
  wsa_send wsa_recv accept_ex connect_ex wsa_recv_from wsa_send_to : Packet → Syscall
  transmit_packets : Packet → Syscall
  -- WSAIoctl, for an extension function or for SIO_UDP_CONNRESET
  wsa_ioctl : ℤ → Syscall
  wsa_socket wsa_bind wsa_listen : Syscall
  -- WSAConnect, to an address
  wsa_connect : SockAddr → Syscall
  setsockopt getsockopt : ℕ → ℕ → Syscall
  getsockname getpeername shutdown_close : Syscall
  create_iocp post_iocp inet_pton inet_ntop gethostname : Syscall
  -- sendto, of these bytes
  send_to : List ℕ → Syscall
  wsa_startup wsa_cleanup obj_init obj_uninit : Syscall
  get_adapters nprocs create_thread wait_thread close_handle : Syscall
  virtual_alloc open_process : Syscall
  get_working_set set_working_set : Syscall
  -- VirtualAlloc of pages that are reserved, VirtualLock and VirtualUnlock, by the address
  virtual_commit virtual_lock virtual_unlock : ℕ → Syscall
  -- SendARP, for an address
  send_arp : ℕ → Syscall
  parse_serializer parse_builder : Syscall

-- What EVT_RECEIVEDATA shows of a datagram: `remote_address` is `none` where inet_ntop fails.
pub record Datagram : Type 0 where
  pub link : ℤ
  pub size : ℕ
  pub bytes : List ℕ
  pub remote_port : ℕ
  pub remote_address : Option ℕ

-- The reply of ARP that EVT_RECEIVEDATA shows.
pub record ArpReply : Type 0 where
  pub hardware_type : ℕ
  pub protocol_type : ℕ
  pub hardware_size : ℕ
  pub protocol_size : ℕ
  pub op_code : ℕ
  pub sender_mac : List ℕ
  pub sender_ip : ℕ
  pub target_mac : List ℕ
  pub target_ip : ℕ

-- A callback of the user's, EVT_* by name.
pub data Notice : Type 0 where
  pre_close closed_evt connected : Notice
  accepted : ℤ → Notice
  receive : Received → Notice
  receive_from : Datagram → Notice
  arp_reply : ArpReply → Notice
  pipe : ℕ → Notice

pub data Event : Type 0 where
  -- an objrefr or objreff that gave an object; objdefr; objclos
  referenced dereferenced object_closed : ℤ → Event
  -- blocks of the allocator; packets by their own addresses
  block_made block_freed packet_made packet_freed : ℕ → Event
  -- the system took a packet, until its completion
  posted : Packet → Event
  called : Syscall → Event
  notified : ℤ → Notice → Event
  lock_entered lock_left : ℤ → Event
  -- bytes that sendto took
  datagram_sent : List ℕ → Event
  -- pages of VirtualAlloc, by their address
  pages_made pages_freed : ℕ → Event

-- What the code outside answers, and the constants of its headers.
pub record Env : Type 0 where
  pub refer : List Event → ℤ → Bool
  pub detach : List Event → ℤ → Bool
  pub objallo : List Event → ℤ
  pub malloc : List Event → ℕ → Option Block
  pub lock_pages : List Event → ℕ → Option Block
  pub system : List Event → Syscall → ℤ
  -- whether WSASend, WSARecv or WSARecvFrom gives 0; it gives SOCKET_ERROR, -1, otherwise
  pub started : List Event → Syscall → Bool
  -- WSAGetLastError() == ERROR_IO_PENDING
  pub io_pending : List Event → Bool
  pub address : List Event → SockAddr
  -- the local address that GetAcceptExSockaddrs gives, with `address` for the remote one
  pub accepted_local : List Event → SockAddr
  pub interference : List Event → List ℕ
  -- whether errno is EINTR
  pub interrupted : List Event → Bool
  -- GetLastError
  pub last_error : List Event → ℕ
  -- what getsockopt writes
  pub option_value : List Event → ℕ
  pub sizeof_packet : ℕ
  pub sizeof_pointer : ℕ
  pub sizeof_mreq : ℕ
  pub sizeof_element : ℕ
  pub sizeof_epoll : ℕ
  pub max_udp_unit : ℕ
  pub mtu : ℕ
  pub udp_flag_broadcast : ℕ
  pub udp_flag_multicast : ℕ
  -- -EINVAL, -ENOENT, -EPROTOTYPE, -ENOMEM and -EEXIST are `negsuc` of these
  pub einval : ℕ
  pub enoent : ℕ
  pub eprototype : ℕ
  pub enomem : ℕ
  pub eexist : ℕ
  pub eagain : ℕ
  pub linkattr_tcp_fully_receive : ℕ
  pub linkattr_tcp_no_build : ℕ
  pub linkattr_tcp_update_accept_context : ℕ

pub record World : Type 0 where
  pub ncbs : ℤ → Ncb
  pub history : List Event

abbrev pub M : Type 0 → Type 0
M A = Env → World → A × World

abbrev pub return : {A : Type 0} → A → M A
return a env w = (a, w)

infixl 5 ◌>>=◌ ◌>>◌
unfoldable pub ◌>>=◌ : {A B : Type 0} → M A → (A → M B) → M B
◌>>=◌ m f env w = let r = m env w in f r.0 env r.1

unfoldable pub ◌>>◌ : {A B : Type 0} → M A → M B → M B
◌>>◌ m k env w = let r = m env w in k env r.1

-- The conditional of a handler, which waits for the world that it runs in.
infix 1 when◌then◌else◌
unfoldable pub when◌then◌else◌ : {A : Type 0} → Bool → M A → M A → M A
when◌then◌else◌ c m k env w = if c then m env w else k env w

-- A result that may be missing.
unfoldable pub on_option : {A B : Type 0} → Option A → M B → (A → M B) → M B
on_option o m k env w = elim o [ none ↦ m env w | some a ↦ k a env w ]

abbrev pub U : Type 0
U = Unit {0}

abbrev pub emit : Event → M U
emit e env w = (tt, record w { history = e ∷ w.history })

-- objallo: a handle, or a negative number.
abbrev pub new_object : M ℤ
new_object env w = (env.objallo w.history, w)

-- objrefr: whether there is an object behind the handle.
abbrev pub objrefr : ℤ → M Bool
objrefr h env w = (
  env.refer w.history h,
  record w { history = if env.refer w.history h then referenced h ∷ w.history else w.history },
)

-- objreff: the last reference of an object that is being closed.
abbrev pub objreff : ℤ → M Bool
objreff h env w = (
  env.detach w.history h,
  record w { history = if env.detach w.history h then referenced h ∷ w.history else w.history },
)

abbrev pub objdefr : ℤ → M U
objdefr h = emit (dereferenced h)

abbrev pub objclos : ℤ → M U
objclos h = emit (object_closed h)

abbrev pub get_ncb : ℤ → M Ncb
get_ncb h env w = (w.ncbs h, w)

abbrev pub set_at : (ℤ → Ncb) → ℤ → Ncb → ℤ → Ncb
set_at f h n k = if eq_ℤ k h then n else f k

abbrev pub put_ncb : ℤ → Ncb → M U
put_ncb h n env w = (tt, record w { ncbs = set_at w.ncbs h n })

-- A system call: its return value.
abbrev pub syscall : Syscall → M ℤ
syscall c env w = (env.system w.history c, record w { history = called c ∷ w.history })

-- sendto: the bytes that it took are in the history.
abbrev pub sent : ℤ → List ℕ → List Event → List Event
sent (pos n) bytes t = datagram_sent (take n bytes) ∷ t
sent (negsuc n) bytes t = t

abbrev pub sendto : List ℕ → M ℤ
sendto bytes env w = (
  env.system w.history (send_to bytes),
  record w {
    history =
        sent (env.system w.history (send_to bytes)) bytes (called (send_to bytes) ∷ w.history);
  },
)

-- An overlapped call: 0 or SOCKET_ERROR.
abbrev pub overlapped : Syscall → M ℤ
overlapped c env w = (
  if env.started w.history c then pos 0 else minus_one,
  record w { history = called c ∷ w.history },
)

abbrev pub io_pending : M Bool
io_pending env w = (env.io_pending w.history, w)

abbrev pub address : M SockAddr
address env w = (env.address w.history, w)

abbrev pub ask : {A : Type 0} → (Env → A) → M A
ask f env w = (f env, w)

-- malloc of a block, and of a packet
abbrev pub allocate_as : (ℕ → Event) → ℕ → M (Option Block)
allocate_as mark n env w = (
  env.malloc w.history n,
  record w {
    history = elim (env.malloc w.history n) [
      | none ↦ w.history
      | some b ↦ mark b.address ∷ w.history
    ];
  },
)

abbrev pub allocate : ℕ → M (Option Block)
allocate = allocate_as block_made

-- os_lock_virtual_pages: pages that stay in memory, or NULL
abbrev pub lock_pages : ℕ → M (Option Block)
lock_pages n env w = (
  env.lock_pages w.history n,
  record w {
    history = elim (env.lock_pages w.history n) [
      | none ↦ w.history
      | some b ↦ block_made b.address ∷ w.history
    ];
  },
)

-- free; a NULL pointer is nothing to free
abbrev pub release : Option Block → M U
release none = return tt
release (some b) = emit (block_freed b.address)

-- A callback, if one is set.
abbrev pub notify : Ncb → Notice → M U
notify ncb n = when ncb.nis_callback then emit (notified ncb.hld n) else return tt

-- Whether a block is still allocated: it is not, once it was freed and not made again. A block that the
-- history does not name was made before.
abbrev pub is_live : ℕ → List Event → Bool
is_live a [] = true
is_live a (block_made b ∷ t) = if b == a then true else is_live a t
is_live a (block_freed b ∷ t) = if b == a then false else is_live a t
is_live a (_ ∷ t) = is_live a t

-- Whether a pointer is to a block that was freed; NULL is not.
abbrev pub dangles : Option Block → M Bool
dangles o env w = (elim o [ none ↦ false | some b ↦ not (is_live b.address w.history) ], w)
