-- ===== src/Pipe.antt =====
-- The pipe of a link: tcp_awaken of tcp.c and udp_awaken of udp.c, which are the same code, and
-- io_get_pipefd of io.c.
use swnet_win.Base.{
  ℕ, zero, suc, ◌%◌, ◌==◌, ℤ, pos, negsuc, minus_one, eq_ℤ, is_nonpos, pos_part, Bool, true, false,
  not, ◌&&◌, if◌then◌else◌, Option, none, some, List, [], ◌∷◌, take,
}
use swnet_win.Types.{proto_pipe, pipe, no_access, Block, Packet, Ncb}
use swnet_win.Packets.{allocate_packet, freepkt}
use swnet_win.Tcp.Recv.Copy.{put}
use swnet_win.World.{
  M, return, when◌then◌else◌, on_option, ◌>>=◌, ◌>>◌, emit, posted, post_iocp, objrefr, get_ncb,
  syscall, ask, allocate, release,
}

-- `struct epoll_object`. A handle is 0 for NULL.
pub record Epoll : Type 0 where
  pub epfd : ℕ
  pub actived : Bool
  pub thread : ℕ
  pub load : ℕ

-- `struct epoll_object_manager`
pub record EpollManager : Type 0 where
  pub epos : Option (List Epoll)
  pub divisions : ℕ

-- The element of an array, or a read outside it.
pub get_elem? : List Epoll → ℕ → Option Epoll
get_elem? [] i = none
get_elem? (e ∷ es) zero = some e
get_elem? (e ∷ es) (suc i) = get_elem? es i

-- io_get_pipefd, for a handle that is not negative. `none` is a read outside the array, or of none.
pub io_get_pipefd : EpollManager → Ncb → Option ℕ
io_get_pipefd epmgr ncb = elim epmgr.epos [
  | none ↦ none
  | some epos ↦ elim (get_elem? epos (pos_part ncb.hld % epmgr.divisions)) [
    | none ↦ none
    | some e ↦ some e.epfd
  ]
]

abbrev has_bytes : Option (List ℕ) → Bool
has_bytes none = false
has_bytes (some bytes) = true

abbrev bytes_of : Option (List ℕ) → List ℕ
bytes_of none = []
bytes_of (some bytes) = bytes

-- tcp_awaken and udp_awaken: the buffer, and whether the malloc for it failed.
unfoldable pub pipe_buffer : Bool → ℤ → M (Option (Option Block))
pipe_buffer has_pipedata cb =
    when has_pipedata && not (is_nonpos cb)
    then (do
      b ← allocate (pos_part cb)
      on_option b (return none) (λ block. return (some (some block))))
    else return (some none)

-- tcp_awaken and udp_awaken: the data is copied to the buffer. `none` is a copy to NULL, or of a
-- negative size.
pub copy_pipedata : Option Block → List ℕ → ℤ → Option (Option Block)
copy_pipedata buffer pipedata (negsuc n) = none
copy_pipedata none pipedata (pos cb) = if cb == 0 then some none else none
copy_pipedata (some b) pipedata (pos cb) =
    some (some (record b { bytes = put b.bytes 0 (take cb pipedata) }))

-- tcp_awaken and udp_awaken, from the packet on
unfoldable pub post_pipe : ℤ → Option Block → List ℕ → ℤ → M (Option ℤ)
post_pipe link buffer pipedata cb = do
  packet ← allocate_packet link proto_pipe pipe 0 no_access
  on_option packet (do release buffer; return (some minus_one))
      (λ p. on_option (copy_pipedata buffer pipedata cb) (return none) (λ filled. do
        let full : Packet = record p { ori_buffer = filled }
        ok ← syscall post_iocp
        when eq_ℤ ok (pos 0)
            then (do freepkt full; return (some minus_one))
            else (do emit (posted full); return (some (pos 0)))))

-- tcp_awaken and udp_awaken, once the link is referenced
unfoldable pub awaken_referenced : EpollManager → ℤ → Option (List ℕ) → ℤ → M (Option ℤ)
awaken_referenced epmgr link pipedata cb = do
  ncb ← get_ncb link
  on_option (io_get_pipefd epmgr ncb) (return none) (λ epfd.
      when epfd == 0 then return (some minus_one) else (do
        buffer ← pipe_buffer (has_bytes pipedata) cb
        on_option buffer (return (some minus_one)) (λ b. post_pipe link b (bytes_of pipedata) cb)))

-- tcp_awaken and udp_awaken. The data is `none` for NULL, and a result `none` is undefined
-- behaviour.
unfoldable pub awaken : EpollManager → ℤ → Option (List ℕ) → ℤ → M (Option ℤ)
awaken epmgr link pipedata cb = do
  enoent ← ask (λ env. negsuc env.enoent)
  found ← objrefr link
  when found then awaken_referenced epmgr link pipedata cb else return (some enoent)
