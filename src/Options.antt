-- ===== src/Options.antt =====
-- The options of a socket: the setters and getters of ncb.c, and those of tcp.c.
use swnet_win.Base.{
  ℕ, ◌+◌, ◌*◌, ◌/◌, ◌^◌, ◌%◌, ltb, ◌==◌, ℤ, pos, negsuc, minus_one, is_neg, Option, none, some,
}
use swnet_win.Types.{Ncb}
use swnet_win.World.{
  M, return, when◌then◌else◌, ◌>>=◌, ◌>>◌, ask, setsockopt, getsockopt, syscall, get_ncb, put_ncb,
}

-- The options that the code sets, by numbers that tell them apart.
abbrev pub so_rcvbuf : ℕ
so_rcvbuf = 0

abbrev pub so_sndbuf : ℕ
so_sndbuf = 1

abbrev pub so_linger : ℕ
so_linger = 2

abbrev pub so_keepalive : ℕ
so_keepalive = 3

abbrev pub tcp_nodelay : ℕ
tcp_nodelay = 4

abbrev pub so_update_accept_context : ℕ
so_update_accept_context = 5

abbrev pub so_update_connect_context : ℕ
so_update_connect_context = 6

abbrev pub so_broadcast : ℕ
so_broadcast = 7

abbrev pub ip_multicast_loop : ℕ
ip_multicast_loop = 8

abbrev pub ip_add_membership : ℕ
ip_add_membership = 9

abbrev pub ip_drop_membership : ℕ
ip_drop_membership = 10

abbrev pub ip_tos : ℕ
ip_tos = 11

abbrev pub so_rcvtimeo : ℕ
so_rcvtimeo = 12

abbrev pub so_sndtimeo : ℕ
so_sndtimeo = 13

abbrev pub tcp_maxseg : ℕ
tcp_maxseg = 14

-- -EINVAL
abbrev pub invalid : M ℤ
invalid = ask (λ env. negsuc env.einval)

-- getsockopt, with what it writes. A failure writes nothing.
pub get_option : ℕ → M (ℤ × Option ℕ)
get_option opt = do
  retval ← syscall (getsockopt opt 0)
  value ← (λ env w. (env.option_value w.history, w))
  when is_neg retval then return (retval, none) else return (retval, some value)

-- A value that is written to a field of the control block at `h`.
abbrev pub into_field : ℤ → ℕ → (ℕ → Ncb → Ncb) → M ℤ
into_field h opt set = do
  got ← get_option opt
  elim got.1 [
    | none ↦ return got.0
    | some value ↦ do ncb ← get_ncb h; put_ncb h (set value ncb); return got.0
  ]

-- ncb_set_rcvtimeo and ncb_set_sndtimeo; `none` is a NULL pointer
pub ncb_set_rcvtimeo : Option ℕ → M ℤ
ncb_set_rcvtimeo none = invalid
ncb_set_rcvtimeo (some timeo) = syscall (setsockopt so_rcvtimeo timeo)

pub ncb_set_sndtimeo : Option ℕ → M ℤ
ncb_set_sndtimeo none = invalid
ncb_set_sndtimeo (some timeo) = syscall (setsockopt so_sndtimeo timeo)

-- ncb_get_rcvtimeo, ncb_get_sndtimeo and ncb_get_iptos
pub ncb_get_rcvtimeo : ℤ → M ℤ
ncb_get_rcvtimeo h = into_field h so_rcvtimeo (λ value ncb. record ncb { rcvtimeo = value })

pub ncb_get_sndtimeo : ℤ → M ℤ
ncb_get_sndtimeo h = into_field h so_sndtimeo (λ value ncb. record ncb { sndtimeo = value })

pub ncb_get_iptos : ℤ → M ℤ
ncb_get_iptos h = into_field h ip_tos (λ value ncb. record ncb { iptos = value })

-- ncb_set_iptos: the low byte, unless it is zero.
pub ncb_set_iptos : ℕ → M ℤ
ncb_set_iptos tos =
    let type_of_service = tos % 256 in
    when type_of_service == 0 then invalid else syscall (setsockopt ip_tos type_of_service)

-- ncb_set_window_size
unfoldable pub ncb_set_window_size : ℕ → ℕ → M ℤ
ncb_set_window_size dir size = syscall (setsockopt dir size)

-- ncb_get_window_size. The value is read, and the answer is an error all the same.
pub ncb_get_window_size : ℕ → M (ℤ × Option ℕ)
ncb_get_window_size dir = do
  got ← get_option dir
  error ← invalid
  when is_neg got.0 then return (minus_one, got.1) else return (error, got.1)

-- ncb_set_linger: `struct linger`, of two 16-bit words, l_onoff in the lower one.
unfoldable pub ncb_set_linger : ℕ → ℕ → M ℤ
ncb_set_linger onoff lin = syscall (setsockopt so_linger (onoff % 2 ^ 16 + 2 ^ 16 * (lin % 2 ^ 16)))

-- ncb_get_linger, l_onoff and l_linger of what the system gives for SO_KEEPALIVE
pub ncb_get_linger : M (ℤ × Option (ℕ × ℕ))
ncb_get_linger = do
  got ← get_option so_keepalive
  elim got.1 [
    | none ↦ return (minus_one, none)
    | some value ↦ return (pos 0, some (value % 2 ^ 16, value / 2 ^ 16))
  ]

-- ncb_set_keepalive and ncb_get_keepalive
unfoldable pub ncb_set_keepalive : ℕ → M ℤ
ncb_set_keepalive enable = syscall (setsockopt so_keepalive enable)

pub ncb_get_keepalive : M (ℤ × Option ℕ)
ncb_get_keepalive = get_option so_keepalive

-- tcp_save_info
pub tcp_save_info : M ℤ
tcp_save_info = return minus_one

-- tcp_setmss and tcp_getmss
pub tcp_setmss : ℤ → M ℤ
tcp_setmss (negsuc n) = invalid
tcp_setmss (pos mss) = when ltb 0 mss then syscall (setsockopt tcp_maxseg mss) else invalid

pub tcp_getmss : ℤ → M ℤ
tcp_getmss h = into_field h tcp_maxseg (λ value ncb. record ncb { mss = value })

-- tcp_set_nodelay and tcp_get_nodelay
unfoldable pub tcp_set_nodelay : ℕ → M ℤ
tcp_set_nodelay set = syscall (setsockopt tcp_nodelay set)

pub tcp_get_nodelay : M (ℤ × Option ℕ)
tcp_get_nodelay = get_option tcp_nodelay
