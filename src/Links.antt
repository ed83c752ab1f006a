-- ===== src/Links.antt =====
-- What every protocol does with a control block: ncb_init and the ncb_post_* of ncb.c, ioatth and
-- ioclose of io.c.
use swnet_win.Base.{
  ℕ, ℤ, pos, minus_one, is_neg, Bool, false, ◌==◌, none, some, List, [], replicate,
}
use swnet_win.Types.{ProtoType, Ncb}
use swnet_win.Packets.{null_addr}
use swnet_win.World.{
  M, U, return, when◌then◌else◌, ◌>>=◌, ◌>>◌, create_iocp, shutdown_close, pre_close, closed_evt,
  connected, accepted, receive, pipe, notify, get_ncb, put_ncb, syscall, release,
}

-- ncb_init: all zero, but for the socket and the protocol.
pub ncb_init : ProtoType → Ncb
ncb_init proto = record {
  hld = pos 0;
  sockfd = none;
  proto_type = proto;
  local_addr = null_addr;
  remote_addr = null_addr;
  nis_callback = false;
  flag = 0;
  connected = 0;
  mreq = none;
  rcvtimeo = 0;
  sndtimeo = 0;
  iptos = 0;
  attr = 0;
  context = none;
  prcontext = none;
  lb_data = none;
  lb_cpy_offset = 0;
  lb_length = 0;
  tcp_sender_cache = [];
  tcp_sender_list_size = 0;
  tcp_write_pending = 0;
  tcp_tst = record { cb = 0; builder = none; parser = none };
  mss = 0;
  ncb_ctx = none;
  ncb_ctx_size = 0;
  source_mac = replicate 6 0;
}

-- ncb_post_preclose, ncb_post_close, ncb_post_recvdata, ncb_post_pipedata, ncb_post_accepted and
-- ncb_post_connected
unfoldable pub ncb_post_preclose : Ncb → M U
ncb_post_preclose ncb = notify ncb pre_close

unfoldable pub ncb_post_close : Ncb → M U
ncb_post_close ncb = notify ncb closed_evt

pub ncb_post_recvdata : Ncb → ℕ → List ℕ → M U
ncb_post_recvdata ncb cb bytes =
    notify ncb (receive (record { link = ncb.hld; size = cb; bytes = bytes }))

unfoldable pub ncb_post_pipedata : Ncb → ℕ → M U
ncb_post_pipedata ncb cb = notify ncb (pipe cb)

unfoldable pub ncb_post_accepted : Ncb → ℤ → M U
ncb_post_accepted ncb link = notify ncb (accepted link)

unfoldable pub ncb_post_connected : Ncb → M U
ncb_post_connected ncb = notify ncb connected

-- ioatth, on the control block at `h`. `inited` is whether the IO module is initialised.
unfoldable pub ioatth : Bool → ℤ → M ℤ
ioatth inited h =
    when inited
    then (do
      bound ← syscall create_iocp
      when is_neg bound then return minus_one else return (pos 0))
    else return minus_one

-- ioclose
unfoldable pub ioclose : ℤ → M U
ioclose h = do
  ncb ← get_ncb h
  elim ncb.sockfd [
    | none ↦ return tt
    | some fd ↦ do syscall shutdown_close; put_ncb h (record ncb { sockfd = none })
  ]

-- The user context of a link that is unloaded.
unfoldable pub free_context : Ncb → M U
free_context ncb = when ncb.ncb_ctx_size == 0 then return tt else release ncb.ncb_ctx
