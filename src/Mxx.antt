-- ===== src/Mxx.antt =====
-- User contexts and control, mxx.c: nis_setctx, nis_getctx, nis_refctx, nis_ctxsize, nis_getver,
-- nis_checr, nis_setmask, nis_getmask and nis_cntl.
pub mod Hosts
pub mod Context
pub mod References
use swnet_win.Base.{
  ℕ, ◌==◌, ◌||◌, not, ℤ, pos, negsuc, minus_one, eq_ℤ, is_nonpos, Bool, false, Option, none, some,
  List, take, if◌then◌else◌, zero, suc, ◌*◌, ◌&&◌, leb, ltb_ℤ, pos_part, true, [], length,
}
use swnet_win.Types.{proto_unknown, Block, Tst, Ncb}
use swnet_win.Tcp.Recv.Copy.{put}
use swnet_win.Tcp.Api.{tcp_settst_r, tcp_gettst_r}
use swnet_win.Io.{Atomic}
use swnet_win.Network.{Sockets, so_init}
use swnet_win.World.{
  get_adapters, M, U, return, when◌then◌else◌, on_option, ◌>>=◌, ◌>>◌, gethostname, objrefr,
  objdefr, get_ncb, put_ncb, syscall, ask, allocate, release, dangles,
}

-- nis_setctx, with no context: the block is freed, and the pointer to it stays. `none` is undefined
-- behaviour, here a block that is freed again.
unfoldable pub clear_ctx : ℤ → Ncb → M (Option ℤ)
clear_ctx lnk ncb = do
  freed ← dangles ncb.ncb_ctx
  when freed then return none else (do
    release ncb.ncb_ctx
    put_ncb lnk (record ncb { ncb_ctx_size = 0 })
    return (some (pos 0)))

-- nis_setctx, the copy. `none` is a copy to NULL or to a block that was freed.
unfoldable pub copy_ctx : ℤ → Ncb → List ℕ → M (Option ℤ)
copy_ctx lnk ncb ctx = on_option ncb.ncb_ctx (return none) (λ b. do
  freed ← dangles (some b)
  when freed then return none else (do
    put_ncb lnk (record ncb {
      ncb_ctx = some (record b { bytes = put b.bytes 0 (take ncb.ncb_ctx_size ctx) });
    })
    return (some (pos 0))))

-- nis_setctx, with a context of another size than the present one. `none` is a block that is freed
-- again.
unfoldable pub renew_ctx : ℤ → Ncb → List ℕ → ℕ → M (Option ℤ)
renew_ctx lnk ncb ctx size = do
  freed ← dangles ncb.ncb_ctx
  when freed then return none else (do
    release ncb.ncb_ctx
    put_ncb lnk (record ncb { ncb_ctx_size = size })
    block ← allocate size
    on_option block (return (some minus_one))
        (λ b. copy_ctx lnk (record ncb { ncb_ctx_size = size; ncb_ctx = some b }) ctx))

-- nis_setctx. The context is `none` for NULL, and a result `none` is undefined behaviour.
unfoldable pub nis_setctx : ℤ → Option (List ℕ) → ℕ → M (Option ℤ)
nis_setctx lnk ncb_ctx size = do
  found ← objrefr lnk
  when found
      then (do
        ncb ← get_ncb lnk
        retval ← on_option ncb_ctx (clear_ctx lnk ncb) (λ ctx.
            when size == 0
            then clear_ctx lnk ncb
            else when size == ncb.ncb_ctx_size
            then copy_ctx lnk ncb ctx
            else renew_ctx lnk ncb ctx size)
        after ← get_ncb lnk
        objdefr after.hld
        return retval)
      else return (some minus_one)

-- What a user of the context sees: the bytes, if there are any, and the size.
unfoldable pub context_of : Ncb → Option (List ℕ) × ℕ
context_of ncb = elim ncb.ncb_ctx [
  | none ↦ (none, ncb.ncb_ctx_size)
  | some b ↦ (
    if ncb.ncb_ctx_size == 0 then none else some (take ncb.ncb_ctx_size b.bytes),
    ncb.ncb_ctx_size,
  )
]

-- nis_getctx: the bytes that it writes and the size; `some none` is its failure, -1, and `none` is a
-- copy from a block that was freed.
unfoldable pub nis_getctx : ℤ → Bool → M (Option (Option (Option (List ℕ) × ℕ)))
nis_getctx lnk has_context =
    when has_context
    then (do
      found ← objrefr lnk
      when found
          then (do
            ncb ← get_ncb lnk
            freed ← dangles ncb.ncb_ctx
            objdefr ncb.hld
            return (
                if freed && not (ncb.ncb_ctx_size == 0)
                then none
                else some (some (context_of ncb))))
          else return (some none))
    else return (some none)

-- nis_refctx: the block of the context, and the size. `none` is a link that is gone.
pub nis_refctx : ℤ → M (Option (Option Block × ℕ))
nis_refctx lnk = do
  found ← objrefr lnk
  when found
      then (do
        ncb ← get_ncb lnk
        objdefr ncb.hld
        return (some (if ncb.ncb_ctx_size == 0 then none else ncb.ncb_ctx, ncb.ncb_ctx_size)))
      else return none

-- nis_ctxsize
pub nis_ctxsize : ℤ → M ℤ
nis_ctxsize lnk = do
  found ← objrefr lnk
  when found
      then (do ncb ← get_ncb lnk; objdefr ncb.hld; return (pos ncb.ncb_ctx_size))
      else return minus_one

-- nis_getver
pub record Version : Type 0 where
  pub major : ℕ
  pub minor : ℕ
  pub revision : ℕ

pub nis_getver : Bool → ℤ × Option Version
nis_getver has_version =
    if has_version
    then (pos 0, some (record { major = 9; minor = 7; revision = 6 }))
    else (minus_one, none)

-- nis_checr: `current_ecr` after the call, and the result. A callback is its address.
pub nis_checr : Option ℕ → Option ℕ → Option ℕ × Option ℕ
nis_checr current_ecr none = (none, none)
nis_checr current_ecr (some ecr) = (some ecr, current_ecr)

-- nis_setmask and nis_getmask
unfoldable pub nis_setmask : ℤ → ℕ → M ℤ
nis_setmask lnk mask = do
  found ← objrefr lnk
  when found
      then (do
        ncb ← get_ncb lnk
        put_ncb lnk (record ncb { attr = mask })
        objdefr lnk
        return (pos 0))
      else ask (λ env. negsuc env.eexist)

unfoldable pub nis_getmask : ℤ → M (Option ℕ)
nis_getmask lnk = do
  found ← objrefr lnk
  when found then (do ncb ← get_ncb lnk; objdefr lnk; return (some ncb.attr)) else return none

-- The commands of nis_cntl, with their arguments.
pub data Cntl : Type 0 where
  ni_setattr : ℕ → Cntl
  ni_getattr : Cntl
  ni_setctx : Option ℕ → Cntl
  ni_getctx : Cntl
  ni_settst : Option Tst → Cntl
  ni_gettst : Option Tst → Cntl
  unknown_command : Cntl

-- nis_cntl, once the link is referenced: the result, and what it writes for NI_GETCTX. `none` is
-- the command that is not known, with which the function returns at once. For NI_GETCTX the previous
-- context becomes what an uninitialised variable held, `stale`.
unfoldable pub cntl_referenced : Option ℕ → ℤ → Ncb → Cntl → M (Option (ℤ × Option ℕ))
cntl_referenced stale link ncb (ni_setattr attr) = do
  put_ncb link (record ncb { attr = attr })
  return (some (pos 0, none))
cntl_referenced stale link ncb ni_getattr = return (some (pos ncb.attr, none))
cntl_referenced stale link ncb (ni_setctx context) = do
  put_ncb link (record ncb { context = context; prcontext = ncb.context })
  return (some (pos 0, none))
cntl_referenced stale link ncb ni_getctx = do
  put_ncb link (record ncb { prcontext = stale })
  return (some (pos 0, ncb.context))
cntl_referenced stale link ncb (ni_settst tst) = do
  retval ← tcp_settst_r link tst
  return (some (retval, none))
cntl_referenced stale link ncb (ni_gettst tst) = do
  r ← tcp_gettst_r link tst
  return (some (r.0, none))
cntl_referenced stale link ncb unknown_command = return none

-- nis_cntl. A command that is not known leaves the reference behind.
unfoldable pub nis_cntl : Option ℕ → ℤ → Cntl → M (ℤ × Option ℕ)
nis_cntl stale link cmd = do
  enoent ← ask (λ env. negsuc env.enoent)
  einval ← ask (λ env. negsuc env.einval)
  found ← objrefr link
  when found
      then (do
        ncb ← get_ncb link
        r ← cntl_referenced stale link ncb cmd
        on_option r (return (einval, none)) (λ out. do objdefr link; return out))
      else return (enoent, none)
