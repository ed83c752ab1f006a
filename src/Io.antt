-- ===== src/Io.antt =====
-- The IO threads of io.c: __ioinit, ioinit, iouninit.
use swnet_win.Base.{
  ℕ, zero, suc, ◌*◌, ltb, ◌==◌, not, ℤ, pos_part, Bool, true, false, Option, none, some, List, [],
  ◌∷◌,
}
use swnet_win.Types.{Block}
use swnet_win.Pipe.{Epoll, EpollManager}
use swnet_win.World.{
  M, U, return, when◌then◌else◌, on_option, ◌>>=◌, ◌>>◌, create_iocp, create_thread, nprocs,
  wait_thread, close_handle, post_iocp, syscall, ask, allocate, release,
}

-- posix__atomic_initial_*: from the state of a variable, whether the step is this caller's, and the
-- state after it.
pub record Atomic : Type 0 where
  pub initial_try : ℤ → Bool × ℤ
  pub initial_exception : ℤ → ℤ
  pub initial_complete : ℤ → ℤ
  pub initial_regress : ℤ → Bool × ℤ

-- `__inited__`, with `epmgr` and the block of its array
pub record IoState : Type 0 where
  pub inited : ℤ
  pub epmgr : EpollManager
  pub block : Option Block

-- __ioinit, the threads. A handle is never less than NULL, so that only a thread that cannot be
-- created leaves its element inactive.
unfoldable pub start_threads : ℕ → M (List Epoll)
start_threads zero = return []
start_threads (suc n) = do
  epfd ← syscall create_iocp
  thread ← syscall create_thread
  rest ← start_threads n
  return (
      record {
        epfd = pos_part epfd;
        actived = not (pos_part thread == 0);
        thread = pos_part thread;
        load = 0;
      }
      ∷ rest)

-- __ioinit; `none` is its failure
unfoldable pub init_threads : IoState → M (Bool × IoState)
init_threads io = do
  divisions ← syscall nprocs
  size ← ask (λ env. env.sizeof_epoll)
  let count = pos_part divisions
  block ← allocate (size * count)
  on_option block
      (return
        (false, record io { epmgr = record { epos = none; divisions = count }; block = none }))
      (λ b. do
        epos ← start_threads count
        return (
          true,
          record io { epmgr = record { epos = some epos; divisions = count }; block = some b },
        ))

-- ioinit: the state of `__inited__`
unfoldable pub ioinit : Atomic → IoState → M (ℤ × IoState)
ioinit atomic io =
    let tried = atomic.initial_try io.inited in
    when tried.0
    then (do
      r ← init_threads (record io { inited = tried.1 })
      when r.0
          then return (
            atomic.initial_complete tried.1,
            record r.1 { inited = atomic.initial_complete tried.1 },
          )
          else return (
            atomic.initial_exception tried.1,
            record r.1 { inited = atomic.initial_exception tried.1 },
          ))
    else return (tried.1, record io { inited = tried.1 })

-- iouninit, one thread: it is asked to end and waited for, and the handles are closed.
unfoldable pub stop_thread : Epoll → M U
stop_thread e = do
  when e.actived
      then (do syscall post_iocp; syscall wait_thread; syscall close_handle; return tt)
      else return tt
  when ltb 0 e.epfd then (do syscall close_handle; return tt) else return tt

unfoldable pub stop_threads : List Epoll → M U
stop_threads [] = return tt
stop_threads (e ∷ es) = do stop_thread e; stop_threads es

-- iouninit
unfoldable pub iouninit : Atomic → IoState → M IoState
iouninit atomic io =
    let regressed = atomic.initial_regress io.inited in
    let after : IoState = record io { inited = regressed.1 } in
    when regressed.0
    then on_option io.epmgr.epos (return after) (λ epos. do
      stop_threads epos
      release io.block
      return (record after { epmgr = record io.epmgr { epos = none }; block = none }))
    else return after
