-- ===== src/Os.antt =====
-- Pages that stay in memory: os.c.
pub mod Loop
pub mod Pages
use swnet_win.Base.{
  ℕ, zero, suc, ◌%◌, ◌==◌, ◌||◌, ◌&&◌, not, ℤ, pos, minus_one, is_neg, eq_ℤ, pos_part, Bool, true,
  false, Option, none, some, if◌then◌else◌,
}
use swnet_win.World.{
  M, U, return, when◌then◌else◌, ◌>>=◌, ◌>>◌, emit, pages_made, pages_freed, virtual_alloc,
  virtual_commit, virtual_lock, virtual_unlock, open_process, get_working_set, set_working_set,
  close_handle, syscall, ask,
}

-- PAGE_SIZE
abbrev pub page_size : ℕ
page_size = 4096

-- ERROR_WORKING_SET_QUOTA and ERROR_NOACCESS
abbrev pub error_working_set_quota : ℕ
error_working_set_quota = 1453

abbrev pub error_noaccess : ℕ
error_noaccess = 998

-- A call that gives TRUE or FALSE.
abbrev pub succeeds : ℤ → Bool
succeeds r = not (eq_ℤ r (pos 0))

-- os_allocate_block, of this process; an address is 0 for NULL. The exceptions of the system are the
-- failure of the call.
unfoldable pub os_allocate_block : ℕ → M ℕ
os_allocate_block size = do
  when not (size % page_size == 0) || size == 0 then return 0 else (do
    r ← syscall virtual_alloc
    when pos_part r == 0
        then return 0
        else (do emit (pages_made (pos_part r)); return (pos_part r)))

-- os_free_memory_block
unfoldable pub os_free_memory_block : ℕ → M U
os_free_memory_block memory = when memory == 0 then return tt else emit (pages_freed memory)

-- os_unlock_and_free_virtual_pages
unfoldable pub os_unlock_and_free_virtual_pages : ℕ → M Bool
os_unlock_and_free_virtual_pages memory =
    when memory == 0
    then return false
    else (do syscall (virtual_unlock memory); os_free_memory_block memory; return true)

-- What the loop of os_lock_virtual_pages leaves: whether the last call was successful, the block, and
-- whether the process was opened.
pub record Locking : Type 0 where
  pub successful : Bool
  pub memory : ℕ
  pub opened : Bool

-- os_lock_virtual_pages: the working set is made larger by the size of the block. `true` goes on.
unfoldable pub grow_working_set : M Bool
grow_working_set = do
  got ← syscall get_working_set
  when succeeds got then (do set ← syscall set_working_set; return (succeeds set)) else return false

-- os_lock_virtual_pages: the process is opened, unless it is.
unfoldable pub open_self : Bool → M Bool
open_self opened =
    when opened then return true else (do r ← syscall open_process; return (not (eq_ℤ r minus_one)))

-- os_lock_virtual_pages, the loop. The block is committed once at most; the process is opened once.
-- `none` is a loop that outruns its fuel. A negative answer of VirtualAlloc is an exception, which
-- leaves the address of the block as it was; 0 is NULL.
unfoldable pub lock_loop : ℕ → ℕ → Bool → Bool → M (Option Locking)
lock_loop zero memory opened flag = return none
lock_loop (suc fuel) memory opened flag = do
  locked ← syscall (virtual_lock memory)
  error ← (λ env w. (env.last_error w.history, w))
  when succeeds locked
      then return (some (record { successful = true; memory = memory; opened = opened }))
      else when error == error_working_set_quota
      then (do
        ready ← open_self opened
        grown ← (when ready then grow_working_set else return false)
        when grown
            then lock_loop fuel memory true flag
            else return (some (record { successful = false; memory = memory; opened = ready })))
      else when error == error_noaccess && flag
      then (do
        r ← syscall (virtual_commit memory)
        when is_neg r
            then return (some (record { successful = false; memory = memory; opened = opened }))
            else when pos_part r == 0
            then return (some (record { successful = false; memory = 0; opened = opened }))
            else lock_loop fuel (pos_part r) opened false)
      else return (some (record { successful = false; memory = memory; opened = opened }))

-- os_lock_virtual_pages, after the loop: a block that is not locked is freed.
unfoldable pub lock_finish : Option Locking → M (Option ℕ)
lock_finish none = return none
lock_finish (some l) = do
  when l.opened then (do syscall close_handle; return tt) else return tt
  when l.successful
      then return (some l.memory)
      else (do os_free_memory_block l.memory; return (some 0))

-- os_lock_virtual_pages, of a block, 0 for NULL.
unfoldable pub os_lock_virtual_pages : ℕ → ℕ → ℕ → M (Option ℕ)
os_lock_virtual_pages fuel memory size = do
  when memory == 0
      then (do
        made ← os_allocate_block size
        when made == 0
            then return (some 0)
            else (do l ← lock_loop fuel made false true; lock_finish l))
      else when size % page_size == 0
      then (do l ← lock_loop fuel memory false true; lock_finish l)
      else return (some 0)
