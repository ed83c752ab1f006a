-- ===== src/Mxx/Hosts.antt =====
-- Names and cards of this host, mxx.c: nis_gethost, nis_lgethost and nis_getifmisc.
use swnet_win.Base.{
  ℕ, ◌||◌, not, ℤ, pos, negsuc, minus_one, eq_ℤ, is_nonpos, Bool, false, Option, none, some, List,
  if◌then◌else◌, zero, suc, ◌*◌, ◌&&◌, leb, ltb_ℤ, pos_part, true, [], length,
}
use swnet_win.Types.{proto_unknown, Block}
use swnet_win.Io.{Atomic}
use swnet_win.Network.{Sockets, so_init}
use swnet_win.World.{
  get_adapters, M, return, when◌then◌else◌, on_option, ◌>>=◌, ◌>>◌, gethostname, syscall, ask,
  allocate, release,
}

-- ERROR_BUFFER_OVERFLOW
abbrev pub error_buffer_overflow : ℕ
error_buffer_overflow = 111

abbrev on_host : {A B : Type 0} → Option A → B → (A → B) → B
on_host none b f = b
on_host (some a) b f = f a

-- What gethostbyname or gethostbyaddr finds: the type and the length of the address, and its first
-- bytes as a number.
pub record Host : Type 0 where
  pub is_inet : Bool
  pub length : ℕ
  pub first_addr : ℕ

-- nis_gethost: the result, and what it writes, if it writes. `starts_alpha` is whether the name starts
-- with a letter, `parsed` what inet_addr gives, `none` for INADDR_NONE, and `find` what the system finds
-- by name, `true`, or by address. `ntohl` is the byte swap of the system's library.
unfoldable pub nis_gethost :
    Atomic
    → (ℕ → ℕ)
    → Bool
    → Bool
    → Option ℕ
    → (Bool → Option Host)
    → Sockets
    → M ((ℤ × Option ℕ) × Sockets)
nis_gethost atomic ntohl has_pointers starts_alpha parsed find s =
    when has_pointers
    then (do
      started ← so_init atomic proto_unknown s
      let remote =
          if starts_alpha then find true else elim parsed [ none ↦ none | some a ↦ find false ]
      return (
        on_host remote (minus_one, some 0)
            (λ host.
              if host.is_inet && leb 4 host.length
              then (pos 0, some (ntohl host.first_addr))
              else (minus_one, some 0)),
        started.1,
      ))
    else return ((minus_one, none), s)

-- nis_lgethost: whether the name was written
pub nis_lgethost : Bool → ℤ → M Bool
nis_lgethost has_name cb =
    when not has_name || is_nonpos cb
    then return false
    else (do retval ← syscall gethostname; return (eq_ℤ retval (pos 0)))

-- nis_getifmisc: the block for the adapters, from one call of GetAdaptersInfo to the next, ten times at
-- most. A call gives its result and the size that it wants.
unfoldable pub adapters_loop : ℕ → ℤ → ℕ → Option Block → M (Option (ℤ × Option Block))
adapters_loop zero retval size block = return (some (retval, block))
adapters_loop (suc i) retval size block =
    when eq_ℤ retval (pos error_buffer_overflow)
    then (do
      release block
      fresh ← allocate size
      on_option fresh (return none) (λ b. do
        again ← syscall get_adapters
        wanted ← (λ env w. (env.option_value w.history, w))
        adapters_loop i again wanted (some b)))
    else return (some (retval, block))

-- nis_getifmisc: an item of the result, from an adapter.
pub record IfMisc : Type 0 where
  pub interface : List ℕ
  pub addr : ℕ
  pub netmask : ℕ
  pub boardcast : ℕ

-- nis_getifmisc, once the block is filled; `adapters` is what the system wrote to it. The room is not
-- freed where it is too small for the caller's, and the size is given then.
unfoldable pub list_adapters : ℕ → Bool → ℤ → Option Block → List IfMisc → M (ℤ × ℕ × List IfMisc)
list_adapters item_size has_ifv cbifv block adapters =
    let acquire = length adapters * item_size in
    when not has_ifv || ltb_ℤ cbifv (pos acquire)
    then (do e ← ask (λ env. negsuc env.eagain); return (e, acquire, []))
    else (do release block; return (pos 0, pos_part cbifv, adapters))

-- nis_getifmisc; posix__makeerror is a function of another library. `has_cbifv` and `has_ifv` are
-- whether the pointers are set.
unfoldable pub nis_getifmisc : (ℤ → ℤ) → ℕ → List IfMisc → Bool → Bool → ℤ → M (ℤ × ℕ × List IfMisc)
nis_getifmisc makeerror item_size adapters has_ifv has_cbifv cbifv = do
  einval ← ask (λ env. negsuc env.einval)
  enomem ← ask (λ env. negsuc env.enomem)
  when not has_cbifv || (not (is_nonpos cbifv) && not has_ifv)
      then return (einval, pos_part cbifv, [])
      else (do
        first ← syscall get_adapters
        size ← (λ env w. (env.option_value w.history, w))
        r ← adapters_loop 10 first size none
        on_option r (return (enomem, pos_part cbifv, [])) (λ out.
            when eq_ℤ out.0 (pos 0)
            then list_adapters item_size has_ifv cbifv out.1 adapters
            else (do release out.1; return (makeerror out.0, pos_part cbifv, []))))
