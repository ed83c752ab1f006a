-- ===== src/Udp/Tx.antt =====
-- Sending a datagram, udp.c: __udp_tx_single_packet and udp_write.
pub mod Wire
pub mod Bounds
pub mod Refusal
pub mod Write
use swnet_win.Base.{
  ℕ, zero, suc, ◌+◌, ◌-◌, ◌==◌, ◌||◌, not, ltb, ℤ, pos, negsuc, minus_one, is_neg, is_nonpos,
  pos_part, Bool, if◌then◌else◌, Option, none, some, List, take, drop,
}
use swnet_win.Tcp.Recv.Copy.{put}
use swnet_win.Tcp.Write.{Serializer}
use swnet_win.World.{
  M, return, when◌then◌else◌, on_option, ◌>>=◌, ◌>>◌, sendto, objrefr, objdefr, ask, allocate,
  release,
}

-- What is left of the data after an answer of sendto.
abbrev pub advance : ℕ → ℤ → ℕ
advance offset (pos n) = offset + n
advance offset (negsuc n) = offset

-- __udp_tx_single_packet, from `offset` on. `none` is a loop that outruns its fuel.
unfoldable pub tx_loop : ℕ → List ℕ → ℕ → ℕ → M (Option ℤ)
tx_loop zero bytes cb offset = return none
tx_loop (suc fuel) bytes cb offset =
    when ltb offset cb
    then (do
      wcb ← sendto (take (cb - offset) (drop offset bytes))
      interrupted ← (λ env w. (env.interrupted w.history, w))
      when is_nonpos wcb
          then when interrupted then tx_loop fuel bytes cb offset else return (some minus_one)
          else tx_loop fuel bytes cb (advance offset wcb))
    else return (some (pos 0))

-- __udp_tx_single_packet
unfoldable pub udp_tx_single_packet : ℕ → List ℕ → ℕ → M (Option ℤ)
udp_tx_single_packet fuel bytes cb = tx_loop fuel bytes cb 0

-- udp_write: the buffer, filled by the serializer or by a copy. `none` is the serializer's refusal.
unfoldable pub fill_buffer : Option Serializer → List ℕ → List ℕ → ℕ → Option (List ℕ)
fill_buffer none room origin cb = some (put room 0 (take cb origin))
fill_buffer (some serializer) room origin cb =
    let answer = serializer room origin (pos cb) in if is_neg answer.0 then none else some answer.1

-- udp_write, from the buffer on
unfoldable pub write_buffer : ℕ → List ℕ → ℕ → Option Serializer → M (Option ℤ)
write_buffer fuel origin cb serializer = do
  nomem ← ask (λ env. negsuc env.enomem)
  buffer ← allocate cb
  on_option buffer (return (some nomem)) (λ b. do
    retval ←
        on_option (fill_buffer serializer b.bytes origin cb) (return (some minus_one))
          (λ bytes. udp_tx_single_packet fuel bytes cb)
    release (some b)
    return retval)

-- udp_write. Without an address the call is refused; the origin is the bytes at the pointer.
unfoldable pub udp_write : ℕ → ℤ → List ℕ → ℤ → Bool → ℕ → Option Serializer → M (Option ℤ)
udp_write fuel lnk origin cb has_address r_port serializer = do
  einval ← ask (λ env. negsuc env.einval)
  enoent ← ask (λ env. negsuc env.enoent)
  limit ← ask (λ env. env.max_udp_unit)
  when not has_address || (r_port == 0 || (is_nonpos cb || (is_neg lnk || ltb limit (pos_part cb))))
      then return (some einval)
      else (do
        found ← objrefr lnk
        when found
            then (do
              retval ← write_buffer fuel origin (pos_part cb) serializer
              objdefr lnk
              return retval)
            else return (some enoent))
