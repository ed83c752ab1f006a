-- ===== src/Base/Words.antt =====
-- LONG counters under the Interlocked functions: 32-bit words, read as signed numbers.
use Prim.Native.Nat.{ℕ, ◌+◌, ◌-◌, ◌%◌, ◌^◌}
use mathlib.Core.Bool.{Bool, ◌&&◌}
use swnet_win.Base.Tests.{leb, ltb}

-- InterlockedIncrement and InterlockedDecrement: the new value.
abbrev pub increment : ℕ → ℕ
increment x = (x + 1) % 2 ^ 32

abbrev pub decrement : ℕ → ℕ
decrement x = (x + (2 ^ 32 - 1)) % 2 ^ 32

-- `x >= k` for a LONG `x` and a constant `k` that is not negative.
abbrev pub long_ge : ℕ → ℕ → Bool
long_ge x k = leb k x && ltb x (2 ^ 31)
