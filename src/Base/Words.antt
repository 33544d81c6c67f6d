-- ===== src/Base/Words.antt =====
-- `uint32_t` arithmetic: a word is a number below `word`, and each operation wraps.
use esp32_real_time_energy_c.Base.Tests.{leb}
use Prim.Native.Nat.{ℕ, ◌+◌, ◌-◌, ◌%◌, ◌^◌, ◌<◌}
use mathlib.Core.Path.{◌≡◌}
use mathlib.Core.Bool.{Bool}
use native.Mathlib.Omega.{arith}

abbrev pub word : ℕ
word = 2 ^ 32

-- `static_cast<uint32_t>(a - b)`
abbrev pub sub32 : ℕ → ℕ → ℕ
sub32 a b = (a + word - b) % word

-- `a + b` on `uint32_t`
abbrev pub add32 : ℕ → ℕ → ℕ
add32 a b = (a + b) % word

-- `static_cast<int32_t>(w) < 0`
abbrev pub is_negative32 : ℕ → Bool
is_negative32 w = leb (2 ^ 31) w

-- The age of a time stamp is the time that has passed, across the wrap of the clock too.
pub sub32-add32 : (t d : ℕ) → t < word → d < word → sub32 (add32 t d) t ≡ d
sub32-add32 t d ht hd = omega arith

pub sub32-lt : (a b : ℕ) → sub32 a b < word
sub32-lt a b = omega arith
