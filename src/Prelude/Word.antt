-- ===== src/Prelude/Word.antt =====
-- Unsigned machine words. Arithmetic wraps, as it does in a release build.
use Prim.Native.Nat.{ℕ, ◌+◌, ◌-◌, ◌*◌, ◌%◌, ◌^◌}
use mathlib.Core.Option.{Option, none, some}
use redbx.Prelude.Tests.{if◌then◌else◌, ltb}

abbrev pub u32_size : ℕ
u32_size = 2 ^ 32

abbrev pub u64_size : ℕ
u64_size = 2 ^ 64

abbrev pub add32 : ℕ → ℕ → ℕ
add32 a b = (a + b) % u32_size

abbrev pub sub32 : ℕ → ℕ → ℕ
sub32 a b = (a + u32_size - b) % u32_size

abbrev pub mul32 : ℕ → ℕ → ℕ
mul32 a b = a * b % u32_size

abbrev pub add64 : ℕ → ℕ → ℕ
add64 a b = (a + b) % u64_size

abbrev pub sub64 : ℕ → ℕ → ℕ
sub64 a b = (a + u64_size - b) % u64_size

abbrev pub mul64 : ℕ → ℕ → ℕ
mul64 a b = a * b % u64_size

-- `u32::try_from(n)`
abbrev pub to_u32 : ℕ → Option ℕ
to_u32 n = if ltb n u32_size then some n else none
