-- ===== src/Core/Words.antt =====
-- Arithmetic on `u16` and `u32` as Rust builds it: with overflow checks in a debug build, and
-- modulo the width in a release build.
use redog.Common.{ℕ, ◌+◌, ◌-◌, ◌*◌, ◌%◌, ◌^◌, ltb, leb, if◌then◌else◌}
use redog.Core.Error.{Build, debug, release, Outcome, done, panic}

abbrev pub overflow : Build → ℕ → Outcome ℕ
overflow debug wrapped = panic
overflow release wrapped = done wrapped

unfoldable pub add_u16 : Build → ℕ → ℕ → Outcome ℕ
add_u16 b x y = if ltb (x + y) 65536 then done (x + y) else overflow b ((x + y) % 65536)

unfoldable pub add_u32 : Build → ℕ → ℕ → Outcome ℕ
add_u32 b x y = if ltb (x + y) 4294967296 then done (x + y) else overflow b ((x + y) % 4294967296)

unfoldable pub sub_u32 : Build → ℕ → ℕ → Outcome ℕ
sub_u32 b x y = if leb y x then done (x - y) else overflow b (x + 4294967296 - y)

-- `x << s`: a shift by 32 or more is an overflow, and wraps to a shift by `s % 32`.
unfoldable pub shl_u32 : Build → ℕ → ℕ → Outcome ℕ
shl_u32 b x s =
    if ltb s 32 then done (x * 2 ^ s % 4294967296) else overflow b (x * 2 ^ (s % 32) % 4294967296)

-- `!x`
abbrev pub not_u32 : ℕ → ℕ
not_u32 x = 4294967295 - x
