-- ===== src/Pcm/Limits.antt =====
-- The limits of the integer sample types (limits.h), as bit patterns.
pub mod Levels
use ni_media.Common.{ℕ, ◌+◌, ◌-◌, ◌%◌, ◌^◌, if◌then◌else◌}
use ni_media.Pcm.Convert.{IntType, width}

unfoldable pub bits : IntType → ℕ
bits t = width t

-- The distance of neighbours at a number of bits, from 1 to those of the type.
unfoldable pub step : IntType → ℕ → ℕ
step t n = 2 ^ (bits t - n)

unfoldable pub scale : IntType → ℕ
scale t = step t 1

-- `std::numeric_limits` of the type.
unfoldable pub min : IntType → ℕ
min t = if t.is_signed then 2 ^ (width t - 1) else 0

abbrev pub largest : IntType → ℕ
largest t = if t.is_signed then 2 ^ (width t - 1) - 1 else 2 ^ width t - 1

unfoldable pub zero : IntType → ℕ
zero t = (min t + scale t) % 2 ^ width t

-- The difference wraps in the type.
unfoldable pub max : IntType → ℕ → ℕ
max t n = (largest t + (2 ^ width t - step t n) + 1) % 2 ^ width t
