-- ===== src/Pcm/Limits/Levels.antt =====
-- Where the limits lie, and that conversions keep them.
use ni_media.Common.{ℕ, ◌-◌, ◌*◌, ◌/◌, ◌^◌, ◌≤◌, ◌≡◌, arith, ◌∙◌}
use native.Mathlib.Nat.{pow-le-pow_right, one-le-pow}
use ni_media.Pcm.Convert.{IntType, Size, size_bits, width, IsValue, convert_to}
use ni_media.Pcm.Convert.Level.{level, level_determines, convert_to-level, convert_to-IsValue}
use ni_media.Pcm.Limits
use ni_media.Pcm.Limits.{bits, step, scale}

-- Of each integer sample type the least value is negative full scale, the zero lies half of the
-- range above it, and the largest value of some number of bits, from 1 to those of the type, lies
-- one step of that many bits below the end of the range.
pub limits-level :
    (t : IntType) (n : ℕ)
    → 1 ≤ n
    → n ≤ width t
    → (level t (Limits.min t) ≡ 0)
      × (level t (Limits.zero t) ≡ 2 ^ (width t - 1))
      × (level t (Limits.max t n) ≡ 2 ^ width t - step t n)
unfolding Limits.min Limits.zero Limits.max scale step bits
limits-level t n h h' =
    let s : 2 ^ (width t - n) ≤ 2 ^ (width t - 1) = pow-le-pow_right (omega arith) (omega arith) in
    let s' : 1 ≤ 2 ^ (width t - n) = one-le-pow (width t - n) 2 (omega arith) in ground arith

zero-IsValue : (t : IntType) → IsValue t (Limits.zero t)
unfolding Limits.zero Limits.min scale step bits
zero-IsValue t = ground arith

zero-level : (t : IntType) → level t (Limits.zero t) ≡ 2 ^ (width t - 1)
unfolding Limits.zero Limits.min scale step bits
zero-level t = ground arith

half :
    (m n : Size) → 2 ^ (size_bits n - 1) * 2 ^ size_bits m / 2 ^ size_bits n ≡ 2 ^ (size_bits m - 1)
half m n = ground arith

-- A conversion between integer types takes the zero of one to the zero of the other, so that
-- silence stays silence.
pub convert_to-zero :
    (target source : IntType) → convert_to target source (Limits.zero source) ≡ Limits.zero target
convert_to-zero target source =
    level_determines target.is_signed target.size _ (Limits.zero target)
      (convert_to-IsValue target source (Limits.zero source) (zero-IsValue source))
      (zero-IsValue target)
      (convert_to-level target source (Limits.zero source) (zero-IsValue source)
        ∙ rw (zero-level source, zero-level target) (half target.size source.size))
