-- ===== src/Pcm/Convert/Level.antt =====
-- A conversion keeps the amplitude, up to the bits that the target does not have.
use Prim.Native.Nat.{bit_xor}
use ni_media.Common.{
  ℕ, ◌+◌, ◌-◌, ◌*◌, ◌/◌, ◌%◌, ◌^◌, ◌<◌, ◌≤◌, ◌≡◌, refl, arith, Bool, true, false, if◌then◌else◌,
  ◌∙◌, suc, ap,
}
use native.Mathlib.Nat.{pow-suc}
use ni_media.Common.Bits.{xor_sets, xor_clears}
use ni_media.Pcm.Convert.{
  Size, size8, size16, size32, size64, size_bits, IntType, width, IsValue, convert_to, sign_cast,
  shift_cast, with_sign,
}

-- How far a value lies above the least one of its type: the amplitude in units of the type's last
-- bit, counted from negative full scale.
abbrev pub level : IntType → ℕ → ℕ
level t x = if t.is_signed then (x + 2 ^ (width t - 1)) % 2 ^ width t else x

-- The exclusive or with the top bit moves a value by half of the range.
clear_top : (k x : ℕ) → 2 ^ k ≤ x → x < 2 ^ suc k → bit_xor x (2 ^ k) ≡ x - 2 ^ k
clear_top k x low high =
    let e : x ≡ x - 2 ^ k + 2 ^ k = omega arith in
    ap (λ (t : ℕ). bit_xor t (2 ^ k)) e ∙ xor_clears k (x - 2 ^ k) (omega (arith, pow-suc 2 k))

flip :
    (s : Size) (x : ℕ)
    → x < 2 ^ size_bits s
    → bit_xor x (2 ^ (size_bits s - 1)) ≡ (x + 2 ^ (size_bits s - 1)) % 2 ^ size_bits s
flip size8 x h = ground (arith, xor_sets 7 x, clear_top 7 x)
flip size16 x h = ground (arith, xor_sets 15 x, clear_top 15 x)
flip size32 x h = ground (arith, xor_sets 31 x, clear_top 31 x)
flip size64 x h = ground (arith, xor_sets 63 x, clear_top 63 x)

-- A cast of the signedness keeps the level.
sign_cast-level :
    (s : Bool) (source : IntType) (x : ℕ)
    → IsValue source x
    → IsValue source (sign_cast (with_sign s source) source x)
      × (level (with_sign s source) (sign_cast (with_sign s source) source x) ≡ level source x)
unfolding sign_cast
sign_cast-level s source x h = ground (arith, flip source.size x h)

shift_cast-level :
    (s : Bool) (target source : Size) (x : ℕ)
    → x < 2 ^ size_bits source
    → let t : IntType = record { is_signed = s; size = target } in
      let u : IntType = record { is_signed = s; size = source } in
      level t (shift_cast t u x) ≡ level u x * 2 ^ size_bits target / 2 ^ size_bits source
unfolding shift_cast
shift_cast-level true size8 size8 x h = ground arith
shift_cast-level true size8 _ x h = ground arith
shift_cast-level true size16 size8 x h = ground arith
shift_cast-level true size16 _ x h = ground arith
shift_cast-level true size32 size8 x h = ground arith
shift_cast-level true size32 _ x h = ground arith
shift_cast-level true size64 size8 x h = ground arith
shift_cast-level true size64 _ x h = ground arith
shift_cast-level false size8 size8 x h = ground arith
shift_cast-level false size8 _ x h = ground arith
shift_cast-level false size16 size8 x h = ground arith
shift_cast-level false size16 _ x h = ground arith
shift_cast-level false size32 size8 x h = ground arith
shift_cast-level false size32 _ x h = ground arith
shift_cast-level false size64 size8 x h = ground arith
shift_cast-level false size64 _ x h = ground arith

-- For a value of the source type, the distance from negative full scale after a conversion is the
-- distance before, times the ratio of the two ranges, rounded down; for all pairs of integer types.
pub convert_to-level :
    (target source : IntType) (x : ℕ)
    → IsValue source x
    → level target (convert_to target source x)
      ≡ level source x * 2 ^ width target / 2 ^ width source
unfolding convert_to
convert_to-level target source x h =
    let s = target.is_signed in
    let (fits, same) = sign_cast-level s source x h in
    shift_cast-level s target.size source.size (sign_cast (with_sign s source) source x) fits
    ∙ rw same refl

shift_cast-lt :
    (target source : IntType) (x : ℕ)
    → IsValue source x
    → IsValue target (shift_cast target source x)
unfolding shift_cast
shift_cast-lt target source x h = ground arith

-- A conversion of a value of the source type gives a value of the target type.
pub convert_to-IsValue :
    (target source : IntType) (x : ℕ)
    → IsValue source x
    → IsValue target (convert_to target source x)
unfolding convert_to
convert_to-IsValue target source x h =
    let s = target.is_signed in
    shift_cast-lt target (with_sign s source) _ ((sign_cast-level s source x h).0)

-- A value is determined by its level.
pub level_determines :
    (s : Bool) (z : Size) (x y : ℕ)
    → let t : IntType = record { is_signed = s; size = z } in
      IsValue t x → IsValue t y → level t x ≡ level t y → x ≡ y
level_determines true size8 x y hx hy e = omega arith
level_determines true _ x y hx hy e = omega arith
level_determines false z x y hx hy e = e

-- Scaling up to a range that is no smaller and down again loses nothing.
scale_back :
    (m n : Size) (a : ℕ)
    → size_bits n ≤ size_bits m
    → a * 2 ^ size_bits m / 2 ^ size_bits n * 2 ^ size_bits n / 2 ^ size_bits m ≡ a
scale_back size8 size8 a h = omega arith
scale_back size8 _ a h = omega arith
scale_back size16 size8 a h = omega arith
scale_back size16 _ a h = omega arith
scale_back size32 size8 a h = omega arith
scale_back size32 _ a h = omega arith
scale_back size64 size8 a h = omega arith
scale_back size64 _ a h = omega arith

-- Converting a value to an integer type of at least as many bits and back gives the value, whatever
-- the signedness of the two types.
pub convert_to_back :
    (wide narrow : IntType) (x : ℕ)
    → width narrow ≤ width wide
    → IsValue narrow x
    → convert_to narrow wide (convert_to wide narrow x) ≡ x
convert_to_back wide narrow x w h =
    let y = convert_to wide narrow x in
    let hy : IsValue wide y = convert_to-IsValue wide narrow x h in
    level_determines narrow.is_signed narrow.size _ x (convert_to-IsValue narrow wide y hy) h (
      convert_to-level narrow wide y hy
      ∙ rw (convert_to-level wide narrow x h) (scale_back wide.size narrow.size _ w))
