-- ===== src/Pcm/Convert.antt =====
-- Conversions between the fixed-width integers (converter.h: `sign_cast`, `shift_cast` and
-- `convert_to` for fixed point). A value of an integer type is its bit pattern, a number below 2 to
-- the number of its bits; a signed type reads the pattern in two's complement.
pub mod Level
use Prim.Native.Nat.{bit_xor}
use ni_media.Common.{
  ℕ, ◌+◌, ◌-◌, ◌*◌, ◌/◌, ◌%◌, ◌^◌, ◌<◌, Bool, true, false, ◌&&◌, ltb, leb, if◌then◌else◌,
}

-- `sizeof`, in bits.
pub data Size : Type 0 where
  size8 size16 size32 size64 : Size

abbrev pub size_bits : Size → ℕ
size_bits size8 = 8
size_bits size16 = 16
size_bits size32 = 32
size_bits size64 = 64

-- int8_t to int64_t and uint8_t to uint64_t.
pub record IntType : Type 0 where
  pub is_signed : Bool
  pub size : Size

abbrev pub width : IntType → ℕ
width t = size_bits t.size

abbrev pub IsValue : IntType → ℕ → Type 0
IsValue t x = x < 2 ^ width t

-- `std::make_signed_t` and `std::make_unsigned_t`.
abbrev pub with_sign : Bool → IntType → IntType
with_sign s t = record { is_signed = s; size = t.size }

-- The pattern with `extra` more bits: a signed value takes copies of its sign bit.
abbrev extend : IntType → ℕ → ℕ → ℕ
extend t extra x =
    if t.is_signed && leb (2 ^ (width t - 1)) x
    then x + (2 ^ (width t + extra) - 2 ^ width t)
    else x

-- `val >> n`: a signed value is shifted arithmetically.
abbrev shift_right : IntType → ℕ → ℕ → ℕ
shift_right t n x = extend t n x / 2 ^ n

-- The top bit is flipped where the signedness changes; a cast between types of one size keeps the
-- pattern.
pub sign_cast : IntType → IntType → ℕ → ℕ
sign_cast target source val =
    if target.is_signed
    then (if source.is_signed then val else bit_xor val (2 ^ (width source - 1)))
    else (if source.is_signed then bit_xor val (2 ^ (width source - 1)) else val)

-- Towards fewer bits the low ones are shifted out, towards more bits zeros are shifted in.
pub shift_cast : IntType → IntType → ℕ → ℕ
shift_cast target source val =
    if ltb (width target) (width source)
    then shift_right source (width source - width target) val % 2 ^ width target
    else if ltb (width source) (width target)
    then extend source (width target - width source) val
      * 2 ^ (width target - width source)
      % 2 ^ width target
    else val

-- `convert_to` from fixed point to fixed point.
unfoldable pub convert_to : IntType → IntType → ℕ → ℕ
unfolding sign_cast shift_cast
convert_to target source src =
    let adjusted = with_sign target.is_signed source in
    shift_cast target adjusted (sign_cast adjusted source src)
