-- ===== src/Pcm/Runtime.antt =====
-- `runtime_format` (runtime_format.h): its constructors, comparison and printing.
pub mod Laws
pub mod Text
pub mod RoundTrip
use ni_media.Common.{ℕ, ◌%◌, ◌^◌, Bool, not, ◌&&◌, Option, none, some, List, ◌==◌, if◌then◌else◌}
use ni_media.Boost.{FindIf}
use ni_media.Pcm.Format.{
  NumberType, BitwidthType, bit8, bit16, bit24, bit32, bit64, EndianType, CompiletimeFormat,
  same_number, same_bitwidth, same_endian, compiletime_formats, tuple_find,
}
use mathlib.Core.List.{map}

pub record RuntimeFormat : Type 0 where
  pub number : NumberType
  pub bitwidth : BitwidthType
  pub endian : EndianType
  pub index : ℕ

-- The `std::runtime_error`s thrown in this file.
pub data FormatError : Type 0 where
  invalid_format invalid_bitwidth invalid_format_string : FormatError

pub data Result {ℓ} (A : Type ℓ) : Type ℓ where
  ok : A → Result A
  throw : FormatError → Result A

-- From a supported compile-time format; the index is a `uint8_t`.
unfoldable pub of_compiletime : CompiletimeFormat → RuntimeFormat
of_compiletime fmt = record {
  number = fmt.number;
  bitwidth = fmt.bitwidth;
  endian = fmt.endian;
  index = tuple_find fmt compiletime_formats % 2 ^ 8;
}

-- `runtime_formats`, the array that `tuple_to_array` makes.
pub runtime_formats : List RuntimeFormat
unfolding of_compiletime
runtime_formats = map of_compiletime compiletime_formats

abbrev or_invalid : Option RuntimeFormat → Result RuntimeFormat
or_invalid none = throw invalid_format
or_invalid (some fmt) = ok fmt

module _ ⦃range : FindIf RuntimeFormat⦄ where
  -- From a number type, a bit width and a byte order.
  pub of_parts : NumberType → BitwidthType → EndianType → Result RuntimeFormat
  of_parts n b e = or_invalid (
      range.find_if runtime_formats (λ fmt.
        same_number fmt.number n && same_bitwidth fmt.bitwidth b && same_endian fmt.endian e))

  -- From a number type, a number of bits and a byte order.
  pub of_bits : NumberType → ℕ → EndianType → Result RuntimeFormat
  of_bits n count e =
      if count == 8
      then of_parts n bit8 e
      else if count == 16
      then of_parts n bit16 e
      else if count == 24
      then of_parts n bit24 e
      else if count == 32
      then of_parts n bit32 e
      else if count == 64
      then of_parts n bit64 e
      else throw invalid_bitwidth

-- `operator==` and `operator!=` compare the indices.
unfoldable pub format_eq : RuntimeFormat → RuntimeFormat → Bool
format_eq lhs rhs = lhs.index == rhs.index

pub format_ne : RuntimeFormat → RuntimeFormat → Bool
format_ne lhs rhs = not (lhs.index == rhs.index)
