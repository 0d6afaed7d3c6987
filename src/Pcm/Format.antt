-- ===== src/Pcm/Format.antt =====
-- Number types, bit widths and byte orders (description.h), and the compile-time formats with the
-- position of a format among them (compiletime_format.h, detail/tuple_find.h).
use ni_media.Common.{ℕ, ◌+◌, Bool, ◌&&◌, List, [], ◌∷◌, ◌==◌, if◌then◌else◌}

pub data NumberType : Type 0 where
  signed_integer unsigned_integer floating_point : NumberType

pub data BitwidthType : Type 0 where
  bit8 bit16 bit24 bit32 bit64 : BitwidthType

-- `native_endian` is one of the two, by the platform: the definitions that read it take it.
pub data EndianType : Type 0 where
  big_endian little_endian : EndianType

-- The values of the enumerators.
abbrev pub number_code : NumberType → ℕ
number_code signed_integer = 0
number_code unsigned_integer = 1
number_code floating_point = 2

abbrev pub bits : BitwidthType → ℕ
bits bit8 = 8
bits bit16 = 16
bits bit24 = 24
bits bit32 = 32
bits bit64 = 64

abbrev pub endian_code : EndianType → ℕ
endian_code big_endian = 0
endian_code little_endian = 1

-- Two enumerators are equal if their values are.
abbrev pub same_number : NumberType → NumberType → Bool
same_number a b = number_code a == number_code b

abbrev pub same_bitwidth : BitwidthType → BitwidthType → Bool
same_bitwidth a b = bits a == bits b

abbrev pub same_endian : EndianType → EndianType → Bool
same_endian a b = endian_code a == endian_code b

-- The template parameters of a `compiletime_format`.
pub record CompiletimeFormat : Type 0 where
  pub number : NumberType
  pub bitwidth : BitwidthType
  pub endian : EndianType

abbrev pub compiletime_format : NumberType → BitwidthType → EndianType → CompiletimeFormat
compiletime_format n b e = record { number = n; bitwidth = b; endian = e }

-- `std::is_same` on two formats: the same template parameters.
abbrev pub is_same : CompiletimeFormat → CompiletimeFormat → Bool
is_same a b =
    same_number a.number b.number
    && same_bitwidth a.bitwidth b.bitwidth
    && same_endian a.endian b.endian

-- The tuple of the supported formats, in its order.
unfoldable pub compiletime_formats : List CompiletimeFormat
compiletime_formats =
    compiletime_format signed_integer bit8 big_endian
    ∷ compiletime_format signed_integer bit8 little_endian
    ∷ compiletime_format signed_integer bit16 big_endian
    ∷ compiletime_format signed_integer bit16 little_endian
    ∷ compiletime_format signed_integer bit24 big_endian
    ∷ compiletime_format signed_integer bit24 little_endian
    ∷ compiletime_format signed_integer bit32 big_endian
    ∷ compiletime_format signed_integer bit32 little_endian
    ∷ compiletime_format signed_integer bit64 big_endian
    ∷ compiletime_format signed_integer bit64 little_endian
    ∷ compiletime_format unsigned_integer bit8 big_endian
    ∷ compiletime_format unsigned_integer bit8 little_endian
    ∷ compiletime_format unsigned_integer bit16 big_endian
    ∷ compiletime_format unsigned_integer bit16 little_endian
    ∷ compiletime_format unsigned_integer bit24 big_endian
    ∷ compiletime_format unsigned_integer bit24 little_endian
    ∷ compiletime_format unsigned_integer bit32 big_endian
    ∷ compiletime_format unsigned_integer bit32 little_endian
    ∷ compiletime_format unsigned_integer bit64 big_endian
    ∷ compiletime_format unsigned_integer bit64 little_endian
    ∷ compiletime_format floating_point bit32 big_endian
    ∷ compiletime_format floating_point bit32 little_endian
    ∷ compiletime_format floating_point bit64 big_endian
    ∷ compiletime_format floating_point bit64 little_endian
    ∷ []

-- The position of the first equal type in a tuple, and the tuple's length if there is none.
unfoldable pub tuple_find : CompiletimeFormat → List CompiletimeFormat → ℕ
tuple_find t [] = 0
tuple_find t (u ∷ us) = let rest = tuple_find t us in if is_same t u then 0 else 1 + rest
