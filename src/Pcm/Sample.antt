-- ===== src/Pcm/Sample.antt =====
-- Reading and writing one sample of an integer format (converter.h: `storage`, `intermediate`,
-- `read_impl`, `write_impl`). The samples of the floating-point formats are not modelled.
pub mod Layout
pub mod RoundTrip
use ni_media.Common.{
  ℕ, zero, suc, ◌+◌, ◌-◌, ◌/◌, Bool, true, false, Option, none, some, List, [], ◌∷◌, ◌++◌, take,
  drop, replicate, if◌then◌else◌,
}
use ni_media.Common.Bytes.{le_bytes, le_value}
use ni_media.Pcm.Format.{
  BitwidthType, bit8, bit16, bit24, bit32, bit64, EndianType, big_endian, little_endian, bits,
  same_endian,
}
use ni_media.Pcm.Convert.{Size, size8, size16, size32, size64, IntType, width, convert_to}
use mathlib.Core.List.{reverse}
use mathlib.Core.Option

-- A format whose number type is `signed_integer` or `unsigned_integer`.
pub record IntFormat : Type 0 where
  pub is_signed : Bool
  pub bitwidth : BitwidthType
  pub endian : EndianType

-- The integer type in which a sample is kept: the smallest that is wide enough.
abbrev pub storage_size : BitwidthType → Size
storage_size bit8 = size8
storage_size bit16 = size16
storage_size bit24 = size32
storage_size bit32 = size32
storage_size bit64 = size64

abbrev pub storage : IntFormat → IntType
storage fmt = record { is_signed = fmt.is_signed; size = storage_size fmt.bitwidth }

-- How many bytes a sample has, and how many its storage has.
abbrev pub num_bytes : IntFormat → ℕ
num_bytes fmt = bits fmt.bitwidth / 8

abbrev pub sizeof_storage : IntFormat → ℕ
sizeof_storage fmt = width (storage fmt) / 8

-- The bytes of an object of `n` bytes in memory, and the value of such bytes.
abbrev pub object_bytes : EndianType → ℕ → ℕ → List ℕ
object_bytes little_endian n v = le_bytes n v
object_bytes big_endian n v = reverse (le_bytes n v)

abbrev pub object_value : EndianType → List ℕ → ℕ
object_value little_endian bs = le_value bs
object_value big_endian bs = le_value (reverse bs)

-- `std::copy_n` from the iterator, `none` where it would run past the last byte.
unfoldable pub copy_n : ℕ → List ℕ → Option (List ℕ)
copy_n zero bs = some []
copy_n (suc n) [] = none
copy_n (suc n) (b ∷ bs) = elim (copy_n n bs) [ none ↦ none | some cs ↦ some (b ∷ cs) ]

module _ (native_endian : EndianType) (fmt : IntFormat) where
  pub is_native_endian : Bool
  is_native_endian = same_endian fmt.endian native_endian

  pub padding : ℕ
  padding =
      if same_endian little_endian native_endian then sizeof_storage fmt - num_bytes fmt else 0

  pub offset : ℕ
  unfolding is_native_endian padding
  offset = if is_native_endian then padding else padding + num_bytes fmt

  -- The storage object after the sample's bytes went to `begin()` and on, over zeros: upwards from
  -- `offset`, or downwards from just below it through the reverse iterator.
  pub stored : List ℕ → List ℕ
  unfolding offset
  stored bs =
      if is_native_endian
      then replicate offset 0 ++ (bs ++ replicate (sizeof_storage fmt - offset - num_bytes fmt) 0)
      else replicate (offset - num_bytes fmt) 0
        ++ (reverse bs ++ replicate (sizeof_storage fmt - offset) 0)

  -- The bytes from `begin()` to `end()` of the storage object.
  pub loaded : List ℕ → List ℕ
  unfolding offset
  loaded mem =
      if is_native_endian
      then take (num_bytes fmt) (drop offset mem)
      else reverse (take (num_bytes fmt) (drop (offset - num_bytes fmt) mem))

  -- `intermediate( iter )` and `value()`.
  pub load : List ℕ → Option ℕ
  unfolding stored
  load iter =
      Option.map (λ bs. object_value native_endian (stored bs)) (copy_n (num_bytes fmt) iter)

  -- `read_impl`
  unfoldable pub read : IntType → List ℕ → Option ℕ
  unfolding load
  read value iter = Option.map (convert_to value (storage fmt)) (load iter)

  -- `write_impl`: the bytes that are copied to the output iterator.
  unfoldable pub write : IntType → ℕ → List ℕ
  unfolding loaded
  write value val =
      loaded (object_bytes native_endian (sizeof_storage fmt) (convert_to (storage fmt) value val))
