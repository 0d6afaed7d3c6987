-- ===== src/Pcm/Sample/Layout.antt =====
-- Where the bytes of a sample lie: on a platform of either byte order the stored value is the number
-- that the sample's bytes denote in the format's byte order, moved to the top of the storage.
use ni_media.Common.{ℕ, ◌-◌, ◌*◌, ◌/◌, ◌^◌, ◌≡◌, arith, Bool, List, append-nil}
use ni_media.Common.Bytes.{le_bytes, le_value}
use ni_media.Pcm.Format.{BitwidthType, bit8, bit24, EndianType, big_endian, little_endian}
use ni_media.Pcm.Sample.{
  IntFormat, num_bytes, sizeof_storage, object_value, object_bytes, stored, loaded,
}
use mathlib.Core.List.{reverse-append, reverse-reverse}

abbrev pub unused_bytes : IntFormat → ℕ
unused_bytes fmt = sizeof_storage fmt - num_bytes fmt

stored_cases :
    (native_endian endian : EndianType) (b : BitwidthType) (s : Bool) (bs : List ℕ)
    → let fmt : IntFormat = record { is_signed = s; bitwidth = b; endian = endian } in
      object_value native_endian (stored native_endian fmt bs)
      ≡ 256 ^ unused_bytes fmt * object_value endian bs
unfolding stored le_value
stored_cases little_endian little_endian bit8 s bs = simp (append-nil) (omega arith)
stored_cases little_endian little_endian _ s bs = simp (append-nil) (omega arith)
stored_cases little_endian big_endian bit8 s bs = simp (append-nil) (omega arith)
stored_cases little_endian big_endian _ s bs = simp (append-nil) (omega arith)
stored_cases big_endian big_endian bit24 s bs = simp reverse-append (rw append-nil (omega arith))
stored_cases big_endian big_endian _ s bs = simp (append-nil) (omega arith)
stored_cases big_endian little_endian bit24 s bs =
    simp (reverse-append, reverse-reverse) (rw append-nil (omega arith))
stored_cases big_endian little_endian _ s bs = simp (append-nil, reverse-reverse) (omega arith)

loaded_cases :
    (native_endian endian : EndianType) (b : BitwidthType) (s : Bool) (v : ℕ)
    → let fmt : IntFormat = record { is_signed = s; bitwidth = b; endian = endian } in
      loaded native_endian fmt (object_bytes native_endian (sizeof_storage fmt) v)
      ≡ object_bytes endian (num_bytes fmt) (v / 256 ^ unused_bytes fmt)
unfolding loaded le_bytes
loaded_cases little_endian little_endian bit8 s v = ground arith
loaded_cases little_endian little_endian _ s v = ground arith
loaded_cases little_endian big_endian bit8 s v = ground arith
loaded_cases little_endian big_endian _ s v = ground arith
loaded_cases big_endian little_endian bit8 s v = ground arith
loaded_cases big_endian little_endian _ s v = ground arith
loaded_cases big_endian big_endian bit8 s v = ground arith
loaded_cases big_endian big_endian _ s v = ground arith

-- On a platform of either byte order the stored value of a sample is the number that its bytes
-- denote in the format's byte order, times 256 for each byte that the storage has more.
pub stored_value :
    (native_endian : EndianType) (fmt : IntFormat) (bs : List ℕ)
    → object_value native_endian (stored native_endian fmt bs)
      ≡ 256 ^ unused_bytes fmt * object_value fmt.endian bs
stored_value native_endian fmt bs =
    stored_cases native_endian fmt.endian fmt.bitwidth fmt.is_signed bs

-- On a platform of either byte order the bytes written of a stored value are those of its top part,
-- in the format's byte order.
pub loaded_bytes :
    (native_endian : EndianType) (fmt : IntFormat) (v : ℕ)
    → loaded native_endian fmt (object_bytes native_endian (sizeof_storage fmt) v)
      ≡ object_bytes fmt.endian (num_bytes fmt) (v / 256 ^ unused_bytes fmt)
loaded_bytes native_endian fmt v =
    loaded_cases native_endian fmt.endian fmt.bitwidth fmt.is_signed v
