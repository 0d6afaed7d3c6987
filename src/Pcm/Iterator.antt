-- ===== src/Pcm/Iterator.antt =====
-- Iterators over samples in a sequence of bytes (iterator.h), of integer formats. The iterator below is a
-- position in the bytes; what moves it before the first byte, or reads or writes behind the last, is out of range
-- and gives `none`.
pub mod Laws
use ni_media.Common.{
  ℕ, suc, ◌+◌, ◌-◌, ◌*◌, ◌/◌, Bool, Option, none, some, List, ◌++◌, take, drop, length, ltb, leb,
  ◌==◌, if◌then◌else◌,
}
use ni_media.Common.Int.{ℤ, pos, negsuc, sub_ℕ}
use ni_media.Pcm.Format.{EndianType, bits}
use ni_media.Pcm.Convert.{IntType}
use ni_media.Pcm.Sample
use ni_media.Pcm.Sample.{IntFormat}

-- `m_proxy`, with the iterator below and the format.
pub record Iterator : Type 0 where
  pub base : ℕ
  pub format : IntFormat

unfoldable pub make_iterator : ℕ → IntFormat → Iterator
make_iterator it f = record { base = it; format = f }

-- How many bytes one step takes.
abbrev pub step : Iterator → ℕ
step it = bits it.format.bitwidth / 8

-- `std::advance` on the iterator below.
unfoldable pub moved : ℤ → ℕ → ℕ → Option ℕ
moved (pos n) size base = some (base + n * size)
moved (negsuc n) size base = if ltb base (suc n * size) then none else some (base - suc n * size)

unfoldable pub advance : ℤ → Iterator → Option Iterator
advance off it = elim (moved off (step it) it.base) [
  | none ↦ none
  | some p ↦ some (record it { base = p })
]

abbrev pub increment : Iterator → Option Iterator
increment it = advance (pos 1) it

abbrev pub decrement : Iterator → Option Iterator
decrement it = advance (negsuc 0) it

-- The quotient is rounded towards zero.
unfoldable pub distance_to : Iterator → Iterator → ℤ
distance_to it other =
    if leb it.base other.base
    then pos ((other.base - it.base) / step it)
    else sub_ℕ 0 ((it.base - other.base) / step it)

abbrev pub equal : Iterator → Iterator → Bool
equal it other = it.base == other.base

module _ (native_endian : EndianType) (value : IntType) where
  -- `proxy::operator Value`
  unfoldable pub dereference : Iterator → List ℕ → Option ℕ
  dereference it bytes = Sample.read native_endian it.format value (drop it.base bytes)

  -- `proxy::operator=`
  unfoldable pub assign : Iterator → ℕ → List ℕ → Option (List ℕ)
  assign it val bytes =
      let s = Sample.write native_endian it.format value val in
      if ltb (length bytes) (it.base + length s)
      then none
      else some (take it.base bytes ++ (s ++ drop (it.base + length s) bytes))
