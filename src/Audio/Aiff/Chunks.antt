-- ===== src/Audio/Aiff/Chunks.antt =====
-- The parts of an AIFF file (aiff_chunks.h, fourcc.h) and what a file says of itself beyond the format
-- (aiff_specific_info.h). The numbers are big-endian. A field is its bit pattern, also where it is signed.
use ni_media.Common.{
  ℕ, ◌+◌, ◌*◌, ◌^◌, Bool, true, false, Option, List, [], ◌∷◌, ◌++◌, take, drop, ◌==◌, if◌then◌else◌,
}
use ni_media.Boost.{BigEndian}
use ni_media.Audio.Info.{IfstreamInfo}

-- Four characters as a number, the first in the highest byte.
abbrev pub big_endian_fourcc : ℕ → ℕ → ℕ → ℕ → ℕ
big_endian_fourcc a b c d = 2 ^ 24 * a + 2 ^ 16 * b + 2 ^ 8 * c + d

abbrev pub aifc : ℕ
aifc = big_endian_fourcc b'A' b'I' b'F' b'C'

abbrev pub form : ℕ
form = big_endian_fourcc b'F' b'O' b'R' b'M'

abbrev pub comm : ℕ
comm = big_endian_fourcc b'C' b'O' b'M' b'M'

abbrev pub mark : ℕ
mark = big_endian_fourcc b'M' b'A' b'R' b'K'

abbrev pub inst : ℕ
inst = big_endian_fourcc b'I' b'N' b'S' b'T'

abbrev pub ssnd : ℕ
ssnd = big_endian_fourcc b'S' b'S' b'N' b'D'

-- "NONE", "raw ", "twos", "sowt", "fl32", "FL32", "fl64", "FL64", "in24" and "in32".
abbrev pub none_ : ℕ
none_ = big_endian_fourcc b'N' b'O' b'N' b'E'

abbrev pub raw : ℕ
raw = big_endian_fourcc b'r' b'a' b'w' 32

abbrev pub twos : ℕ
twos = big_endian_fourcc b't' b'w' b'o' b's'

abbrev pub sowt : ℕ
sowt = big_endian_fourcc b's' b'o' b'w' b't'

abbrev pub fl32 : ℕ
fl32 = big_endian_fourcc b'f' b'l' b'3' b'2'

abbrev pub upper_fl32 : ℕ
upper_fl32 = big_endian_fourcc b'F' b'L' b'3' b'2'

abbrev pub fl64 : ℕ
fl64 = big_endian_fourcc b'f' b'l' b'6' b'4'

abbrev pub upper_fl64 : ℕ
upper_fl64 = big_endian_fourcc b'F' b'L' b'6' b'4'

abbrev pub in24 : ℕ
in24 = big_endian_fourcc b'i' b'n' b'2' b'4'

abbrev pub in32 : ℕ
in32 = big_endian_fourcc b'i' b'n' b'3' b'2'

-- `id` and `length` of a tag; its sub-type is read once.
pub record Tag : Type 0 where
  pub id : ℕ
  pub size : ℕ

pub record CommonChunk : Type 0 where
  pub num_channels : ℕ
  pub num_sample_frames : ℕ
  pub sample_size : ℕ
  pub ext_sample_rate : List ℕ

pub record Loop : Type 0 where
  pub play_mode : ℕ
  pub marker_id_begin : ℕ
  pub marker_id_end : ℕ

pub record InstrumentChunk : Type 0 where
  pub root_note : ℕ
  pub detune : ℕ
  pub low_note : ℕ
  pub high_note : ℕ
  pub low_velocity : ℕ
  pub high_velocity : ℕ
  pub gain : ℕ
  pub sustain_loop : Loop
  pub release_loop : Loop

-- `aiff_ifstream_info`. The markers are a map from identifiers to positions.
pub record AiffInfo : Type 0 where
  pub info : IfstreamInfo
  pub marker_map : List (ℕ × ℕ)
  pub instrument : Option InstrumentChunk

module _ ⦃big : BigEndian⦄ where
  -- The field of `n` bytes at an offset.
  abbrev pub field : ℕ → ℕ → List ℕ → ℕ
  field at n bs = big.value (take n (drop at bs))

  abbrev pub common_chunk : List ℕ → CommonChunk
  common_chunk bs = record {
    num_channels = field 0 2 bs;
    num_sample_frames = field 2 4 bs;
    sample_size = field 6 2 bs;
    ext_sample_rate = take 10 (drop 8 bs);
  }

  -- The identifier and the position of a marker.
  abbrev pub marker : List ℕ → ℕ × ℕ
  marker bs = (field 0 2 bs, field 2 4 bs)

  abbrev pub loop : ℕ → List ℕ → Loop
  loop at bs = record {
    play_mode = field at 2 bs;
    marker_id_begin = field (at + 2) 2 bs;
    marker_id_end = field (at + 4) 2 bs;
  }

  abbrev pub instrument_chunk : List ℕ → InstrumentChunk
  instrument_chunk bs = record {
    root_note = field 0 1 bs;
    detune = field 1 1 bs;
    low_note = field 2 1 bs;
    high_note = field 3 1 bs;
    low_velocity = field 4 1 bs;
    high_velocity = field 5 1 bs;
    gain = field 6 2 bs;
    sustain_loop = loop 8 bs;
    release_loop = loop 14 bs;
  }

  -- The offset of a `SoundDataChunk`, whose block size is not used.
  abbrev pub sound_data_offset : List ℕ → ℕ
  sound_data_offset bs = field 0 4 bs

abbrev has_key : ℕ → List (ℕ × ℕ) → Bool
has_key id [] = false
has_key id ((k, p) ∷ rest) = if k == id then true else has_key id rest

-- `std::map::insert`: an entry that the map has stays.
unfoldable pub insert : ℕ × ℕ → List (ℕ × ℕ) → List (ℕ × ℕ)
insert (id, p) markers = if has_key id markers then markers else markers ++ ((id, p) ∷ [])
