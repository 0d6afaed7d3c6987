-- ===== src/Audio/Wav/Chunks.antt =====
-- The parts of a WAV file (fourcc.h, wav_chunks.h, wav_format.h) and what a file says of itself beyond
-- the format (wav_specific_info.h). The structures are packed, and are read into memory as they lie
-- in the file: this is a little-endian host. A field is its bit pattern, also where it is signed.
use ni_media.Common.{
  ℕ, ◌+◌, ◌*◌, ◌^◌, Bool, Option, List, [], ◌∷◌, ◌++◌, take, drop, ◌==◌, if◌then◌else◌,
}
use ni_media.Common.Bytes.{le_value}
use ni_media.Audio.Info.{IfstreamInfo}

-- Four characters as a number, the first in the lowest byte.
abbrev pub little_endian_fourcc : ℕ → ℕ → ℕ → ℕ → ℕ
little_endian_fourcc a b c d = 2 ^ 24 * d + 2 ^ 16 * c + 2 ^ 8 * b + a

-- "RIFF", "WAVE", "fmt ", "data", "smpl" and "inst".
abbrev pub riff : ℕ
riff = little_endian_fourcc 82 73 70 70

abbrev pub wave : ℕ
wave = little_endian_fourcc 87 65 86 69

abbrev pub fmt_ : ℕ
fmt_ = little_endian_fourcc 102 109 116 32

abbrev pub data_ : ℕ
data_ = little_endian_fourcc 100 97 116 97

abbrev pub smpl : ℕ
smpl = little_endian_fourcc 115 109 112 108

abbrev pub inst : ℕ
inst = little_endian_fourcc 105 110 115 116

abbrev pub format_tag_pcm : ℕ
format_tag_pcm = 1

abbrev pub format_tag_ieee_float : ℕ
format_tag_ieee_float = 3

abbrev pub format_tag_alaw : ℕ
format_tag_alaw = 6

abbrev pub format_tag_mulaw : ℕ
format_tag_mulaw = 7

abbrev pub format_tag_extensible : ℕ
format_tag_extensible = 65534

-- The rest of the two format identifiers, behind their first byte.
abbrev sub_format : List ℕ
sub_format = 0 ∷ 0 ∷ 0 ∷ 0 ∷ 0 ∷ 16 ∷ 0 ∷ 128 ∷ 0 ∷ 0 ∷ 170 ∷ 0 ∷ 56 ∷ 155 ∷ 113 ∷ []

abbrev pub sub_format_pcm : List ℕ
sub_format_pcm = 1 ∷ sub_format

abbrev pub sub_format_float : List ℕ
sub_format_float = 3 ∷ sub_format

-- The field of `n` bytes at an offset.
abbrev pub field : ℕ → ℕ → List ℕ → ℕ
field at n bs = le_value (take n (drop at bs))

pub record RiffTag : Type 0 where
  pub id : ℕ
  pub size : ℕ

pub record FmtChunk : Type 0 where
  pub format_tag : ℕ
  pub num_channels : ℕ
  pub sample_rate : ℕ
  pub avg_bytes_per_sec : ℕ
  pub block_align : ℕ
  pub bits_per_sample : ℕ

abbrev pub fmt_chunk : List ℕ → FmtChunk
fmt_chunk bs = record {
  format_tag = field 0 2 bs;
  num_channels = field 2 2 bs;
  sample_rate = field 4 4 bs;
  avg_bytes_per_sec = field 8 4 bs;
  block_align = field 12 2 bs;
  bits_per_sample = field 14 2 bs;
}

-- The loop of a file, without its identifier.
pub record SampleLoop : Type 0 where
  pub type_ : ℕ
  pub start : ℕ
  pub end_ : ℕ
  pub fraction : ℕ
  pub play_count : ℕ

abbrev pub sample_loop : List ℕ → ℕ × SampleLoop
sample_loop bs = (
  field 0 4 bs,
  record {
    type_ = field 4 4 bs;
    start = field 8 4 bs;
    end_ = field 12 4 bs;
    fraction = field 16 4 bs;
    play_count = field 20 4 bs;
  },
)

pub record SampleChunk : Type 0 where
  pub manufacturer : ℕ
  pub product : ℕ
  pub sample_period : ℕ
  pub midi_unity_note : ℕ
  pub midi_pitch_fraction : ℕ
  pub smpte_format : ℕ
  pub smpte_offset : ℕ
  pub sample_loops : ℕ
  pub sampler_data : ℕ

abbrev pub sample_chunk : List ℕ → SampleChunk
sample_chunk bs = record {
  manufacturer = field 0 4 bs;
  product = field 4 4 bs;
  sample_period = field 8 4 bs;
  midi_unity_note = field 12 4 bs;
  midi_pitch_fraction = field 16 4 bs;
  smpte_format = field 20 4 bs;
  smpte_offset = field 24 4 bs;
  sample_loops = field 28 4 bs;
  sampler_data = field 32 4 bs;
}

pub record InstrumentChunk : Type 0 where
  pub root_note : ℕ
  pub fine_tune : ℕ
  pub gain : ℕ
  pub low_note : ℕ
  pub high_note : ℕ
  pub low_velocity : ℕ
  pub high_velocity : ℕ

abbrev pub instrument_chunk : List ℕ → InstrumentChunk
instrument_chunk bs = record {
  root_note = field 0 1 bs;
  fine_tune = field 1 1 bs;
  gain = field 2 1 bs;
  low_note = field 3 1 bs;
  high_note = field 4 1 bs;
  low_velocity = field 5 1 bs;
  high_velocity = field 6 1 bs;
}

-- `subFormat` of a `FormatExtensible`.
abbrev pub format_extensible_sub_format : List ℕ → List ℕ
format_extensible_sub_format bs = take 16 (drop 6 bs)

-- `wav_ifstream_info`. The loops are a map from identifiers.
pub record WavInfo : Type 0 where
  pub info : IfstreamInfo
  pub instrument : Option InstrumentChunk
  pub sampler : Option SampleChunk
  pub loops : Option (List (ℕ × SampleLoop))

abbrev has_key : ℕ → List (ℕ × SampleLoop) → Bool
has_key id [] = Bool.false
has_key id ((k, l) ∷ rest) = if k == id then Bool.true else has_key id rest

-- `std::map::insert`: an entry that the map has stays.
unfoldable pub insert : ℕ × SampleLoop → List (ℕ × SampleLoop) → List (ℕ × SampleLoop)
insert (id, l) loops = if has_key id loops then loops else loops ++ ((id, l) ∷ [])
