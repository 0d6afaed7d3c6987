-- ===== src/Audio/Info.antt =====
-- What an input stream says of itself (stream_info.cpp, fstream_info.cpp, ifstream_info.cpp). A `size_t` has
-- 64 bits. The byte order of the platform is a parameter of the default format.
pub mod Equality
use ni_media.Common.{ℕ, ◌*◌, ◌/◌, ◌%◌, ◌^◌, Bool, true, ◌&&◌, ◌==◌, if◌then◌else◌}
use ni_media.Pcm.Format.{EndianType, bits, compiletime_format, signed_integer, bit8}
use ni_media.Pcm.Runtime.{RuntimeFormat, of_compiletime, format_eq}

pub data ContainerType : Type 0 where
  aiff flac mp3 mp4 ogg wav wma : ContainerType

pub data CodecType : Type 0 where
  aac alac aiff flac mp3 vorbis wav wma : CodecType

-- `ofstream_info::container_type` and `ofstream_info::codec_type`.
pub data OutContainerType : Type 0 where
  aiff wav : OutContainerType

pub data OutCodecType : Type 0 where
  aiff wav : OutCodecType

pub record StreamInfo : Type 0 where
  pub sample_rate : ℕ
  pub num_channels : ℕ
  pub own_bit_rate : ℕ
  pub format : RuntimeFormat

pub record IfstreamInfo : Type 0 where
  pub stream : StreamInfo
  pub lossless : Bool
  pub num_frames : ℕ
  pub container : ContainerType
  pub codec : CodecType

-- A new `stream_info`.
abbrev pub stream_info : EndianType → StreamInfo
stream_info native_endian = record {
  sample_rate = 44100;
  num_channels = 1;
  own_bit_rate = 0;
  format = of_compiletime (compiletime_format signed_integer bit8 native_endian);
}

-- A new `ifstream_info`. The container and the codec are not set: they are whatever is given.
abbrev pub ifstream_info : EndianType → ContainerType → CodecType → IfstreamInfo
ifstream_info native_endian unset_container unset_codec = record {
  stream = stream_info native_endian;
  lossless = true;
  num_frames = 0;
  container = unset_container;
  codec = unset_codec;
}

abbrev pub size_t : ℕ → ℕ
size_t n = n % 2 ^ 64

abbrev pub bits_per_sample : StreamInfo → ℕ
bits_per_sample i = bits i.format.bitwidth

unfoldable pub bytes_per_sample : StreamInfo → ℕ
bytes_per_sample i = bits_per_sample i / 8

unfoldable pub bytes_per_frame : StreamInfo → ℕ
unfolding bytes_per_sample
bytes_per_frame i = size_t (bytes_per_sample i * i.num_channels)

unfoldable pub compute_bit_rate : StreamInfo → ℕ
compute_bit_rate i = size_t (size_t (i.sample_rate * i.num_channels) * bits_per_sample i)

-- The bit rate that was set, or the one that the format has.
unfoldable pub bit_rate : StreamInfo → ℕ
unfolding compute_bit_rate
bit_rate i = if i.own_bit_rate == 0 then compute_bit_rate i else i.own_bit_rate

unfoldable pub num_samples : IfstreamInfo → ℕ
num_samples i = size_t (i.num_frames * i.stream.num_channels)

unfoldable pub num_bytes : IfstreamInfo → ℕ
unfolding num_samples bytes_per_sample
num_bytes i = size_t (num_samples i * bytes_per_sample i.stream)

-- `operator==` of `stream_info`: the bit rate is left aside.
unfoldable pub stream_info_eq : StreamInfo → StreamInfo → Bool
stream_info_eq lhs rhs =
    lhs.sample_rate == rhs.sample_rate
    && lhs.num_channels == rhs.num_channels
    && format_eq lhs.format rhs.format
