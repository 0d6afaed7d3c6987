-- ===== src/Audio/Flac/Metadata.antt =====
-- The state of `flac_source` (flac_source.h), and `metadataCallbackImpl`: what a file's information is.
pub mod Laws
use ni_media.Common.{ℕ, ◌*◌, ◌/◌, Bool, true, false, not, ◌||◌, List, ◌==◌, ltb, if◌then◌else◌}
use ni_media.Common.Int.{ℤ, pos, ◌-ℤ◌}
use ni_media.Boost.{FindIf}
use ni_media.Iostreams.Positioning.{beg, end, cur}
use ni_media.Iostreams.Device.{Source}
use ni_media.Pcm.Format.{EndianType, signed_integer, little_endian}
use ni_media.Pcm.Runtime.{Result, ok, throw, RuntimeFormat, of_bits}
use ni_media.Audio.Info.{ContainerType, CodecType, IfstreamInfo, size_t}
use ni_media.Audio.Istream.{to_size_t}
use ni_media.Audio.Reader.{done, thrown, ◌>>=◌, ◌>>◌, give, throw_if}
use ni_media.Audio.Flac.Decoder.{
  Outcome, Reader, StreamMetadata, stream_info, other_metadata, StreamInfoBlock, FlacError,
  empty_file, invalid_num_channels, invalid_bits_per_sample, invalid_sample_rate,
  variable_blocksize, invalid_format,
}

-- The fields; the decoder is behind a pointer in the source.
pub record FlacSource (S D : Type 0) : Type 0 where
  pub source : S
  pub info : IfstreamInfo
  pub buffer : List ℕ
  pub buffer_offset : ℕ
  pub audio_block_available : Bool
  pub pos : ℤ
  pub decoder : D

abbrev pub of_format : {A : Type 0} → Result A → Outcome A
of_format (ok a) = done a
of_format (throw e) = thrown (invalid_format e)

-- The information, from the size of the audio data in bytes.
unfoldable pub metadata_info : StreamInfoBlock → RuntimeFormat → ℕ → IfstreamInfo
metadata_info m format audio_bytes = record {
  stream = record {
    sample_rate = m.sample_rate;
    num_channels = m.channels;
    own_bit_rate = size_t (size_t (audio_bytes * 8) * m.sample_rate) / m.total_samples;
    format = format;
  };
  lossless = true;
  num_frames = m.total_samples;
  container = ContainerType.flac;
  codec = CodecType.flac;
}

module _ ⦃range : FindIf RuntimeFormat⦄ where
  unfoldable pub check_metadata : {X : Type 0} → StreamInfoBlock → Reader X RuntimeFormat
  check_metadata m = do
    throw_if (m.total_samples == 0) empty_file
    throw_if (ltb m.channels 1 || ltb 8 m.channels) (invalid_num_channels m.channels)
    throw_if (ltb m.bits_per_sample 4 || ltb 32 m.bits_per_sample)
        (invalid_bits_per_sample m.bits_per_sample)
    throw_if (ltb m.sample_rate 1 || ltb 655350 m.sample_rate) (invalid_sample_rate m.sample_rate)
    throw_if (not (m.min_blocksize == m.max_blocksize)) variable_blocksize
    give (of_format (of_bits signed_integer m.bits_per_sample little_endian))

-- The bytes from the position on, which is left where it was.
abbrev pub audio_bytes : {S : Type 0} → Source S → S → ℕ × S
audio_bytes src s =
    let (here, s1) = src.seek (pos 0) cur s in
    let (last, s2) = src.seek (pos 0) end s1 in (to_size_t (last -ℤ here), (src.seek here beg s2).1)

module _ {S D : Type 0} (src : Source S) where
  unfoldable pub set_info : StreamInfoBlock → RuntimeFormat → Reader (FlacSource S D) (Unit {0})
  set_info m format st =
      let (count, s) = audio_bytes src st.source in
      (done tt, record st { source = s; info = metadata_info m format count })

  unfoldable pub metadata_callback :
      ⦃range : FindIf RuntimeFormat⦄ → StreamMetadata → Reader (FlacSource S D) (Unit {0})
  metadata_callback other_metadata = give (done tt)
  metadata_callback (stream_info m) = check_metadata m >>= set_info m
