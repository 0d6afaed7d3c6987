-- ===== src/Audio/CoreAudio/Describe.antt =====
-- What the source says of a file (core_audio_source.h): the format that the samples are asked for in, and the
-- information.
use Prim.Native.Nat.{bit_or}
use ni_media.Common.{
  ℕ, ◌+◌, ◌%◌, ◌^◌, Bool, true, false, not, ◌&&◌, ◌||◌, Option, none, some, [], ◌∷◌, ◌==◌, ltb,
  if◌then◌else◌,
}
use ni_media.Common.Int.{pos, ltb_ℤ}
use ni_media.Pcm.Format.{
  EndianType, big_endian, compiletime_format, signed_integer, floating_point, bit16, bit24, bit32,
  same_endian, same_number,
}
use ni_media.Pcm.Runtime.{RuntimeFormat, of_compiletime}
use ni_media.Audio.Info.{ContainerType, CodecType, IfstreamInfo}
use ni_media.Audio.Info.Equality.{container_code}
use ni_media.Audio.Istream.{to_size_t}
use ni_media.Audio.Reader.{done, thrown, undefined, out_of_fuel}
use ni_media.Audio.CoreAudio.System.{
  CoreAudioError, no_stream_count, no_such_stream, no_format, unsupported_format_id,
  invalid_sample_rate, invalid_num_channels, no_length, empty_file, no_file_format,
  unsupported_file_format, no_bit_rate, Outcome, Descriptor, Constants, AudioToolbox,
}

infixl 5 ◌>>=◌ ◌>>◌
abbrev pub ◌>>=◌ : {A B : Type 0} → Outcome A → (A → Outcome B) → Outcome B
◌>>=◌ (done a) f = f a
◌>>=◌ (thrown e) f = thrown e
◌>>=◌ undefined f = undefined
◌>>=◌ out_of_fuel f = out_of_fuel

abbrev pub ◌>>◌ : {B : Type 0} → Outcome (Unit {0}) → Outcome B → Outcome B
m >> k = m >>= λ _. k

abbrev pub given : {A : Type 0} → Option A → CoreAudioError → Outcome A
given none e = thrown e
given (some a) e = done a

abbrev pub refuse_if : Bool → CoreAudioError → Outcome (Unit {0})
refuse_if true e = thrown e
refuse_if false e = done tt

abbrev pub same_container : ContainerType → ContainerType → Bool
same_container c c' = container_code c == container_code c'

-- `formatToAudioFormatFlags`
unfoldable pub format_flags : Constants → RuntimeFormat → ℕ
format_flags k format =
    let big = if same_endian format.endian big_endian then bit_or 0 k.is_big_endian else 0 in
    let float = if same_number format.number floating_point then bit_or big k.is_float else big in
    if same_number format.number signed_integer then bit_or float k.is_signed_integer else float

module _ {X M F : Type 0} (k : Constants) (system : AudioToolbox X M F) where
  unfoldable pub is_mp4_format : ℕ → Bool
  is_mp4_format id =
      system.any_of_equal k.aac_formats id || system.any_of_equal (k.apple_lossless ∷ []) id

  unfoldable pub is_mp3_format : ℕ → Bool
  is_mp3_format id = system.any_of_equal (k.mpeg_layer3 ∷ []) id

  unfoldable pub is_supported_format : ℕ → Bool
  is_supported_format id = is_mp3_format id || is_mp4_format id

  -- The sum `stream + 1` is of `size_t`.
  unfoldable pub calc_stream_index : M → ℕ → Outcome ℕ
  calc_stream_index file stream =
      given (system.audio_track_count file) no_stream_count >>= λ num_streams.
      refuse_if (ltb num_streams ((stream + 1) % 2 ^ 64)) no_such_stream >> done stream

  unfoldable pub mp4_codec_type : ℕ → CodecType
  mp4_codec_type id =
      if id == k.apple_lossless
      then CodecType.alac
      else if system.any_of_equal k.aac_formats id
      then CodecType.aac
      else CodecType.aac

  -- The format of the lossless samples, by the flags of the source data.
  unfoldable pub alac_format : EndianType → ℕ → RuntimeFormat
  alac_format native_endian flags =
      if flags == k.source_data_16
      then of_compiletime (compiletime_format signed_integer bit16 native_endian)
      else if flags == k.source_data_20
      then of_compiletime (compiletime_format signed_integer bit24 native_endian)
      else if flags == k.source_data_24
      then of_compiletime (compiletime_format signed_integer bit24 native_endian)
      else if flags == k.source_data_32
      then of_compiletime (compiletime_format signed_integer bit32 native_endian)
      else of_compiletime (compiletime_format floating_point bit32 native_endian)

  abbrev pub is_alac : CodecType → Bool
  is_alac CodecType.alac = true
  is_alac _ = false

  -- The codec, whether it is lossless, and the format.
  unfoldable pub codec_and_format :
      EndianType → ContainerType → Descriptor F → ℕ → Outcome (CodecType × Bool × RuntimeFormat)
  codec_and_format native_endian container d file_format =
      let float32 = of_compiletime (compiletime_format floating_point bit32 native_endian) in
      if same_container container ContainerType.mp3 && k.mp3_type == file_format
      then done (CodecType.mp3, false, float32)
      else if same_container container ContainerType.mp4
          && (k.mpeg4_type == file_format || k.m4a_type == file_format)
      then done (
          if is_alac (mp4_codec_type d.format_id)
          then (mp4_codec_type d.format_id, true, alac_format native_endian d.format_flags)
          else (mp4_codec_type d.format_id, false, float32))
      else thrown unsupported_file_format

  unfoldable pub build_out_stream_info : EndianType → M → ContainerType → Outcome IfstreamInfo
  build_out_stream_info native_endian file container =
      given (system.file_data_format file) no_format >>= λ d.
      refuse_if (not (is_supported_format d.format_id)) unsupported_format_id
      >> refuse_if (system.is_not_positive d.sample_rate) invalid_sample_rate
      >> refuse_if (ltb d.channels_per_frame 1 || ltb 255 d.channels_per_frame)
          (invalid_num_channels d.channels_per_frame)
      >> given (system.file_length_frames file) no_length
      >>= λ num_frames.
          refuse_if (ltb_ℤ num_frames (pos 1)) empty_file
          >> given (system.file_format file) no_file_format
          >>= λ file_format.
              codec_and_format native_endian container d file_format
              >>= λ (codec, lossless, format).
                  given (system.file_bit_rate file) no_bit_rate >>= λ bit_rate. done (record {
                    stream = record {
                      sample_rate = system.to_size_t d.sample_rate;
                      num_channels = d.channels_per_frame;
                      own_bit_rate = bit_rate;
                      format = format;
                    };
                    lossless = lossless;
                    num_frames = to_size_t num_frames;
                    container = container;
                    codec = codec;
                  })
