-- ===== src/Audio/Info/Equality.antt =====
-- The comparisons of informations (stream_info.cpp, fstream_info.cpp, ifstream_info.cpp, ofstream_info.cpp).
use ni_media.Common.{ℕ, ◌≡◌, refl, ap, sym, ◌∙◌, Bool, true, false, not, ◌&&◌, ◌==◌, arith}
use ni_media.Boost.{FindIf}
use ni_media.Pcm.Format.{NumberType, BitwidthType, EndianType}
use ni_media.Pcm.Runtime.{RuntimeFormat, of_parts, ok, format_eq}
use ni_media.Pcm.Runtime.Laws.{format_eq_iff, of_parts-format}
use ni_media.Audio.Info.{
  ContainerType, CodecType, OutContainerType, OutCodecType, StreamInfo, IfstreamInfo,
  stream_info_eq, bytes_per_sample, bytes_per_frame, num_samples, num_bytes,
}

-- The values of the enumerators.
abbrev pub container_code : ContainerType → ℕ
container_code ContainerType.aiff = 0
container_code ContainerType.flac = 1
container_code ContainerType.mp3 = 2
container_code ContainerType.mp4 = 3
container_code ContainerType.ogg = 4
container_code ContainerType.wav = 5
container_code ContainerType.wma = 6

abbrev pub codec_code : CodecType → ℕ
codec_code CodecType.aac = 0
codec_code CodecType.alac = 1
codec_code CodecType.aiff = 2
codec_code CodecType.flac = 3
codec_code CodecType.mp3 = 4
codec_code CodecType.vorbis = 5
codec_code CodecType.wav = 6
codec_code CodecType.wma = 7

abbrev pub same_bool : Bool → Bool → Bool
same_bool true b = b
same_bool false b = not b

-- `operator!=` of `stream_info`.
unfoldable pub stream_info_ne : StreamInfo → StreamInfo → Bool
stream_info_ne lhs rhs = not (stream_info_eq lhs rhs)

-- `operator==` of `fstream_info`, on its only member.
abbrev pub fstream_info_eq : Bool → Bool → Bool
fstream_info_eq lossless lossless' = same_bool lossless lossless'

unfoldable pub ifstream_info_eq : IfstreamInfo → IfstreamInfo → Bool
ifstream_info_eq lhs rhs =
    stream_info_eq lhs.stream rhs.stream
    && fstream_info_eq lhs.lossless rhs.lossless
    && (lhs.num_frames == rhs.num_frames
        && container_code lhs.container == container_code rhs.container
        && codec_code lhs.codec == codec_code rhs.codec)

unfoldable pub ifstream_info_ne : IfstreamInfo → IfstreamInfo → Bool
unfolding ifstream_info_eq
ifstream_info_ne lhs rhs = not (ifstream_info_eq lhs rhs)

pub record OfstreamInfo : Type 0 where
  pub stream : StreamInfo
  pub lossless : Bool
  pub container : OutContainerType
  pub codec : OutCodecType

-- The container and the codec are left aside.
unfoldable pub ofstream_info_eq : OfstreamInfo → OfstreamInfo → Bool
ofstream_info_eq lhs rhs =
    stream_info_eq lhs.stream rhs.stream && fstream_info_eq lhs.lossless rhs.lossless

unfoldable pub ofstream_info_ne : OfstreamInfo → OfstreamInfo → Bool
unfolding ofstream_info_eq
ofstream_info_ne lhs rhs = not (ofstream_info_eq lhs rhs)

same_container : (c c' : ContainerType) → container_code c ≡ container_code c' → c ≡ c'
same_container c c' h = ground arith

same_codec : (c c' : CodecType) → codec_code c ≡ codec_code c' → c ≡ c'
same_codec c c' h = ground arith

-- Two informations that compare equal have frames of the same size and the same number of bytes,
-- and the same container and codec, if their formats come from the constructor.
pub ifstream_info_eq-num_bytes :
    ⦃range : FindIf RuntimeFormat⦄ (lhs rhs : IfstreamInfo) (n n' : NumberType)
    (b b' : BitwidthType) (e e' : EndianType)
    → of_parts n b e ≡ ok lhs.stream.format
    → of_parts n' b' e' ≡ ok rhs.stream.format
    → ifstream_info_eq lhs rhs ≡ true
    → (bytes_per_frame lhs.stream ≡ bytes_per_frame rhs.stream)
      × (num_bytes lhs ≡ num_bytes rhs)
      × (lhs.container ≡ rhs.container)
      × (lhs.codec ≡ rhs.codec)
unfolding ifstream_info_eq stream_info_eq bytes_per_frame bytes_per_sample num_bytes num_samples
ifstream_info_eq-num_bytes lhs rhs n n' b b' e e' p q h =
    let streams : stream_info_eq lhs.stream rhs.stream ≡ true = ground (arith, h) in
    let formats : format_eq lhs.stream.format rhs.stream.format ≡ true = ground (arith, streams) in
    let channels : lhs.stream.num_channels ≡ rhs.stream.num_channels = ground (arith, streams) in
    let frames : lhs.num_frames ≡ rhs.num_frames = ground (arith, h) in
    let containers : container_code lhs.container ≡ container_code rhs.container =
      ground (arith, h) in
    let codecs : codec_code lhs.codec ≡ codec_code rhs.codec = ground (arith, h) in
    let (numbers, widths, orders) = (format_eq_iff n n' b b' e e' p q).0 formats in
    let width : lhs.stream.format.bitwidth ≡ rhs.stream.format.bitwidth =
      ap (λ (f : RuntimeFormat). f.bitwidth) ((of_parts-format n b e p).1)
      ∙ widths
      ∙ sym (ap (λ (f : RuntimeFormat). f.bitwidth) ((of_parts-format n' b' e' q).1)) in
    (
      rw (width, channels) refl,
      rw (width, channels, frames) refl,
      same_container lhs.container rhs.container containers,
      same_codec lhs.codec rhs.codec codecs,
    )
