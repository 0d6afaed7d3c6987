-- ===== src/Audio/Wav/Header.antt =====
-- `readWavHeader` (wav_source.h). Where the file ends or cannot be read, the fetch fails. A loop that
-- seeks to a chunk it has met before does not end: the loop has fuel.
pub mod Laws
pub mod Turns
pub mod Whole
pub mod Loop
use Prim.Native.Nat.{bit_and}
use ni_media.Common.{
  ℕ, zero, suc, ◌+◌, ◌*◌, ◌/◌, ◌%◌, ◌^◌, Bool, true, false, not, ◌&&◌, ◌||◌, Option, none, some,
  List, [], ◌∷◌, ltb, leb, ◌==◌, if◌then◌else◌,
}
use ni_media.Common.Int.{pos}
use ni_media.Common.Bytes.{le_value}
use ni_media.Boost.{Algorithms, FindIf}
use ni_media.Iostreams.Positioning.{beg, cur}
use ni_media.Iostreams.Device.{Source}
use ni_media.Pcm.Format.{
  EndianType, little_endian, signed_integer, unsigned_integer, floating_point,
}
use ni_media.Pcm.Runtime.{RuntimeFormat, of_bits}
use ni_media.Audio.Info.{
  IfstreamInfo, ContainerType, CodecType, stream_info, size_t, bytes_per_frame, bits_per_sample,
}
use ni_media.Audio.Wav.Chunks.{
  RiffTag, FmtChunk, SampleLoop, WavInfo, riff, wave, fmt_, data_, smpl, inst, format_tag_pcm,
  format_tag_ieee_float, format_tag_alaw, format_tag_mulaw, format_tag_extensible, sub_format_pcm,
  sub_format_float, fmt_chunk, sample_loop, sample_chunk, instrument_chunk,
  format_extensible_sub_format, field, insert,
}
use ni_media.Audio.Wav.Reader.{
  WavError, no_riff_tag, no_wave_tag, invalid_fmt_size, no_fmt_chunk, invalid_block_align,
  no_extension_size, no_format_extensible, alaw_format, mulaw_format, unknown_format,
  invalid_num_channels, invalid_sample_rate, invalid_smpl_chunk, empty_file, no_sample_chunk,
  no_loop, no_instrument_chunk, no_data_tag, Outcome, done, thrown, undefined, out_of_fuel, Reader,
  ◌>>=◌, ◌>>◌, give, throw_if, of_format, to_uint32, fetched, fetch_or, sought,
}
use mathlib.Core.List.{flatten}

-- A new `wav_ifstream_info`.
abbrev pub wav_info : EndianType → WavInfo
wav_info native_endian = record {
  info = record {
    stream = stream_info native_endian;
    lossless = true;
    num_frames = 0;
    container = ContainerType.wav;
    codec = CodecType.wav;
  };
  instrument = none;
  sampler = none;
  loops = none;
}

-- The tag and the size that were fetched.
abbrev pub riff_tag : Option (List (List ℕ)) → Option RiffTag
riff_tag (some (id ∷ size ∷ [])) = some (record { id = le_value id; size = le_value size })
riff_tag _ = none

-- The bytes of the one object that was fetched.
abbrev pub object : List (List ℕ) → List ℕ
object os = flatten os

abbrev pub has_tag : ℕ → Option RiffTag → Bool
has_tag id (some tag) = tag.id == id
has_tag id none = false

abbrev pub has_object : ℕ → Option (List (List ℕ)) → Bool
has_object id (some (o ∷ [])) = le_value o == id
has_object id _ = false

-- The product of two `uint16_t` is an `int`.
abbrev check_block_align : {S : Type 0} → FmtChunk → Reader S (Unit {0})
check_block_align c =
    if c.block_align == 0
    then give (thrown invalid_block_align)
    else if leb (2 ^ 31) (c.bits_per_sample * c.num_channels)
    then give undefined
    else if c.block_align * 8 == c.bits_per_sample * c.num_channels
    then give (done tt)
    else give (thrown invalid_block_align)

-- The sub-format of an extensible chunk takes the place of its format tag.
abbrev sub_format_tag : ⦃boost : Algorithms⦄ → ℕ → List ℕ → ℕ
sub_format_tag ⦃boost⦄ tag o =
    if boost.equal (format_extensible_sub_format o) sub_format_pcm
    then format_tag_pcm
    else if boost.equal (format_extensible_sub_format o) sub_format_float
    then format_tag_ieee_float
    else tag

module _ ⦃range : FindIf RuntimeFormat⦄ where
  -- The format for a format tag and a number of bits.
  unfoldable pub determine_format : EndianType → ℕ → ℕ → Outcome RuntimeFormat
  determine_format native_endian tag count =
      if tag == format_tag_pcm
      then (if 8 == count
          then of_format (of_bits unsigned_integer count native_endian)
          else of_format (of_bits signed_integer count little_endian))
      else if tag == format_tag_ieee_float
      then of_format (of_bits floating_point count little_endian)
      else if tag == format_tag_alaw
      then thrown alaw_format
      else if tag == format_tag_mulaw
      then thrown mulaw_format
      else thrown unknown_format

-- What the body of the loop leaves: the header is complete, or the loop goes on.
pub data Progress : Type 0 where
  found more : WavInfo → Progress

-- The data chunk ends the header.
unfoldable pub read_data : ℕ → WavInfo → Outcome Progress
read_data size i =
    let stream = i.info.stream in
    let num_frames = size / bytes_per_frame stream in
    if bytes_per_frame stream == 0
    then thrown invalid_smpl_chunk
    else if ltb num_frames 1
    then thrown empty_file
    else done (
        found (record i {
          info = record i.info {
            num_frames = num_frames;
            stream = record stream {
              own_bit_rate =
                  size_t
                    (size_t (stream.sample_rate * stream.num_channels) * bits_per_sample stream);
            };
          };
        }))

-- Where the next chunk starts, as a `uint32_t`.
unfoldable pub next_chunk : ℕ → ℕ → ℕ
next_chunk current size = bit_and ((current + size + 1) % 2 ^ 32) 0xfffffffe

module _ ⦃boost : Algorithms⦄ ⦃range : FindIf RuntimeFormat⦄ (native_endian : EndianType)
    {S : Type 0} (src : Source S) where
  -- The format tag, which an extension may replace.
  unfoldable pub read_sub_format : ℕ → ℕ → Reader S ℕ
  read_sub_format tag extension_size =
      if tag == format_tag_extensible && extension_size == 22
      then (fetch_or src (22 ∷ []) no_format_extensible >>= λ o.
          give (done (sub_format_tag tag (object o))))
      else give (done tag)

  unfoldable pub read_extension : ℕ → FmtChunk → Reader S ℕ
  read_extension size c = if ltb size 40 then give (done c.format_tag) else do
    extension ← fetch_or src (2 ∷ []) no_extension_size
    read_sub_format c.format_tag (le_value (object extension))

  -- What a format chunk says, with what may follow the chunk.
  unfoldable pub read_format : ℕ → FmtChunk → WavInfo → Reader S Progress
  read_format size c i = do
    check_block_align c
    tag ← read_extension size c
    format ← give (determine_format native_endian tag c.bits_per_sample)
    throw_if (ltb c.num_channels 1 || ltb 255 c.num_channels) invalid_num_channels
    throw_if (ltb c.sample_rate 1) invalid_sample_rate
    give (
        done (
          more (record i {
            info = record i.info {
              stream = record i.info.stream {
                format = format;
                num_channels = c.num_channels;
                sample_rate = c.sample_rate;
              };
            };
          })))

  unfoldable pub read_fmt : ℕ → WavInfo → Reader S Progress
  read_fmt size i = do
    throw_if (ltb size 16) invalid_fmt_size
    o ← fetch_or src (16 ∷ []) no_fmt_chunk
    read_format size (fmt_chunk (object o)) i

  -- The loops of a sampler chunk.
  unfoldable pub read_loops : ℕ → List (ℕ × SampleLoop) → Reader S (List (ℕ × SampleLoop))
  read_loops zero loops = give (done loops)
  read_loops (suc n) loops = do
    o ← fetch_or src (24 ∷ []) no_loop
    read_loops n (insert (sample_loop (object o)) loops)

  -- The number of loops is signed.
  unfoldable pub read_all_loops : ℕ → WavInfo → Reader S Progress
  read_all_loops n i =
      if 0 == n || leb (2 ^ 31) n
      then give (done (more i))
      else do loops ← read_loops n []; give (done (more (record i { loops = some loops })))

  unfoldable pub read_smpl : ℕ → WavInfo → Reader S Progress
  read_smpl size i = if ltb size 36 then give (done (more i)) else do
    o ← fetch_or src (36 ∷ []) no_sample_chunk
    let c = sample_chunk (object o)
    read_all_loops c.sample_loops (record i { sampler = some c })

  unfoldable pub read_inst : ℕ → WavInfo → Reader S Progress
  read_inst size i = if ltb size 7 then give (done (more i)) else do
    o ← fetch_or src (7 ∷ []) no_instrument_chunk
    give (done (more (record i { instrument = some (instrument_chunk (object o)) })))

  -- The chunk with a tag, at the position behind the tag.
  unfoldable pub read_body : RiffTag → WavInfo → Reader S Progress
  read_body tag i =
      if tag.id == fmt_
      then read_fmt tag.size i
      else if tag.id == data_
      then give (read_data tag.size i)
      else if tag.id == smpl
      then read_smpl tag.size i
      else if tag.id == inst
      then read_inst tag.size i
      else give (done (more i))

  -- Behind a chunk that does not end the header comes the seek.
  unfoldable pub seek_next : ℕ → RiffTag → Progress → Reader S Progress
  seek_next current tag (found i) = give (done (found i))
  seek_next current tag (more i) =
      sought src (pos (next_chunk current tag.size)) beg >>= λ _. give (done (more i))

  -- One turn of the loop.
  unfoldable pub read_chunk : WavInfo → Reader S Progress
  read_chunk i = do
    t ← fetched src (4 ∷ 4 ∷ [])
    elim (riff_tag t) [
      | none ↦ give (thrown no_data_tag)
      | some tag ↦ if tag.size == 0 then give (thrown no_data_tag) else do
        offset ← sought src (pos 0) cur
        p ← read_body tag i
        seek_next (to_uint32 offset) tag p
    ]

  unfoldable pub read_chunks : ℕ → WavInfo → Reader S WavInfo
  read_chunks zero i = give out_of_fuel
  read_chunks (suc fuel) i = do
    p ← read_chunk i
    elim p [ found i' ↦ give (done i') | more i' ↦ read_chunks fuel i' ]

  unfoldable pub read_wav_header : ℕ → Reader S WavInfo
  read_wav_header fuel = do
    start ← sought src (pos 0) beg
    t ← fetched src (4 ∷ 4 ∷ [])
    throw_if (not (has_tag riff (riff_tag t))) no_riff_tag
    w ← fetched src (4 ∷ [])
    throw_if (not (has_object wave w)) no_wave_tag
    read_chunks fuel (wav_info native_endian)
