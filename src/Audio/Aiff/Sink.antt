-- ===== src/Audio/Aiff/Sink.antt =====
-- The sink of an AIFF file (aiff_sink.h): the header, whose sizes are filled in at the end, and the window on
-- the sound data. The device itself is closed by its own `close`, which is not modelled.
pub mod Tags
pub mod Layout
pub mod Laws
pub mod Close
use ni_media.Common.{
  ℕ, ◌+◌, ◌*◌, ◌/◌, ◌%◌, ◌^◌, Bool, true, ◌||◌, Option, none, some, List, replicate, ◌==◌,
  if◌then◌else◌,
}
use ni_media.Common.Int.{ℤ, pos}
use ni_media.Boost.{Algorithms, BigEndian}
use ni_media.Iostreams.Positioning.{beg}
use ni_media.Iostreams.Device.{Sink, Write}
use ni_media.Iostreams.Subview
use ni_media.Iostreams.Subview.{Subview, subview_sink, set_view, tell, seek, max_pos}
use ni_media.Iostreams.Fetch.{write_obj}
use ni_media.Pcm.Format.{
  EndianType, little_endian, NumberType, signed_integer, unsigned_integer, floating_point, bits,
  bit8, bit16, bit24, bit32, bit64, same_number, same_bitwidth, same_endian,
}
use ni_media.Pcm.Runtime.{RuntimeFormat}
use ni_media.Audio.Info.{OutContainerType, OutCodecType, StreamInfo, stream_info, size_t}
use ni_media.Audio.Ieee80.{Ieee80}
use ni_media.Audio.Reader as Reading
use ni_media.Audio.Reader.{
  Outcome, done, undefined, ◌>>=◌, ◌>>◌, give, throw_if, or_throw, to_uint32,
}
use ni_media.Audio.Wav.Sink.{minus_uint32}
use ni_media.Audio.Aiff.Chunks.{aifc, form, comm, ssnd, none_, raw, sowt, fl32, fl64}

-- The `std::runtime_error`s.
pub data SinkError : Type 0 where
  no_channels invalid_format : SinkError

-- `aiff_ofstream_info`, whose information beyond the format is not written.
pub record AiffOutInfo : Type 0 where
  pub stream : StreamInfo
  pub lossless : Bool
  pub container : OutContainerType
  pub codec : OutCodecType

abbrev pub aiff_out_info : EndianType → AiffOutInfo
aiff_out_info native_endian = record {
  stream = stream_info native_endian;
  lossless = true;
  container = OutContainerType.aiff;
  codec = OutCodecType.aiff;
}

pub record AiffSink (S : Type 0) : Type 0 where
  pub view : Subview S
  pub info : AiffOutInfo
  pub file_size_offset : ℤ
  pub num_frames_offset : ℤ
  pub ssnd_size_offset : ℤ
  pub header_size : ℕ

-- An operation on a sink.
abbrev pub Writer : Type 0 → Type 0 → Type 0
Writer S A = Reading.Reader SinkError (AiffSink S) A

unfoldable pub format_to_tag : RuntimeFormat → Option ℕ
format_to_tag f =
    if same_number f.number signed_integer
    then (if same_bitwidth f.bitwidth bit8
          || same_bitwidth f.bitwidth bit16
          || same_bitwidth f.bitwidth bit24
          || same_bitwidth f.bitwidth bit32
        then some (if same_endian f.endian little_endian then sowt else none_)
        else none)
    else if same_number f.number unsigned_integer
    then (if same_bitwidth f.bitwidth bit8 then some raw else none)
    else if same_number f.number floating_point
    then (if same_bitwidth f.bitwidth bit32
        then some fl32
        else if same_bitwidth f.bitwidth bit64
        then some fl64
        else none)
    else none

-- What the frames take: the divisor of the number of frames.
abbrev pub frame_size : StreamInfo → ℕ
frame_size i = size_t (i.num_channels * bits i.format.bitwidth) / 8

abbrev pub frames_in : ℕ → ℕ → Outcome SinkError ℕ
frames_in size frame = if frame == 0 then undefined else done (size / frame % 2 ^ 32)

module _ ⦃boost : Algorithms⦄ {S : Type 0} (sink : Sink S) where
  -- The results of `write_obj` are not looked at.
  unfoldable pub put : List ℕ → Writer S (Unit {0})
  put bs k = (done tt, record k { view = (write_obj (subview_sink sink) bs k.view).1 })

  unfoldable pub told : Writer S ℤ
  told k = (done ((tell sink.seek k.view).0), record k { view = (tell sink.seek k.view).1 })

  unfoldable pub sought : ℤ → Writer S (Unit {0})
  sought off k = (done tt, record k { view = (seek sink.seek off beg k.view).1 })

  abbrev set_file_size_offset : ℤ → Writer S (Unit {0})
  set_file_size_offset off k = (done tt, record k { file_size_offset = off })

  abbrev set_num_frames_offset : ℤ → Writer S (Unit {0})
  set_num_frames_offset off k = (done tt, record k { num_frames_offset = off })

  abbrev set_ssnd_size_offset : ℤ → Writer S (Unit {0})
  set_ssnd_size_offset off k = (done tt, record k { ssnd_size_offset = off })

  abbrev set_header_size : ℕ → Writer S (Unit {0})
  set_header_size n k = (done tt, record k { header_size = n })

  module _ ⦃big : BigEndian⦄ ⦃ieee : Ieee80⦄ where
    unfoldable pub write_form : Writer S (Unit {0})
    write_form = do
      put (big.object 4 form)
      a ← told
      set_file_size_offset a
      put (big.object 4 0)
      put (big.object 4 aifc)

    unfoldable pub write_comm : StreamInfo → Writer S (Unit {0})
    write_comm i = do
      put (big.object 4 comm)
      put (big.object 4 22)
      put (big.object 2 (i.num_channels % 2 ^ 16))
      a ← told
      set_num_frames_offset a
      put (big.object 4 0)
      put (big.object 2 (bits i.format.bitwidth))
      put (ieee.of_double (ieee.of_size_t i.sample_rate))
      tag ← give (or_throw (format_to_tag i.format) invalid_format)
      put (big.object 4 tag)

    unfoldable pub write_ssnd : Writer S (Unit {0})
    write_ssnd = do
      put (big.object 4 ssnd)
      a ← told
      set_ssnd_size_offset a
      put (big.object 4 0)
      put (replicate 8 0)
      b ← told
      set_header_size (to_uint32 b)

    unfoldable pub write_aiff_header : Writer S (Unit {0})
    write_aiff_header k = (write_form >> (write_comm k.info.stream >> write_ssnd)) k

    -- The offsets, the size of the header and the format are those that the header left.
    unfoldable pub fill_in : AiffSink S → Writer S (Unit {0})
    fill_in left = do
      p ← told
      let file_size = to_uint32 p
      sought left.file_size_offset
      put (big.object 4 (minus_uint32 file_size 8))
      sought left.num_frames_offset
      samples ←
          give (frames_in (minus_uint32 file_size left.header_size) (frame_size left.info.stream))
      put (big.object 4 samples)
      sought left.ssnd_size_offset
      put (big.object 4 ((minus_uint32 file_size left.header_size + 8) % 2 ^ 32))

    unfoldable pub close_aiff : Writer S (Unit {0})
    close_aiff k = fill_in k k

    abbrev view_from_here : Writer S (Unit {0})
    view_from_here = told >>= λ p k. (done tt, record k { view = set_view p max_pos k.view })

    -- The constructor, on the window that is the whole device.
    unfoldable pub open_aiff_sink :
        AiffOutInfo → Subview S → Outcome SinkError (Unit {0}) × AiffSink S
    open_aiff_sink info v =
        (throw_if (info.stream.num_channels == 0) no_channels
            >> (write_aiff_header >> view_from_here))
          (record {
            view = v;
            info = info;
            file_size_offset = pos 0;
            num_frames_offset = pos 0;
            ssnd_size_offset = pos 0;
            header_size = 0;
          })

    abbrev renew : EndianType → Writer S (Unit {0})
    renew native_endian k = (done tt, record k { info = aiff_out_info native_endian })

    unfoldable pub close : EndianType → Writer S (Unit {0})
    close native_endian k =
        (close_aiff >> renew native_endian) (record k { view = set_view (pos 0) max_pos k.view })

  -- `write` is that of the window.
  unfoldable pub write : List ℕ → AiffSink S → Write × AiffSink S
  write s k = let (r, v) = Subview.write sink s k.view in (r, record k { view = v })
