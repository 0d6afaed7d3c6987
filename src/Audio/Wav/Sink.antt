-- ===== src/Audio/Wav/Sink.antt =====
-- The sink of a WAV file (wav_sink.h): the header, whose sizes are filled in at the end, and the window on
-- the data. The device itself is closed by its own `close`, which is not modelled.
pub mod Laws
pub mod Close
use ni_media.Common.{
  ℕ, ◌+◌, ◌-◌, ◌*◌, ◌%◌, ◌^◌, true, Bool, Option, none, List, ◌==◌, if◌then◌else◌,
}
use ni_media.Common.Int.{ℤ, pos}
use ni_media.Common.Bytes.{le_bytes}
use ni_media.Boost.{Algorithms}
use ni_media.Iostreams.Positioning.{beg}
use ni_media.Iostreams.Device.{Sink, Write}
use ni_media.Iostreams.Subview
use ni_media.Iostreams.Subview.{Subview, subview_sink, set_view, tell, seek, max_pos}
use ni_media.Iostreams.Fetch.{write_obj}
use ni_media.Pcm.Format.{EndianType, floating_point, same_number}
use ni_media.Audio.Info.{
  OutContainerType, OutCodecType, StreamInfo, stream_info, bits_per_sample, bytes_per_sample,
}
use ni_media.Audio.Wav.Chunks.{riff, wave, fmt_, data_, format_tag_pcm, format_tag_ieee_float}
use ni_media.Audio.Wav.Reader.{to_uint32}

-- `wav_ofstream_info`, whose information beyond the format is not written.
pub record WavOutInfo : Type 0 where
  pub stream : StreamInfo
  pub lossless : Bool
  pub container : OutContainerType
  pub codec : OutCodecType

abbrev pub wav_out_info : EndianType → WavOutInfo
wav_out_info native_endian = record {
  stream = stream_info native_endian;
  lossless = true;
  container = OutContainerType.wav;
  codec = OutCodecType.wav;
}

pub record WavSink (S : Type 0) : Type 0 where
  pub view : Subview S
  pub info : WavOutInfo
  pub header_offset : ℤ
  pub data_offset : ℤ
  pub chunk_size_offset : ℤ

-- An operation on a sink.
abbrev pub Writer : Type 0 → Type 0 → Type 0
Writer S A = WavSink S → A × WavSink S

infixl 5 ◌>>=◌ ◌>>◌
abbrev pub ◌>>=◌ : {S A B : Type 0} → Writer S A → (A → Writer S B) → Writer S B
◌>>=◌ m f s = f ((m s).0) ((m s).1)

abbrev pub ◌>>◌ : {S A B : Type 0} → Writer S A → Writer S B → Writer S B
m >> k = m >>= λ _. k

-- The fields of the format chunk, cut to their widths.
abbrev pub audio_format : StreamInfo → ℕ
audio_format i =
    if same_number i.format.number floating_point then format_tag_ieee_float else format_tag_pcm

abbrev pub num_channels : StreamInfo → ℕ
num_channels i = i.num_channels % 2 ^ 16

abbrev pub sample_rate : StreamInfo → ℕ
sample_rate i = i.sample_rate % 2 ^ 32

abbrev pub byte_rate : StreamInfo → ℕ
byte_rate i = sample_rate i * num_channels i % 2 ^ 32 * bytes_per_sample i % 2 ^ 64 % 2 ^ 32

abbrev pub block_align : StreamInfo → ℕ
block_align i = num_channels i * bytes_per_sample i % 2 ^ 64 % 2 ^ 16

-- A difference of `uint32_t`s.
abbrev pub minus_uint32 : ℕ → ℕ → ℕ
minus_uint32 a b = (a + (2 ^ 32 - b)) % 2 ^ 32

module _ ⦃boost : Algorithms⦄ {S : Type 0} (sink : Sink S) where
  -- The results of `write_obj` are not looked at.
  unfoldable pub put : ℕ → ℕ → Writer S (Unit {0})
  put size v k =
      (tt, record k { view = (write_obj (subview_sink sink) (le_bytes size v) k.view).1 })

  unfoldable pub told : Writer S ℤ
  told k = ((tell sink.seek k.view).0, record k { view = (tell sink.seek k.view).1 })

  unfoldable pub sought : ℤ → Writer S (Unit {0})
  sought off k = (tt, record k { view = (seek sink.seek off beg k.view).1 })

  unfoldable pub write_format : StreamInfo → Writer S (Unit {0})
  write_format i = do
    put 4 fmt_
    put 4 16
    put 2 (audio_format i)
    put 2 (num_channels i)
    put 4 (sample_rate i)
    put 4 (byte_rate i)
    put 2 (block_align i)
    put 2 (bits_per_sample i % 2 ^ 16)

  abbrev set_chunk_size_offset : ℤ → Writer S (Unit {0})
  set_chunk_size_offset offs k = (tt, record k { chunk_size_offset = offs })

  abbrev set_data_offset : ℤ → Writer S (Unit {0})
  set_data_offset offs k = (tt, record k { data_offset = offs })

  abbrev set_header_offset : ℤ → Writer S (Unit {0})
  set_header_offset offs k = (tt, record k { header_offset = offs })

  unfoldable pub write_header_of : StreamInfo → Writer S (Unit {0})
  write_header_of i = do
    put 4 riff
    a ← told
    set_chunk_size_offset a
    put 4 0
    put 4 wave
    write_format i
    put 4 data_
    b ← told
    set_data_offset b
    put 4 0
    c ← told
    set_header_offset c

  unfoldable pub write_wav_header : Writer S (Unit {0})
  write_wav_header k = write_header_of k.info.stream k

  -- The offsets of the sizes and of the data are those that the header left.
  unfoldable pub fill_in : ℤ → ℤ → ℤ → Writer S (Unit {0})
  fill_in chunk_size_offset data_offset header_offset = do
    file_size ← told
    sought chunk_size_offset
    put 4 (minus_uint32 (to_uint32 file_size) 8)
    sought data_offset
    put 4 (minus_uint32 (to_uint32 file_size) (to_uint32 header_offset))

  unfoldable pub close_wav : Writer S (Unit {0})
  close_wav k = fill_in k.chunk_size_offset k.data_offset k.header_offset k

  -- The constructor, on the window that is the whole device.
  unfoldable pub open_wav_sink : WavOutInfo → Subview S → WavSink S
  open_wav_sink info v =
      let k =
        (write_wav_header (record {
          view = v;
          info = info;
          header_offset = pos 0;
          data_offset = pos 0;
          chunk_size_offset = pos 0;
        })).1 in
      let (p, k') = told k in record k' { view = set_view p max_pos k'.view }

  unfoldable pub close : EndianType → WavSink S → WavSink S
  close native_endian k =
      let k' = (close_wav (record k { view = set_view (pos 0) max_pos k.view })).1 in
      record k' { info = wav_out_info native_endian }

  -- `write` is that of the window.
  unfoldable pub write : List ℕ → WavSink S → Write × WavSink S
  write s k = let (r, v) = Subview.write sink s k.view in (r, record k { view = v })
