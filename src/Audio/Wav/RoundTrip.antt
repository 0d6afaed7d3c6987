-- ===== src/Audio/Wav/RoundTrip.antt =====
-- What a WAV sink wrote, read by a WAV source.
use ni_media.Common.{
  ℕ, zero, suc, ◌+◌, ◌*◌, ◌/◌, ◌%◌, ◌^◌, ◌≤◌, ◌<◌, ◌≡◌, refl, ap, sym, ◌∙◌, arith, List, [], ◌++◌,
  append-nil, length,
}
use ni_media.Boost.{Algorithms, FindIf}
use ni_media.Iostreams.Container.{container_source, container_sink}
use ni_media.Iostreams.Subview.Laws.{window}
use ni_media.Iostreams.File.Laws.{container_file}
use ni_media.Pcm.Format.{EndianType, BitwidthType, bits}
use ni_media.Pcm.Runtime.{RuntimeFormat}
use ni_media.Audio.Info.{
  StreamInfo, bits_per_sample, bytes_per_sample, bytes_per_frame, num_bytes, num_samples,
}
use ni_media.Audio.Wav.Reader.{done}
use ni_media.Audio.Wav.Header.{determine_format}
use ni_media.Audio.Wav.Header.Turns.{IsFmt, with_data}
use ni_media.Audio.Wav.Header.Whole.{header_fuel, formatted, wav_file}
use ni_media.Audio.Wav.Source.{open_wav}
use ni_media.Audio.Wav.Source.Laws.{header_bytes, open_wav-wav_file}
use ni_media.Audio.Wav.Sink.{WavOutInfo, audio_format, close}
use ni_media.Audio.Wav.Sink.Laws.{format_chunk}
use ni_media.Audio.Wav.Sink.Close.{written, close-written, length-sized}
use native.Mathlib.Nat.{mul-div_cancel, mul_left_comm, mul_comm}

-- Channels and a rate that fit the header.
pub record IsWritable (i : StreamInfo) : Type 0 where
  pub some_channels : 1 ≤ i.num_channels
  pub few_channels : i.num_channels ≤ 255
  pub some_rate : 1 ≤ i.sample_rate
  pub rate_fits : i.sample_rate < 2 ^ 32

format_chunk-IsFmt : (i : StreamInfo) → IsWritable i → IsFmt (format_chunk i)
unfolding bytes_per_sample
format_chunk-IsFmt i h = ground (arith, h)

frame_size :
    (native_endian : EndianType) (i : StreamInfo)
    → IsWritable i
    → bytes_per_frame (formatted native_endian (format_chunk i) i.format).info.stream
      ≡ bytes_per_frame i
unfolding bytes_per_frame bytes_per_sample
frame_size native_endian i h =
    let e : i.num_channels % 2 ^ 16 ≡ i.num_channels = omega (arith, h) in rw e refl

frame_lower : (i : StreamInfo) → IsWritable i → 0 < bytes_per_frame i
unfolding bytes_per_frame bytes_per_sample
frame_lower i h = ground (arith, h)

bits_fit : (i : StreamInfo) → bits_per_sample i % 2 ^ 16 ≡ bits_per_sample i
bits_fit i = ground arith

-- A number of frames, in bytes, where nothing wraps.
pub frames_bytes :
    (w : BitwidthType) (m channels size : ℕ)
    → 1 ≤ channels
    → channels ≤ 255
    → size ≡ m * (bits w / 8 * channels % 2 ^ 64)
    → size < 2 ^ 32
    → size ≡ m * channels % 2 ^ 64 * (bits w / 8) % 2 ^ 64
frames_bytes w m channels size h h' e small =
    let no_wrap : bits w / 8 * channels % 2 ^ 64 ≡ bits w / 8 * channels = ground arith in
    let e' : size ≡ m * (bits w / 8 * channels) = rw (← no_wrap) e in
    let sorted : m * (bits w / 8 * channels) ≡ bits w / 8 * (m * channels) =
      mul_left_comm m (bits w / 8) channels in
    let e2 : size ≡ bits w / 8 * (m * channels) = e' ∙ sorted in
    ground (arith, mul_comm (m * channels % 2 ^ 64) (bits w / 8))

pub at_least_once : (b m size : ℕ) → size ≡ m * b → 0 < m → b ≤ size
at_least_once b zero size e h = absurd (omega arith)
at_least_once b (suc m) size e h = omega arith

whole_bytes :
    (native_endian : EndianType) (i : StreamInfo) (m size : ℕ)
    → IsWritable i
    → size ≡ m * bytes_per_frame i
    → size < 2 ^ 32
    → size ≡ num_bytes (with_data size (formatted native_endian (format_chunk i) i.format)).info
unfolding num_bytes num_samples bytes_per_sample bytes_per_frame
whole_bytes native_endian i m size h e small =
    let c : i.num_channels % 2 ^ 16 ≡ i.num_channels = omega (arith, h) in
    let frames : size / bytes_per_frame i ≡ m = rw e (mul-div_cancel m (frame_lower i h)) in
    rw (frame_size native_endian i h, frames, c)
      (frames_bytes i.format.bitwidth m i.num_channels size h.some_channels h.few_channels e small)

module _ ⦃boost : Algorithms⦄ ⦃range : FindIf RuntimeFormat⦄ (native_endian : EndianType) where
  -- The bytes of the container when the sink is closed.
  abbrev pub closed : WavOutInfo → List ℕ → List ℕ
  closed info samples =
      (close container_sink native_endian (written info samples)).view.device.bytes

  -- Opening what a sink left of an empty container, when it was given samples in one write and
  -- closed, gives the format, the channels, the rate and the number of frames that were written,
  -- and a window on exactly those samples. There are 1 to 255 channels, a rate of 1 Hz or more that
  -- fits 32 bits, a format that the reader makes of its own tag and width, one or more whole
  -- frames, and less than 4 GiB in all; the loop is given two turns or more.
  pub open_wav-close :
      (info : WavOutInfo) (samples : List ℕ) (m spare : ℕ)
      → IsWritable info.stream
      → determine_format native_endian (audio_format info.stream) (bits_per_sample info.stream)
        ≡ done info.stream.format
      → length samples ≡ m * bytes_per_frame info.stream
      → 0 < m
      → 44 + length samples < 2 ^ 32
      → open_wav container_source native_endian (2 + spare) (container_file (closed info samples) 0)
        ≡ (
          done (
              with_data
                (length samples)
                (formatted native_endian (format_chunk info.stream) info.stream.format)),
          window
              (header_bytes (36 + length samples) [] (format_chunk info.stream) [] (length samples))
              []
              (record { bytes = samples; position = 0 }),
        )
  open_wav-close info samples m spare h supported whole some small =
      let i = info.stream in
      let c = format_chunk i in
      let file = wav_file (36 + length samples) [] c [] (length samples) samples in
      let total : length file ≡ 44 + length samples =
        length-sized (36 + length samples) (length samples) c samples in
      let tail : samples ++ [] ≡ samples = append-nil samples in
      let one_frame : bytes_per_frame i ≤ length samples =
        at_least_once (bytes_per_frame i) m (length samples) whole some in
      let lower : 0 < bytes_per_frame i = frame_lower i h in
      let supported' : determine_format native_endian c.format_tag c.bits_per_sample
          ≡ done i.format =
        rw (bits_fit i) supported in
      let opened =
        open_wav-wav_file native_endian (36 + length samples) [] [] c (length samples) samples [] 0
          spare (omega arith) (rw tail (omega arith)) tt tt (omega arith) (format_chunk-IsFmt i h)
          supported' (omega arith) (rw (frame_size native_endian i h) lower)
          (rw (frame_size native_endian i h) one_frame)
          (whole_bytes native_endian i m (length samples) h whole (omega arith)) in
      let fuel : 2 + spare ≡ header_fuel [] [] spare = omega arith in
      rw (close-written native_endian info samples small, fuel)
        (ap
            (λ (t : List ℕ).
              open_wav container_source native_endian (header_fuel [] [] spare)
                (container_file (wav_file (36 + length samples) [] c [] (length samples) t) 0))
            (sym tail)
          ∙ opened)
