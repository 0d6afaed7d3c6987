-- ===== src/Audio/Aiff/RoundTrip.antt =====
-- What an AIFF sink wrote, read by an AIFF source.
use ni_media.Common.{
  ℕ, zero, suc, ◌+◌, ◌*◌, ◌/◌, ◌%◌, ◌^◌, ◌≤◌, ◌<◌, ◌≡◌, refl, ap, sym, ◌∙◌, arith, false, some,
  List, [], ◌++◌, append_assoc, append-nil, length, length-append, ◌==◌,
}
use ni_media.Boost.{Algorithms, FindIf, BigEndian, length-object}
use ni_media.Iostreams.Container.{Container, container_source, container_sink}
use ni_media.Iostreams.Subview.Laws.{window}
use ni_media.Iostreams.File.Laws.{container_file}
use ni_media.Pcm.Format.{EndianType}
use ni_media.Pcm.Runtime.{RuntimeFormat}
use ni_media.Audio.Info.{StreamInfo, bytes_per_sample, bytes_per_frame, num_bytes, num_samples}
use ni_media.Audio.Ieee80.{Ieee80}
use ni_media.Audio.Reader.{Outcome, done}
use ni_media.Audio.Aiff.Chunks.{AiffInfo}
use ni_media.Audio.Aiff.Header.{aiff_info, with_bit_rate}
use ni_media.Audio.Aiff.Header.Common.{
  compressed, described, comm_chunk, common_bytes, length-common_bytes,
}
use ni_media.Audio.Aiff.Header.Whole.{aiff_file, content_start}
use ni_media.Audio.Aiff.Layout.{chunk_bytes, length-chunk_bytes}
use ni_media.Audio.Aiff.Source.{open_aiff}
use ni_media.Audio.Aiff.Source.Laws.{open_aiff-aiff_file}
use ni_media.Audio.Wav.RoundTrip.{frames_bytes}
use native.Mathlib.Nat.{mul-div_cancel, mul-suc}
use ni_media.Audio.Aiff.Sink.{AiffOutInfo, AiffSink, SinkError, format_to_tag, frame_size, close}
use ni_media.Audio.Aiff.Sink.Tags.{compression_format-format_to_tag}
use ni_media.Audio.Aiff.Sink.Layout.{sink_file, length-sink_file}
use ni_media.Audio.Aiff.Sink.Close.{written, close_aiff-written}
use ni_media.Audio.Aiff.Written.{
  IsWritable, common_of, common_of-IsCommon, rate_of-common_of, said_format, said_format_lem,
  chunks_of, sink_file-aiff_file, chunks_of-IsPadded,
}

-- The divisor of the sink is the size of a frame.
frame_size_lem : (i : StreamInfo) → i.num_channels ≤ 255 → frame_size i ≡ bytes_per_frame i
unfolding bytes_per_frame bytes_per_sample
frame_size_lem i h = ground arith

frame_lower : (i : StreamInfo) → IsWritable i → 0 < bytes_per_frame i
unfolding bytes_per_frame bytes_per_sample
frame_lower i h = ground (arith, h)

tag_fits : (f : RuntimeFormat) {tag : ℕ} → format_to_tag f ≡ some tag → tag < 2 ^ 32
unfolding format_to_tag
tag_fits f h = ground arith

frames_lt : (b m size : ℕ) → size ≡ m * b → 0 < b → size < 2 ^ 32 → m < 2 ^ 32
frames_lt zero m size e h small = absurd (omega arith)
frames_lt (suc b) m size e h small = let e' : size ≡ m * b + m = e ∙ mul-suc m b in omega arith

-- What is read of a file with a number of frames.
abbrev pub read_back : EndianType → StreamInfo → ℕ → AiffInfo
read_back native_endian i m =
    let new = aiff_info native_endian in
    with_bit_rate (record new {
      info = record new.info {
        num_frames = m;
        stream = record new.info.stream {
          format = said_format i.format;
          num_channels = i.num_channels;
          sample_rate = i.sample_rate;
        };
      };
    })

module _ ⦃boost : Algorithms⦄ ⦃range : FindIf RuntimeFormat⦄ ⦃big : BigEndian⦄ ⦃ieee : Ieee80⦄
    (native_endian : EndianType) where
  whole_bytes :
      (i : StreamInfo) (m : ℕ) (samples : List ℕ)
      → IsWritable i
      → length samples ≡ m * bytes_per_frame i
      → length samples < 2 ^ 32
      → length samples
        ≡ num_bytes
            (described (common_of i m) (said_format i.format) (aiff_info native_endian)).info
  unfolding num_bytes num_samples bytes_per_sample bytes_per_frame
  whole_bytes i m samples h e small =
      frames_bytes i.format.bitwidth m i.num_channels (length samples) h.some_channels
        h.few_channels e small

  read_back_lem :
      (i : StreamInfo) (m : ℕ)
      → IsWritable i
      → with_bit_rate (described (common_of i m) (said_format i.format) (aiff_info native_endian))
        ≡ read_back native_endian i m
  read_back_lem i m h = rw (rate_of-common_of i m h) refl

  -- What the sink left, as a file of chunks.
  opened_back :
      (i : StreamInfo) (samples : List ℕ) (m fuel : ℕ) {tag : ℕ}
      → IsWritable i
      → format_to_tag i.format ≡ some tag
      → length samples ≡ m * bytes_per_frame i
      → 0 < m
      → length samples % 2 ≡ 0
      → 58 + length samples < 2 ^ 32
      → 2 < fuel
      → open_aiff container_source native_endian fuel
          (container_file (sink_file i tag (50 + length samples) m (8 + length samples) samples) 0)
        ≡ (
          done (read_back native_endian i m),
          window
              (sink_file i tag (50 + length samples) m (8 + length samples) [])
              []
              (record { bytes = samples; position = 0 }),
        )
  opened_back i samples m fuel {tag} h tagged whole positive even small enough =
      let a = 50 + length samples in
      let c = 8 + length samples in
      let cs = chunks_of i tag m samples in
      let file = aiff_file a (compressed tag) cs in
      let before = sink_file i tag a m c [] in
      let same : sink_file i tag a m c samples ≡ file = sink_file-aiff_file i tag a m samples h in
      let split : sink_file i tag a m c samples ≡ before ++ (samples ++ []) =
        simp (append_assoc, append-nil) refl in
      let lf : length file ≡ 58 + length samples =
        ap (λ (b : List ℕ). length b) (sym same) ∙ length-sink_file i tag a m c samples in
      let lb : length before ≡ 58 = omega (arith, length-sink_file i tag a m c []) in
      let cc = common_of i m in
      let lc = length-common_bytes cc (ieee.length-of_double (ieee.of_size_t i.sample_rate)) in
      let start : length before ≡ content_start [] (compressed tag) cc [] + 0 = omega (
        arith,
        lb,
        length-object 4 tag,
        length-append (common_bytes cc) (big.object 4 tag),
        length-chunk_bytes (comm_chunk (compressed tag) cc),
        length-append (chunk_bytes (comm_chunk (compressed tag) cc)) [],
      ) in
      let frames_fit : m < 2 ^ 32 =
        frames_lt (bytes_per_frame i) m (length samples) whole (frame_lower i h) (omega arith) in
      rw (same) (
        open_aiff-aiff_file native_endian a (compressed tag) cc [] [] [] c 0 0 samples before
          samples [] 0 fuel (omega arith) (omega arith)
          (chunks_of-IsPadded i tag m samples (omega arith) even) tt tt tt tt tt
          (tag_fits i.format tagged) (common_of-IsCommon i m h positive frames_fit)
          (compression_format-format_to_tag i.format tagged) (said_format_lem i.format tagged)
          (omega arith) (omega arith) (sym same ∙ split) start
          (whole_bytes i m samples h whole (omega arith))
        ∙ rw (read_back_lem i m h) refl)

  -- The bytes of the container when the sink is closed.
  abbrev pub closed : AiffOutInfo → List ℕ → List ℕ
  closed info samples =
      (close container_sink native_endian (written info samples)).1.view.device.bytes

  -- Opening what an AIFF sink left of an empty container, when it was given samples in one write
  -- and closed, gives the number type and the width, the channels, the rate and the number of
  -- frames that were written, in the byte order that the file can say, and a window on exactly
  -- those samples. There are 1 to 255 channels, a rate of 1 Hz or more that fits 32 bits, a format
  -- that the sink has a tag for, one or more whole frames that take an even number of bytes, and
  -- less than 4 GiB in all; each loop is given three turns or more.
  pub open_aiff-close :
      (info : AiffOutInfo) (samples : List ℕ) (m fuel : ℕ) {tag : ℕ}
      → IsWritable info.stream
      → format_to_tag info.stream.format ≡ some tag
      → length samples ≡ m * bytes_per_frame info.stream
      → 0 < m
      → length samples % 2 ≡ 0
      → 58 + length samples < 2 ^ 32
      → 2 < fuel
      → open_aiff container_source native_endian fuel (container_file (closed info samples) 0) ≡ (
        done (read_back native_endian info.stream m),
        window
            (sink_file info.stream tag (50 + length samples) m (8 + length samples) [])
            []
            (record { bytes = samples; position = 0 }),
      )
  open_aiff-close info samples m fuel {tag} h tagged whole positive even small enough =
      let i = info.stream in
      let lower = frame_lower i h in
      let size = frame_size_lem i h.few_channels in
      let not_zero : (frame_size i == 0) ≡ false = ground (arith, size, lower) in
      let frames_fit : m < 2 ^ 32 =
        frames_lt (bytes_per_frame i) m (length samples) whole lower (omega arith) in
      let frames : length samples / frame_size i % 2 ^ 32 ≡ m =
        let quotient : length samples / frame_size i ≡ m =
          rw (size, whole) (mul-div_cancel m lower) in
        rw quotient (omega arith) in
      let left : closed info samples
          ≡ sink_file i tag (50 + length samples) (length samples / frame_size i % 2 ^ 32)
              (8 + length samples) samples =
        ap (λ (r : Outcome SinkError (Unit {0}) × AiffSink Container). r.1.view.device.bytes)
          (close_aiff-written native_endian info samples (omega (arith, h.some_channels)) tagged
            not_zero small) in
      ap (λ b. open_aiff container_source native_endian fuel (container_file b 0))
        (left
          ∙ ap (λ n. sink_file i tag (50 + length samples) n (8 + length samples) samples) frames)
      ∙ opened_back i samples m fuel h tagged whole positive even small enough
