-- ===== src/Audio/Aiff/Written.antt =====
-- The chunks of a file that an AIFF sink wrote, and the format that they say.
use ni_media.Common.{
  ℕ, ◌+◌, ◌%◌, ◌^◌, ◌≤◌, ◌<◌, ◌≡◌, refl, ap, sym, ◌∙◌, arith, true, Option, none, some, List, [],
  ◌++◌, append_assoc, append-nil, length, length-append, replicate,
}
use ni_media.Common.Bytes.{All, le_bytes}
use ni_media.Boost.{FindIf, BigEndian, length-object}
use ni_media.Pcm.Format.{bits}
use ni_media.Pcm.Runtime.{RuntimeFormat, of_bits, ok}
use ni_media.Pcm.Runtime.Laws.{format, is_supported, of_bits_lem, of_parts_lem}
use ni_media.Audio.Info.{StreamInfo}
use ni_media.Audio.Ieee80.{Ieee80}
use ni_media.Audio.Aiff.Chunks.{CommonChunk}
use ni_media.Audio.Aiff.Header.Common.{
  compressed, IsCommon, rate_of, comm_chunk, common_bytes, length-common_bytes,
}
use ni_media.Audio.Aiff.Header.Whole.{aiff_file, file_chunks, sound_chunk}
use ni_media.Audio.Aiff.Layout.{Chunk, IsPadded}
use ni_media.Audio.Aiff.Sink.{format_to_tag}
use ni_media.Audio.Aiff.Sink.Tags.{said_endian}
use ni_media.Audio.Aiff.Sink.Layout.{rate_bytes, sink_file}

-- Channels and a rate that fit the header.
pub record IsWritable (i : StreamInfo) : Type 0 where
  pub some_channels : 1 ≤ i.num_channels
  pub few_channels : i.num_channels ≤ 255
  pub some_rate : 1 ≤ i.sample_rate
  pub rate_fits : i.sample_rate < 2 ^ 32

-- The common chunk of a number of frames in a format.
abbrev pub common_of : ⦃ieee : Ieee80⦄ → StreamInfo → ℕ → CommonChunk
common_of i frames = record {
  num_channels = i.num_channels;
  num_sample_frames = frames;
  sample_size = bits i.format.bitwidth;
  ext_sample_rate = rate_bytes i;
}

-- The rate goes there and back.
pub rate_of-common_of :
    ⦃ieee : Ieee80⦄ (i : StreamInfo) (frames : ℕ)
    → IsWritable i
    → rate_of (common_of i frames) ≡ i.sample_rate
rate_of-common_of ⦃ieee⦄ i frames h =
    ap (λ (o : Option ℕ). elim o [ none ↦ 0 | some r ↦ r ])
      (ieee.to_size_t-to_double i.sample_rate h.rate_fits)

pub common_of-IsCommon :
    ⦃ieee : Ieee80⦄ (i : StreamInfo) (frames : ℕ)
    → IsWritable i
    → 0 < frames
    → frames < 2 ^ 32
    → IsCommon (common_of i frames)
common_of-IsCommon ⦃ieee⦄ i frames h positive fits = record {
  some_channels = omega (arith, h.some_channels);
  few_channels = h.few_channels;
  some_frames = positive;
  frames_fit = fits;
  width_fits = ground arith;
  rate_size = ieee.length-of_double (ieee.of_size_t i.sample_rate);
  positive = ieee.not_positive-to_double i.sample_rate (omega (arith, h.some_rate)) h.rate_fits;
  rate_fits =
      ieee.to_size_t-to_double i.sample_rate h.rate_fits
      ∙ ap some (sym (rate_of-common_of i frames h));
}

-- A format that has a tag is supported, in either byte order.
tag-IsSupported :
    (f : RuntimeFormat) {tag : ℕ}
    → format_to_tag f ≡ some tag
    → is_supported f.number f.bitwidth ≡ true
unfolding format_to_tag
tag-IsSupported f h = ground arith

-- The format that a file of a format says.
abbrev pub said_format : RuntimeFormat → RuntimeFormat
said_format f = format f.number f.bitwidth (said_endian f)

pub said_format_lem :
    ⦃range : FindIf RuntimeFormat⦄ (f : RuntimeFormat) {tag : ℕ}
    → format_to_tag f ≡ some tag
    → of_bits f.number (bits f.bitwidth) (said_endian f) ≡ ok (said_format f)
said_format_lem f tagged =
    (of_bits_lem f.number (said_endian f)).0 f.bitwidth
    ∙ of_parts_lem f.number f.bitwidth (said_endian f)
    ∙ rw (tag-IsSupported f tagged) refl

module _ ⦃big : BigEndian⦄ ⦃ieee : Ieee80⦄ where
  abbrev pub chunks_of : StreamInfo → ℕ → ℕ → List ℕ → List Chunk
  chunks_of i tag frames samples =
      file_chunks [] (compressed tag) (common_of i frames) []
        (sound_chunk (8 + length samples) 0 0 samples) []

  zeros : big.object 4 0 ++ big.object 4 0 ≡ replicate 8 0
  unfolding le_bytes
  zeros = rw (big.object_lem 4 0) refl

  -- The sink's layout is a sequence of chunks.
  pub sink_file-aiff_file :
      (i : StreamInfo) (tag form_size frames : ℕ) (samples : List ℕ)
      → IsWritable i
      → sink_file i tag form_size frames (8 + length samples) samples
        ≡ aiff_file form_size (compressed tag) (chunks_of i tag frames samples)
  sink_file-aiff_file i tag form_size frames samples h =
      let channels : i.num_channels % 2 ^ 16 ≡ i.num_channels = omega (arith, h.few_channels) in
      let size : 18 + length (big.object 4 tag) ≡ 22 = omega (arith, length-object 4 tag) in
      rw (channels, size, zeros) (simp (append_assoc, append-nil) refl)

  pub chunks_of-IsPadded :
      (i : StreamInfo) (tag frames : ℕ) (samples : List ℕ)
      → 8 + length samples < 2 ^ 32
      → length samples % 2 ≡ 0
      → All IsPadded (chunks_of i tag frames samples)
  chunks_of-IsPadded i tag frames samples small even =
      let c = common_of i frames in
      let lt = length-object 4 tag in
      let zero = big.object 4 0 in
      let lc = length-common_bytes c (ieee.length-of_double (ieee.of_size_t i.sample_rate)) in
      let it = comm_chunk (compressed tag) c in
      (
        record {
          id_fits = omega arith;
          size_fits = omega arith;
          padded = omega (arith, length-append (common_bytes c) (big.object 4 tag));
        },
        (
          record {
            id_fits = omega arith;
            size_fits = omega arith;
            padded = omega (
              arith,
              length-append (zero ++ zero) samples,
              length-append zero zero,
              length-object 4 0,
            );
          },
          tt,
        ),
      )
