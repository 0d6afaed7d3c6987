-- ===== src/Audio/Aiff/Source/Laws.antt =====
-- What an AIFF source on a container gives: the samples that the common chunk counts, and no more.
use ni_media.Common.{
  ℕ, ◌+◌, ◌-◌, ◌^◌, ◌≤◌, ◌<◌, ◌≡◌, refl, ap, ◌∙◌, arith, some, List, ◌++◌, length, length-append,
  min,
}
use ni_media.Common.Int.{pos, ◌+ℤ◌, int_laws}
use ni_media.Common.Bytes.{All}
use ni_media.Boost.{Algorithms, FindIf, BigEndian}
use ni_media.Iostreams.Container.{container_source}
use ni_media.Iostreams.Subview.{set_view}
use ni_media.Iostreams.Subview.Laws.{window}
use ni_media.Iostreams.File.{IsFile, IsFileSize, portion}
use ni_media.Iostreams.File.Laws.{container_file, container_file-IsFile}
use ni_media.Pcm.Format.{NumberType, EndianType}
use ni_media.Pcm.Runtime.{RuntimeFormat, of_compiletime, of_bits, ok}
use ni_media.Audio.Info.{bytes_per_frame, bytes_per_sample, num_bytes}
use ni_media.Audio.Ieee80.{Ieee80}
use ni_media.Audio.Reader.{done}
use ni_media.Audio.Wav.Source.Laws.{whole_frames-one}
use ni_media.Audio.Aiff.Chunks.{CommonChunk, AiffInfo}
use ni_media.Audio.Aiff.Header.{aiff_info, with_bit_rate}
use ni_media.Audio.Aiff.Header.Passed.{IsUnread, IsNotSsnd}
use ni_media.Audio.Aiff.Header.Common.{Form, sample_format_of, IsForm, IsCommon, described}
use ni_media.Audio.Aiff.Header.Whole.{
  aiff_file, file_chunks, sound_chunk, content_start, read_aiff_header-aiff_file,
}
use ni_media.Audio.Aiff.Layout.{Chunk, IsPadded}
use ni_media.Audio.Aiff.Source.{read, aiff_source, open_aiff, view_data}

-- The frames of a new `aiff_ifstream_info` have one byte.
one_byte_frames :
    (native_endian : EndianType) → bytes_per_frame (aiff_info native_endian).info.stream ≡ 1
unfolding bytes_per_frame bytes_per_sample of_compiletime
one_byte_frames native_endian = refl

module _ ⦃boost : Algorithms⦄ where
  -- While the header is read, the source reads what its window reads.
  new_source_read :
      (native_endian : EndianType) (bytes : List ℕ) (p n : ℕ)
      → IsFileSize bytes
      → p ≤ length bytes
      → read container_source (aiff_info native_endian) n (container_file bytes p)
        ≡ (portion n bytes p, container_file bytes (p + min n (length bytes - p)))
  unfolding read
  new_source_read native_endian bytes p n size hp =
      rw
        (
          container_file-IsFile.read_at bytes p n size hp,
          one_byte_frames native_endian,
          whole_frames-one (portion n bytes p),
        )
        refl

  aiff_source-IsFile :
      (native_endian : EndianType)
      → IsFile (aiff_source container_source (aiff_info native_endian)) container_file
  aiff_source-IsFile native_endian = record {
    read_at = new_source_read native_endian;
    tell_at = container_file-IsFile.tell_at;
    seek_at = container_file-IsFile.seek_at;
    step_at = container_file-IsFile.step_at;
  }

  -- The view that is set where the header's reader stopped.
  view_data-window :
      (before samples after : List ℕ) (k : ℕ) (i : AiffInfo)
      → k ≡ length before
      → length samples ≡ num_bytes i.info
      → IsFileSize (before ++ (samples ++ after))
      → view_data container_source i (container_file (before ++ (samples ++ after)) k)
        ≡ (done i, window before after (record { bytes = samples; position = 0 }))
  unfolding view_data set_view
  view_data-window before samples after k i ek whole fits =
      let bytes = before ++ (samples ++ after) in
      let inside : k ≤ length bytes = omega (arith, length-append before (samples ++ after)) in
      let last : pos k +ℤ pos (length samples) ≡ pos (length before + length samples) =
        omega (int_laws, ek) in
      let plus : length before + 0 ≡ length before = omega arith in
      rw (container_file-IsFile.tell_at bytes k fits inside, ← whole, last, plus, ek) refl

module _ ⦃boost : Algorithms⦄ ⦃big : BigEndian⦄ ⦃range : FindIf RuntimeFormat⦄ ⦃ieee : Ieee80⦄
    (native_endian : EndianType) where
  pub open_aiff-aiff_file :
      (form_size : ℕ) (f : Form) (c : CommonChunk) (first second third : List Chunk)
      (size offset block : ℕ) (content before samples after : List ℕ) (p fuel : ℕ)
      {sample : NumberType × ℕ × EndianType} {format : RuntimeFormat}
      → let cs = file_chunks first f c second (sound_chunk size offset block content) third in
        p ≤ length (aiff_file form_size f cs)
        → length (aiff_file form_size f cs) < 2 ^ 32
        → All IsPadded cs
        → All IsUnread first
        → All IsUnread second
        → All IsUnread third
        → All IsNotSsnd first
        → All IsNotSsnd second
        → IsForm f
        → IsCommon c
        → sample_format_of f c.sample_size ≡ some sample
        → of_bits sample.0 sample.1 sample.2 ≡ ok format
        → offset < 2 ^ 32
        → length cs < fuel
        → aiff_file form_size f cs ≡ before ++ (samples ++ after)
        → length before ≡ content_start first f c second + offset
        → length samples ≡ num_bytes (described c format (aiff_info native_endian)).info
        → open_aiff container_source native_endian fuel
            (container_file (aiff_file form_size f cs) p)
          ≡ (
            done (with_bit_rate (described c format (aiff_info native_endian))),
            window before after (record { bytes = samples; position = 0 }),
          )
  unfolding open_aiff num_bytes
  open_aiff-aiff_file form_size f c first second third size offset block content before samples
        after p fuel {sample} {format} hp small padded u1 u2 u3 n1 n2 hf hc supported valid low
        enough split start whole =
      let bytes =
        aiff_file form_size f
          (file_chunks first f c second (sound_chunk size offset block content) third) in
      let i = with_bit_rate (described c format (aiff_info native_endian)) in
      let total : length bytes ≡ length before + (length samples + length after) =
        ap (λ (b : List ℕ). length b) split
        ∙ omega (arith, length-append before (samples ++ after), length-append samples after) in
      let there : content_start first f c second + offset ≤ length bytes = omega arith in
      rw
        (
          read_aiff_header-aiff_file (aiff_source-IsFile native_endian) native_endian form_size f c
              first second third size offset block content p fuel hp small padded u1 u2 u3 n1 n2 hf
              hc supported valid low there enough,
          ← start,
          split,
        )
        (view_data-window before samples after (length before) i refl whole
          (omega (arith, ap (λ (b : List ℕ). length b) split)))
