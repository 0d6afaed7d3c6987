-- ===== src/Audio/Wav/Source/Laws.antt =====
-- What a WAV source on a container gives: the data of the file, and no more.
use ni_media.Common.{
  ℕ, ◌+◌, ◌-◌, ◌%◌, ◌^◌, ◌≤◌, ◌<◌, ◌≡◌, refl, ap, sym, ◌∙◌, arith, List, [], ◌++◌, append_assoc,
  length, length-append, min, take_all,
}
use ni_media.Common.Int.{pos, ◌+ℤ◌, int_laws}
use ni_media.Common.Bytes.{All, le_bytes}
use ni_media.Boost.{Algorithms, FindIf}
use ni_media.Iostreams.Device.{Read, got, eof}
use ni_media.Iostreams.Container
use ni_media.Iostreams.Container.{Container, container_source}
use ni_media.Iostreams.Subview.{set_view}
use ni_media.Iostreams.Subview.Laws.{window}
use ni_media.Iostreams.File.{IsFile, IsFileSize, portion}
use ni_media.Iostreams.File.Laws.{container_file, container_file-IsFile}
use ni_media.Pcm.Format.{EndianType}
use ni_media.Pcm.Runtime.{RuntimeFormat, of_compiletime}
use ni_media.Audio.Info.{bytes_per_frame, bytes_per_sample, num_bytes}
use ni_media.Audio.Wav.Chunks.{FmtChunk, riff, wave, fmt_, data_}
use ni_media.Audio.Wav.Reader.{done}
use ni_media.Audio.Wav.Header.{wav_info, determine_format}
use ni_media.Audio.Wav.Header.Laws.{chunk}
use ni_media.Audio.Wav.Header.Turns.{Chunk, fmt_bytes, IsFmt, with_data}
use ni_media.Audio.Wav.Header.Whole.{
  IsSkipped, all_bytes, wav_file, data_start, header_fuel, formatted, read_wav_header-wav_file,
}
use ni_media.Audio.Wav.Source.{read, wav_source, open_wav, view_data, whole_frames}

-- The frames of a new `wav_ifstream_info` have one byte.
one_byte_frames :
    (native_endian : EndianType) → bytes_per_frame (wav_info native_endian).info.stream ≡ 1
unfolding bytes_per_frame bytes_per_sample of_compiletime
one_byte_frames native_endian = refl

pub whole_frames-one : (r : Read) → whole_frames 1 r ≡ r
whole_frames-one (got bs) =
    let every : length bs - length bs % 1 ≡ length bs = omega arith in
    ap got (rw every (take_all (length bs) bs (omega arith)))
whole_frames-one eof = refl
whole_frames-one Read.fault = refl

module _ ⦃boost : Algorithms⦄ where
  -- While the header is read, the source reads what its window reads.
  new_source_read :
      (native_endian : EndianType) (bytes : List ℕ) (p n : ℕ)
      → IsFileSize bytes
      → p ≤ length bytes
      → read container_source (wav_info native_endian) n (container_file bytes p)
        ≡ (portion n bytes p, container_file bytes (p + min n (length bytes - p)))
  unfolding read
  new_source_read native_endian bytes p n size hp =
      rw
        (
          container_file-IsFile.read_at bytes p n size hp,
          one_byte_frames native_endian,
          whole_frames-one (portion n bytes p),
        )
        refl

  wav_source-IsFile :
      (native_endian : EndianType)
      → IsFile (wav_source container_source (wav_info native_endian)) container_file
  wav_source-IsFile native_endian = record {
    read_at = new_source_read native_endian;
    tell_at = container_file-IsFile.tell_at;
    seek_at = container_file-IsFile.seek_at;
    step_at = container_file-IsFile.step_at;
  }

-- The bytes of a file before its data.
abbrev pub header_bytes : ℕ → List Chunk → FmtChunk → List Chunk → ℕ → List ℕ
header_bytes riff_size first c second size = wav_file riff_size first c second size []

pub header_bytes-append :
    (riff_size : ℕ) (first second : List Chunk) (c : FmtChunk) (size : ℕ) (after : List ℕ)
    → wav_file riff_size first c second size after
      ≡ header_bytes riff_size first c second size ++ after
unfolding le_bytes
header_bytes-append riff_size first second c size after =
    let f = chunk fmt_ 16 (fmt_bytes c) in
    let d = chunk data_ size [] in
    let inner : f ++ (all_bytes second ++ chunk data_ size after)
        ≡ (f ++ (all_bytes second ++ d)) ++ after =
      ap (λ t. f ++ t) (sym (append_assoc (all_bytes second) d after)) in
    ap (λ t. chunk riff riff_size (le_bytes 4 wave ++ t))
      (ap (λ t. all_bytes first ++ t) inner
        ∙ sym (append_assoc (all_bytes first) (f ++ (all_bytes second ++ d)) after))

pub length-header_bytes :
    (riff_size : ℕ) (first second : List Chunk) (c : FmtChunk) (size : ℕ)
    → length (header_bytes riff_size first c second size) ≡ data_start first second
unfolding le_bytes
length-header_bytes riff_size first second c size =
    let f = chunk fmt_ 16 (fmt_bytes c) in
    let d = chunk data_ size [] in
    omega (
      arith,
      length-append (all_bytes first) (f ++ (all_bytes second ++ d)),
      length-append (all_bytes second) d,
    )

module _ ⦃boost : Algorithms⦄ ⦃range : FindIf RuntimeFormat⦄ (native_endian : EndianType) where
  -- Opening a WAV file in a container gives what its format chunk says and a window on exactly its
  -- data, whatever lies behind the data. The file has a 16-byte format chunk that the reader takes,
  -- and before and behind it any padded chunks that are not empty and are not of the kinds fmt,
  -- data, smpl or inst, which together with the header stay below 4 GiB; the data are the whole
  -- frames that the data chunk announces, at least one; and the loop is given one turn for each
  -- chunk, or more.
  pub open_wav-wav_file :
      (riff_size : ℕ) (first second : List Chunk) (c : FmtChunk) (size : ℕ) (samples rest : List ℕ)
      (p spare : ℕ) {format : RuntimeFormat}
      → p ≤ length (wav_file riff_size first c second size (samples ++ rest))
      → IsFileSize (wav_file riff_size first c second size (samples ++ rest))
      → All IsSkipped first
      → All IsSkipped second
      → length (all_bytes first) + length (all_bytes second) + 45 < 2 ^ 32
      → IsFmt c
      → determine_format native_endian c.format_tag c.bits_per_sample ≡ done format
      → size < 2 ^ 32
      → 0 < bytes_per_frame (formatted native_endian c format).info.stream
      → bytes_per_frame (formatted native_endian c format).info.stream ≤ size
      → length samples ≡ num_bytes (with_data size (formatted native_endian c format)).info
      → open_wav container_source native_endian
          (header_fuel first second spare)
          (container_file (wav_file riff_size first c second size (samples ++ rest)) p)
        ≡ (
          done (with_data size (formatted native_endian c format)),
          window
              (header_bytes riff_size first c second size)
              rest
              (record { bytes = samples; position = 0 }),
        )
  unfolding open_wav view_data set_view
  open_wav-wav_file riff_size first second c size samples rest p spare {format} hp fits h1 h2 small
        hc supported hsize some_bytes one_frame whole_frames_in =
      let file = wav_source-IsFile native_endian in
      let bytes = wav_file riff_size first c second size (samples ++ rest) in
      let header = header_bytes riff_size first c second size in
      let start = data_start first second in
      let e : bytes ≡ header ++ (samples ++ rest) =
        header_bytes-append riff_size first second c size (samples ++ rest) in
      let l : length header ≡ start = length-header_bytes riff_size first second c size in
      let inside : start ≤ length bytes =
        omega (arith, ap (λ (b : List ℕ). length b) e, length-append header (samples ++ rest)) in
      let i = with_data size (formatted native_endian c format) in
      let plus : length header + 0 ≡ length header = omega arith in
      let there : start ≡ length header + 0 = omega arith in
      let last : pos start +ℤ pos (length samples) ≡ pos (length header + length samples) =
        omega (int_laws, l) in
      rw
        (
          read_wav_header-wav_file native_endian file riff_size first second c size
              (samples ++ rest) p spare hp fits h1 h2 small hc supported hsize some_bytes one_frame,
          container_file-IsFile.tell_at bytes start fits inside,
          ← whole_frames_in,
          last,
          e,
          there,
        )
        (ap
          (λ (n : ℕ). (
            done i,
            record {
              device = record { bytes = header ++ (samples ++ rest); position = length header + 0 };
              first = pos n;
              last = pos (length header + length samples);
            },
          ))
          plus)
