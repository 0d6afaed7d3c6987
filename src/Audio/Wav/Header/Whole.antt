-- ===== src/Audio/Wav/Header/Whole.antt =====
-- The header of a whole file, and a file whose header the loop never leaves.
use ni_media.Common.{
  ℕ, suc, ◌+◌, ◌%◌, ◌^◌, ◌≤◌, ◌<◌, ◌≡◌, refl, ap, sym, ◌∙◌, arith, false, List, [], ◌∷◌, ◌++◌,
  append_assoc, length, length-append,
}
use ni_media.Common.Bytes.{All, le_bytes, le_value, le_value-le_bytes, length-le_bytes}
use ni_media.Boost.{Algorithms, FindIf}
use ni_media.Iostreams.Device.{Source}
use ni_media.Iostreams.File.{IsFile, IsFileSize}
use ni_media.Pcm.Format.{EndianType}
use ni_media.Pcm.Runtime.{RuntimeFormat}
use ni_media.Audio.Info.{bytes_per_frame}
use ni_media.Audio.Wav.Chunks.{WavInfo, FmtChunk, riff, wave, fmt_, data_}
use ni_media.Audio.Wav.Reader.{done}
use ni_media.Audio.Wav.Header.{wav_info, determine_format, read_chunks, read_wav_header}
use ni_media.Audio.Wav.Header.Laws.{
  chunk, length-chunk, tag_bytes, length-tag_bytes, behind_tag, fetch_one, fetch_tag,
}
use ni_media.Audio.Wav.Header.Turns.{
  Chunk, IsPadded, chunk_bytes, is_known, fmt_bytes, length-fmt_bytes, IsFmt, with_format,
  with_data, read_chunk-skip, read_chunk-fmt, read_chunk-data,
}

-- A chunk that the reader passes over.
pub record IsSkipped (c : Chunk) : Type 0 where
  pub is_padded : IsPadded c
  pub unknown : is_known c.id ≡ false

abbrev pub all_bytes : List Chunk → List ℕ
all_bytes [] = []
all_bytes (c ∷ cs) = chunk_bytes c ++ all_bytes cs

all_bytes-even : (cs : List Chunk) → All IsSkipped cs → length (all_bytes cs) % 2 ≡ 0
all_bytes-even [] h = refl
all_bytes-even (c ∷ cs) h = omega (
  arith,
  length-append (chunk_bytes c) (all_bytes cs),
  length-chunk c.id c.size c.body,
  h.0.is_padded.padded,
  all_bytes-even cs h.1,
)

module _ ⦃boost : Algorithms⦄ ⦃range : FindIf RuntimeFormat⦄ (native_endian : EndianType)
    {S : Type 0} {src : Source S} {at : List ℕ → ℕ → S} (file : IsFile src at) where
  -- The chunks that the reader passes over cost one unit of fuel each.
  read_chunks-skip :
      (bytes before : List ℕ) (cs : List Chunk) (after : List ℕ) (k fuel : ℕ) (i : WavInfo)
      → bytes ≡ before ++ (all_bytes cs ++ after)
      → k ≡ length before
      → k % 2 ≡ 0
      → IsFileSize bytes
      → All IsSkipped cs
      → k + length (all_bytes cs) + 1 < 2 ^ 32
      → read_chunks native_endian src (length cs + fuel) i (at bytes k)
        ≡ read_chunks native_endian src fuel i (at bytes (k + length (all_bytes cs)))
  unfolding read_chunks
  read_chunks-skip bytes before [] after k fuel i e ek even fits h small =
      let stay : k + 0 ≡ k = omega arith in
      let none_spent : 0 + fuel ≡ fuel = omega arith in rw (stay, none_spent) refl
  read_chunks-skip bytes before (c ∷ cs) after k fuel i e ek even fits h small =
      let e1 : bytes ≡ before ++ (chunk_bytes c ++ (all_bytes cs ++ after)) =
        e ∙ ap (λ t. before ++ t) (append_assoc (chunk_bytes c) (all_bytes cs) after) in
      let e2 : bytes ≡ (before ++ chunk_bytes c) ++ (all_bytes cs ++ after) =
        e1 ∙ sym (append_assoc before (chunk_bytes c) (all_bytes cs ++ after)) in
      let k2 : k + length (chunk_bytes c) ≡ length (before ++ chunk_bytes c) =
        omega (arith, length-append before (chunk_bytes c)) in
      let sum : length (all_bytes (c ∷ cs)) ≡ length (chunk_bytes c) + length (all_bytes cs) =
        length-append (chunk_bytes c) (all_bytes cs) in
      let one : length (chunk_bytes c) ≡ 8 + (c.size + c.size % 2) =
        length-chunk c.id c.size c.body ∙ ap (λ (n : ℕ). 8 + n) h.0.is_padded.padded in
      let last : k + length (chunk_bytes c) + length (all_bytes cs)
          ≡ k + length (all_bytes (c ∷ cs)) =
        omega arith in
      let spent : suc (length cs) + fuel ≡ suc (length cs + fuel) = omega arith in
      rw
        (
          spent,
          read_chunk-skip native_endian file bytes before c (all_bytes cs ++ after) k i e1 ek even
              fits h.0.is_padded h.0.unknown (omega arith),
        )
        (read_chunks-skip bytes (before ++ chunk_bytes c) cs after (k + length (chunk_bytes c)) fuel
            i e2 k2 (omega arith) fits h.1 (omega arith)
          ∙ rw last refl)

  -- The body of a file behind "WAVE", from the position `k`.
  read_chunks-file :
      (bytes before : List ℕ) (first second : List Chunk) (c : FmtChunk) (size : ℕ) (after : List ℕ)
      (k fuel : ℕ) (i : WavInfo) {format : RuntimeFormat}
      → bytes
        ≡ before
          ++ (all_bytes first
              ++ (chunk fmt_ 16 (fmt_bytes c) ++ (all_bytes second ++ chunk data_ size after)))
      → k ≡ length before
      → k % 2 ≡ 0
      → IsFileSize bytes
      → All IsSkipped first
      → All IsSkipped second
      → k + length (all_bytes first) + length (all_bytes second) + 33 < 2 ^ 32
      → IsFmt c
      → determine_format native_endian c.format_tag c.bits_per_sample ≡ done format
      → size < 2 ^ 32
      → 0 < bytes_per_frame (with_format c format i).info.stream
      → bytes_per_frame (with_format c format i).info.stream ≤ size
      → read_chunks native_endian src (length first + suc (length second + suc fuel)) i (at bytes k)
        ≡ (
          done (with_data size (with_format c format i)),
          at bytes (k + length (all_bytes first) + 24 + length (all_bytes second) + 8),
        )
  unfolding read_chunks
  read_chunks-file bytes before first second c size after k fuel i {format} e ek even fits h1 h2
        small hc supported hsize some_bytes one_frame =
      let tail = all_bytes second ++ chunk data_ size after in
      let f = chunk fmt_ 16 (fmt_bytes c) in
      let before1 = before ++ all_bytes first in
      let before2 = before1 ++ f in
      let before3 = before2 ++ all_bytes second in
      let k1 = k + length (all_bytes first) in
      let k3 = k1 + 24 + length (all_bytes second) in
      let e1 : bytes ≡ before1 ++ (f ++ tail) =
        e ∙ sym (append_assoc before (all_bytes first) (f ++ tail)) in
      let e2 : bytes ≡ before2 ++ tail = e1 ∙ sym (append_assoc before1 f tail) in
      let e3 : bytes ≡ before3 ++ chunk data_ size after =
        e2 ∙ sym (append_assoc before2 (all_bytes second) (chunk data_ size after)) in
      let l1 : k1 ≡ length before1 = omega (arith, length-append before (all_bytes first)) in
      let lf : length f ≡ 24 =
        length-chunk fmt_ 16 (fmt_bytes c) ∙ ap (λ (n : ℕ). 8 + n) (length-fmt_bytes c) in
      let l2 : k1 + 24 ≡ length before2 = omega (arith, length-append before1 f) in
      let l3 : k3 ≡ length before3 = omega (arith, length-append before2 (all_bytes second)) in
      let even1 : k1 % 2 ≡ 0 = omega (arith, all_bytes-even first h1) in
      read_chunks-skip bytes before first (f ++ tail) k (suc (length second + suc fuel)) i e ek even
        fits h1 (omega arith)
      ∙ rw
          (read_chunk-fmt native_endian file bytes before1 c tail k1 i e1 l1 even1 fits
            (omega arith) hc supported)
          (read_chunks-skip bytes before2 second (chunk data_ size after) (k1 + 24) (suc fuel)
              (with_format c format i) e2 l2 (omega arith) fits h2 (omega arith)
            ∙ rw
                (read_chunk-data native_endian file bytes before3 size after k3
                  (with_format c format i) e3 l3 fits hsize (omega arith) some_bytes one_frame)
                refl)

-- A WAV file: the format chunk and the data chunk, with chunks of other kinds before and between, and
-- the data and whatever else at the end.
abbrev pub wav_file : ℕ → List Chunk → FmtChunk → List Chunk → ℕ → List ℕ → List ℕ
wav_file riff_size first c second size after = chunk riff riff_size (
    le_bytes 4 wave
    ++ (all_bytes first
        ++ (chunk fmt_ 16 (fmt_bytes c) ++ (all_bytes second ++ chunk data_ size after))))

-- Where the data starts.
abbrev pub data_start : List Chunk → List Chunk → ℕ
data_start first second = 12 + length (all_bytes first) + 24 + length (all_bytes second) + 8

-- One turn of the loop for each chunk, and any more.
abbrev pub header_fuel : List Chunk → List Chunk → ℕ → ℕ
header_fuel first second spare = length first + suc (length second + suc spare)

-- What the reader finds out about such a file before the data.
abbrev pub formatted : EndianType → FmtChunk → RuntimeFormat → WavInfo
formatted native_endian c format = with_format c format (wav_info native_endian)

module _ ⦃boost : Algorithms⦄ ⦃range : FindIf RuntimeFormat⦄ (native_endian : EndianType)
    {S : Type 0} {src : Source S} {at : List ℕ → ℕ → S} (file : IsFile src at) where
  -- On any source that behaves as a file, reading the header of a WAV file from any position gives
  -- what the format chunk and the data chunk say and stops where the data starts. The file has a
  -- 16-byte format chunk that the reader takes, padded chunks before and behind it that are not
  -- empty, are not of the kinds fmt, data, smpl or inst, and stay below 4 GiB, and a data chunk of
  -- at least one frame, whose data may be cut off; and the loop is given one turn for each chunk,
  -- or more.
  pub read_wav_header-wav_file :
      (riff_size : ℕ) (first second : List Chunk) (c : FmtChunk) (size : ℕ) (after : List ℕ)
      (p spare : ℕ) {format : RuntimeFormat}
      → p ≤ length (wav_file riff_size first c second size after)
      → IsFileSize (wav_file riff_size first c second size after)
      → All IsSkipped first
      → All IsSkipped second
      → length (all_bytes first) + length (all_bytes second) + 45 < 2 ^ 32
      → IsFmt c
      → determine_format native_endian c.format_tag c.bits_per_sample ≡ done format
      → size < 2 ^ 32
      → 0 < bytes_per_frame (formatted native_endian c format).info.stream
      → bytes_per_frame (formatted native_endian c format).info.stream ≤ size
      → read_wav_header native_endian src
          (header_fuel first second spare)
          (at (wav_file riff_size first c second size after) p)
        ≡ (
          done (with_data size (formatted native_endian c format)),
          at (wav_file riff_size first c second size after) (data_start first second),
        )
  unfolding read_wav_header
  read_wav_header-wav_file riff_size first second c size after p spare {format} hp fits h1 h2 small
        hc supported hsize some_bytes one_frame =
      let bytes = wav_file riff_size first c second size after in
      let chunks =
        all_bytes first
        ++ (chunk fmt_ 16 (fmt_bytes c) ++ (all_bytes second ++ chunk data_ size after)) in
      let tag = tag_bytes riff riff_size in
      let lt = length-tag_bytes riff riff_size in
      let e2 = behind_tag bytes [] riff riff_size (le_bytes 4 wave ++ chunks) refl in
      let e3 : bytes ≡ (tag ++ le_bytes 4 wave) ++ chunks =
        e2 ∙ sym (append_assoc tag (le_bytes 4 wave) chunks) in
      let l3 : 12 ≡ length (tag ++ le_bytes 4 wave) =
        omega (arith, length-append tag (le_bytes 4 wave), length-le_bytes 4 wave) in
      let riff_back : le_value (le_bytes 4 riff) ≡ riff = le_value-le_bytes 4 riff (omega arith) in
      let wave_back : le_value (le_bytes 4 wave) ≡ wave = le_value-le_bytes 4 wave (omega arith) in
      let wave_size = length-le_bytes 4 wave in
      rw
        (
          file.seek_at bytes p 0 fits hp (omega arith),
          fetch_tag file bytes [] riff riff_size (le_bytes 4 wave ++ chunks) 0 refl refl fits,
          riff_back,
          fetch_one file bytes tag (le_bytes 4 wave) chunks 8 4 e2 (sym lt) (sym wave_size)
              (omega arith) fits,
          wave_back,
        )
        (read_chunks-file native_endian file bytes (tag ++ le_bytes 4 wave) first second c size
          after 12 spare (wav_info native_endian) e3 l3 refl fits h1 h2 (omega arith) hc supported
          hsize some_bytes one_frame)
