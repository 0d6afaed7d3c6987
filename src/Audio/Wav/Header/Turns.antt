-- ===== src/Audio/Wav/Header/Turns.antt =====
-- One turn of the header's loop, for each kind of chunk that the writers of WAV files produce.
use native.Mathlib.Nat.{div-eq-sub-div}
use ni_media.Common.{
  ℕ, ◌+◌, ◌*◌, ◌/◌, ◌%◌, ◌^◌, ◌≤◌, ◌<◌, ◌≡◌, refl, ap, sym, ◌∙◌, arith, Bool, true, false, List, [],
  ◌++◌, append-nil, length, length-append, ltb, leb, ◌==◌, ◌||◌,
}
use ni_media.Common.Bytes.{le_bytes, le_value, le_value-le_bytes}
use ni_media.Boost.{Algorithms, FindIf}
use ni_media.Iostreams.Device.{Source}
use ni_media.Iostreams.File.{IsFile, IsFileSize}
use ni_media.Pcm.Format.{EndianType}
use ni_media.Pcm.Runtime.{RuntimeFormat}
use ni_media.Audio.Info.{bytes_per_frame, compute_bit_rate}
use ni_media.Audio.Wav.Chunks.{WavInfo, FmtChunk, fmt_chunk, field, fmt_, data_, smpl, inst}
use ni_media.Audio.Wav.Reader.{done}
use ni_media.Audio.Wav.Header.{
  found, more, read_chunk, read_body, seek_next, read_data, read_fmt, read_format, read_extension,
  determine_format,
}
use mathlib.Core.List.{flatten}
use ni_media.Audio.Wav.Header.Laws.{
  chunk, chunk-append, length-chunk, tag_bytes, behind_tag, behind_tag-length, fetch_one,
  tag_inside, read_chunk-body, seek_next-padded,
}

-- The chunks that the reader looks into.
abbrev pub is_known : ℕ → Bool
is_known id = id == fmt_ || (id == data_ || (id == smpl || id == inst))

-- A chunk of the file, padded to an even size.
pub record Chunk : Type 0 where
  pub id : ℕ
  pub size : ℕ
  pub body : List ℕ

pub record IsPadded (c : Chunk) : Type 0 where
  pub id_fits : c.id < 2 ^ 32
  pub not_empty : 0 < c.size
  pub padded : length c.body ≡ c.size + c.size % 2

abbrev pub chunk_bytes : Chunk → List ℕ
chunk_bytes c = chunk c.id c.size c.body

module _ ⦃boost : Algorithms⦄ ⦃range : FindIf RuntimeFormat⦄ (native_endian : EndianType)
    {S : Type 0} {src : Source S} {at : List ℕ → ℕ → S} (file : IsFile src at) where
  pub read_chunk-skip :
      (bytes before : List ℕ) (c : Chunk) (after : List ℕ) (k : ℕ) (i : WavInfo)
      → bytes ≡ before ++ (chunk_bytes c ++ after)
      → k ≡ length before
      → k % 2 ≡ 0
      → IsFileSize bytes
      → IsPadded c
      → is_known c.id ≡ false
      → k + 8 + c.size + 1 < 2 ^ 32
      → read_chunk native_endian src i (at bytes k)
        ≡ (done (more i), at bytes (k + length (chunk_bytes c)))
  unfolding read_body
  read_chunk-skip bytes before c after k i e ek even fits padded unknown small =
      let rest = c.body ++ after in
      let e1 : bytes ≡ before ++ chunk c.id c.size rest =
        e ∙ ap (λ t. before ++ t) (chunk-append c.id c.size c.body after) in
      let e2 = behind_tag bytes before c.id c.size rest e1 in
      let k8 = behind_tag-length before c.id c.size k ek in
      let inside = tag_inside file bytes before c.id c.size rest k e1 ek in
      let n1 : (c.id == fmt_) ≡ false = ground (arith, unknown) in
      let n2 : (c.id == data_) ≡ false = ground (arith, unknown) in
      let n3 : (c.id == smpl) ≡ false = ground (arith, unknown) in
      let n4 : (c.id == inst) ≡ false = ground (arith, unknown) in
      let last : k + 8 + length c.body ≡ k + length (chunk_bytes c) =
        omega (arith, length-chunk c.id c.size c.body) in
      read_chunk-body file native_endian bytes before c.id c.size rest k i e1 ek fits padded.id_fits
        padded.not_empty (omega arith) (omega arith)
      ∙ rw
          (
            n1,
            n2,
            n3,
            n4,
            seek_next-padded file native_endian bytes (before ++ tag_bytes c.id c.size)
                (record { id = c.id; size = c.size }) c.body after (k + 8) (k + 8) i e2 k8
                (omega arith) padded.padded small fits inside,
            last,
          )
          refl

-- A format chunk as it lies in a file.
abbrev pub fmt_bytes : FmtChunk → List ℕ
fmt_bytes c =
    le_bytes 2 c.format_tag
    ++ (le_bytes 2 c.num_channels
        ++ (le_bytes 4 c.sample_rate
            ++ (le_bytes 4 c.avg_bytes_per_sec
                ++ (le_bytes 2 c.block_align ++ le_bytes 2 c.bits_per_sample))))

-- A format chunk that the reader takes: the fields fit their types, and the format is supported.
pub record IsFmt (c : FmtChunk) : Type 0 where
  pub tag_fits : c.format_tag < 2 ^ 16
  pub some_channels : 1 ≤ c.num_channels
  pub few_channels : c.num_channels ≤ 255
  pub some_rate : 1 ≤ c.sample_rate
  pub rate_fits : c.sample_rate < 2 ^ 32
  pub avg_fits : c.avg_bytes_per_sec < 2 ^ 32
  pub some_align : 1 ≤ c.block_align
  pub align_fits : c.block_align < 2 ^ 16
  pub bits_fit : c.bits_per_sample < 2 ^ 16
  pub aligned : c.block_align * 8 ≡ c.bits_per_sample * c.num_channels

fmt_chunk-fmt_bytes : (c : FmtChunk) → IsFmt c → fmt_chunk (fmt_bytes c) ≡ c
unfolding le_bytes le_value
fmt_chunk-fmt_bytes c h =
    let f1 : field 0 2 (fmt_bytes c) ≡ c.format_tag = le_value-le_bytes 2 c.format_tag h.tag_fits in
    let f2 : field 2 2 (fmt_bytes c) ≡ c.num_channels =
      le_value-le_bytes 2 c.num_channels (omega (arith, h)) in
    let f3 : field 4 4 (fmt_bytes c) ≡ c.sample_rate =
      le_value-le_bytes 4 c.sample_rate h.rate_fits in
    let f4 : field 8 4 (fmt_bytes c) ≡ c.avg_bytes_per_sec =
      le_value-le_bytes 4 c.avg_bytes_per_sec h.avg_fits in
    let f5 : field 12 2 (fmt_bytes c) ≡ c.block_align =
      le_value-le_bytes 2 c.block_align h.align_fits in
    let f6 : field 14 2 (fmt_bytes c) ≡ c.bits_per_sample =
      le_value-le_bytes 2 c.bits_per_sample h.bits_fit in
    rw (f1, f2, f3, f4, f5, f6) refl

pub length-fmt_bytes : (c : FmtChunk) → length (fmt_bytes c) ≡ 16
unfolding le_bytes
length-fmt_bytes c = refl

-- What a format chunk sets.
abbrev pub with_format : FmtChunk → RuntimeFormat → WavInfo → WavInfo
with_format c format i = record i {
  info = record i.info {
    stream = record i.info.stream {
      format = format;
      num_channels = c.num_channels;
      sample_rate = c.sample_rate;
    };
  };
}

-- What a data chunk sets.
abbrev pub with_data : ℕ → WavInfo → WavInfo
with_data size i = record i {
  info = record i.info {
    num_frames = size / bytes_per_frame i.info.stream;
    stream = record i.info.stream { own_bit_rate = compute_bit_rate i.info.stream };
  };
}

at_least_one : (b size : ℕ) → 0 < b → b ≤ size → 0 < size / b
at_least_one b size p q = omega (arith, div-eq-sub-div p q)

read_data-lem :
    (size : ℕ) (i : WavInfo)
    → 0 < bytes_per_frame i.info.stream
    → bytes_per_frame i.info.stream ≤ size
    → read_data size i ≡ done (found (with_data size i))
unfolding read_data compute_bit_rate
read_data-lem size i some_bytes one_frame =
    let t1 : (bytes_per_frame i.info.stream == 0) ≡ false = ground arith in
    let frames : 0 < size / bytes_per_frame i.info.stream =
      at_least_one (bytes_per_frame i.info.stream) size some_bytes one_frame in
    let t2 : ltb (size / bytes_per_frame i.info.stream) 1 ≡ false = ground arith in rw (t1, t2) refl

module _ ⦃boost : Algorithms⦄ ⦃range : FindIf RuntimeFormat⦄ (native_endian : EndianType)
    {S : Type 0} {src : Source S} {at : List ℕ → ℕ → S} (file : IsFile src at) where
  read_format-lem :
      (c : FmtChunk) (i : WavInfo) (s : S) {format : RuntimeFormat}
      → IsFmt c
      → determine_format native_endian c.format_tag c.bits_per_sample ≡ done format
      → read_format native_endian src 16 c i s ≡ (done (more (with_format c format i)), s)
  unfolding read_format read_extension
  read_format-lem c i s h supported =
      let t1 : (c.block_align == 0) ≡ false = ground (arith, h.some_align) in
      let product : c.bits_per_sample * c.num_channels < 2 ^ 31 =
        omega (arith, h.aligned, h.align_fits) in
      let t2 : leb (2 ^ 31) (c.bits_per_sample * c.num_channels) ≡ false = ground arith in
      let t3 : (c.block_align * 8 == c.bits_per_sample * c.num_channels) ≡ true =
        ground (arith, h.aligned) in
      let t4 : ltb c.num_channels 1 ≡ false = ground (arith, h.some_channels) in
      let t5 : ltb 255 c.num_channels ≡ false = ground (arith, h.few_channels) in
      let t6 : ltb c.sample_rate 1 ≡ false = ground (arith, h.some_rate) in
      rw (t1, t2, t3, supported, t4, t5, t6) refl

  read_fmt-lem :
      (bytes before : List ℕ) (c : FmtChunk) (after : List ℕ) (k : ℕ) (i : WavInfo)
      {format : RuntimeFormat}
      → bytes ≡ before ++ (fmt_bytes c ++ after)
      → k ≡ length before
      → IsFileSize bytes
      → IsFmt c
      → determine_format native_endian c.format_tag c.bits_per_sample ≡ done format
      → read_fmt native_endian src 16 i (at bytes k)
        ≡ (done (more (with_format c format i)), at bytes (k + 16))
  unfolding read_fmt flatten
  read_fmt-lem bytes before c after k i {format} e ek fits h supported =
      let same : fmt_chunk (fmt_bytes c ++ []) ≡ c =
        ap fmt_chunk (append-nil (fmt_bytes c)) ∙ fmt_chunk-fmt_bytes c h in
      let got_it : read_fmt native_endian src 16 i (at bytes k)
          ≡ read_format native_endian src 16 (fmt_chunk (fmt_bytes c ++ [])) i (at bytes (k + 16)) =
        rw
          (fetch_one file bytes before (fmt_bytes c) after k 16 e ek (sym (length-fmt_bytes c))
            (omega arith) fits)
          refl in
      got_it
      ∙ ap (λ (c' : FmtChunk). read_format native_endian src 16 c' i (at bytes (k + 16))) same
      ∙ read_format-lem c i (at bytes (k + 16)) h supported

  pub read_chunk-fmt :
      (bytes before : List ℕ) (c : FmtChunk) (after : List ℕ) (k : ℕ) (i : WavInfo)
      {format : RuntimeFormat}
      → bytes ≡ before ++ (chunk fmt_ 16 (fmt_bytes c) ++ after)
      → k ≡ length before
      → k % 2 ≡ 0
      → IsFileSize bytes
      → k + 25 < 2 ^ 32
      → IsFmt c
      → determine_format native_endian c.format_tag c.bits_per_sample ≡ done format
      → read_chunk native_endian src i (at bytes k)
        ≡ (done (more (with_format c format i)), at bytes (k + 24))
  unfolding read_body
  read_chunk-fmt bytes before c after k i {format} e ek even fits small h supported =
      let rest = fmt_bytes c ++ after in
      let e1 : bytes ≡ before ++ chunk fmt_ 16 rest =
        e ∙ ap (λ t. before ++ t) (chunk-append fmt_ 16 (fmt_bytes c) after) in
      let e2 = behind_tag bytes before fmt_ 16 rest e1 in
      let k8 = behind_tag-length before fmt_ 16 k ek in
      let size : length (fmt_bytes c) ≡ 16 = length-fmt_bytes c in
      let inside : k + 24 ≤ length bytes = omega (
        arith,
        ap (λ (b : List ℕ). length b) e2,
        length-append (before ++ tag_bytes fmt_ 16) rest,
        length-append (fmt_bytes c) after,
      ) in
      let last : k + 8 + 16 ≡ k + 24 = omega arith in
      read_chunk-body file native_endian bytes before fmt_ 16 rest k i e1 ek fits (omega arith)
        (omega arith) (omega arith) (omega arith)
      ∙ rw
          (
            read_fmt-lem bytes (before ++ tag_bytes fmt_ 16) c after (k + 8) i e2 k8 fits h
                supported,
            last,
            seek_next-padded file native_endian bytes (before ++ tag_bytes fmt_ 16)
                (record { id = fmt_; size = 16 }) (fmt_bytes c) after (k + 8) (k + 24)
                (with_format c format i) e2 k8 (omega arith) (omega arith) (omega arith) fits
                inside,
            size,
            last,
          )
          refl

  pub read_chunk-data :
      (bytes before : List ℕ) (size : ℕ) (after : List ℕ) (k : ℕ) (i : WavInfo)
      → bytes ≡ before ++ chunk data_ size after
      → k ≡ length before
      → IsFileSize bytes
      → size < 2 ^ 32
      → k + 8 < 2 ^ 32
      → 0 < bytes_per_frame i.info.stream
      → bytes_per_frame i.info.stream ≤ size
      → read_chunk native_endian src i (at bytes k)
        ≡ (done (found (with_data size i)), at bytes (k + 8))
  unfolding read_body seek_next
  read_chunk-data bytes before size after k i e ek fits hsize small some_bytes one_frame =
      read_chunk-body file native_endian bytes before data_ size after k i e ek fits (omega arith)
        (omega arith) hsize small
      ∙ rw (read_data-lem size i some_bytes one_frame) refl
