-- ===== src/Audio/Aiff/Header/Common.antt =====
-- The common chunk of a file that the reader takes.
use ni_media.Common.{
  ℕ, ◌+◌, ◌^◌, ◌≤◌, ◌<◌, ◌≡◌, refl, ap, sym, ◌∙◌, arith, true, false, Option, none, some, List, [],
  ◌∷◌, ◌++◌, append_assoc, append-nil, length, length-append, take, drop, take-append, take_all,
  drop-append, ltb,
}
use ni_media.Boost.{Algorithms, FindIf, BigEndian, length-object, value-object}
use ni_media.Iostreams.Device.{Source}
use ni_media.Iostreams.File.{IsFile, IsFileSize}
use ni_media.Audio.Wav.Header.Laws.{fetch_one}
use ni_media.Pcm.Format.{NumberType, EndianType, signed_integer, big_endian}
use ni_media.Pcm.Runtime.{RuntimeFormat, of_bits, ok}
use ni_media.Audio.Ieee80.{Ieee80}
use ni_media.Audio.Reader.{done, or_throw}
use ni_media.Audio.Aiff.Chunks.{
  CommonChunk, AiffInfo, comm, aifc, common_chunk, field, big_endian_fourcc,
}
use ni_media.Audio.Aiff.Header.{
  Search, more, unsupported_compression, next_chunk, compression_format, read_sample_format,
  read_compression, read_common, read_comm, read_body, read_chunk,
}
use ni_media.Audio.Aiff.Header.Turns.{read_chunk-tag}
use mathlib.Core.List.{flatten}
use ni_media.Audio.Aiff.Layout.{
  Chunk, tag_bytes, length-tag_bytes, chunk_bytes, all_bytes, next_chunk-padded, Rest, after_tag,
  Rest-room, tag_room, length-chunk_bytes,
}

-- A plain file, or one with a kind of compression and no name for it.
pub data Form : Type 0 where
  plain : Form
  compressed : ℕ → Form

abbrev pub sub_type_of : Form → ℕ
sub_type_of plain = big_endian_fourcc b'A' b'I' b'F' b'F'
sub_type_of (compressed t) = aifc

abbrev pub sample_format_of : Form → ℕ → Option (NumberType × ℕ × EndianType)
sample_format_of plain width = some (signed_integer, width, big_endian)
sample_format_of (compressed t) width = compression_format t width

abbrev pub IsForm : Form → Type 0
IsForm plain = Unit
IsForm (compressed t) = t < 2 ^ 32

-- The whole part of the rate, 0 if no `size_t` holds it.
abbrev pub rate_of : ⦃ieee : Ieee80⦄ → CommonChunk → ℕ
rate_of ⦃ieee⦄ c = elim (ieee.to_size_t (ieee.to_double c.ext_sample_rate)) [
  | none ↦ 0
  | some rate ↦ rate
]

-- What the reader wants of the chunk's numbers.
pub record IsCommon ⦃ieee : Ieee80⦄ (c : CommonChunk) : Type 0 where
  pub some_channels : 0 < c.num_channels
  pub few_channels : c.num_channels ≤ 255
  pub some_frames : 0 < c.num_sample_frames
  pub frames_fit : c.num_sample_frames < 2 ^ 32
  pub width_fits : c.sample_size < 2 ^ 16
  pub rate_size : length c.ext_sample_rate ≡ 10
  pub positive : ieee.not_positive (ieee.to_double c.ext_sample_rate) ≡ false
  pub rate_fits : ieee.to_size_t (ieee.to_double c.ext_sample_rate) ≡ some (rate_of c)

-- What the reader keeps of the chunk.
abbrev pub described : ⦃ieee : Ieee80⦄ → CommonChunk → RuntimeFormat → AiffInfo → AiffInfo
described ⦃ieee⦄ c format i = record i {
  info = record i.info {
    num_frames = c.num_sample_frames;
    stream = record i.info.stream {
      format = format;
      num_channels = c.num_channels;
      sample_rate = rate_of c;
    };
  };
}

module _ ⦃big : BigEndian⦄ where
  abbrev pub common_bytes : CommonChunk → List ℕ
  common_bytes c =
      big.object 2 c.num_channels
      ++ (big.object 4 c.num_sample_frames ++ (big.object 2 c.sample_size ++ c.ext_sample_rate))

  abbrev pub extension : Form → List ℕ
  extension plain = []
  extension (compressed t) = big.object 4 t

  abbrev pub comm_chunk : Form → CommonChunk → Chunk
  comm_chunk f c = record {
    id = comm;
    size = 18 + length (extension f);
    body = common_bytes c ++ extension f;
  }

  pub field-object :
      (bs before : List ℕ) (n v : ℕ) (after : List ℕ) (p : ℕ)
      → bs ≡ before ++ (big.object n v ++ after)
      → p ≡ length before
      → v < 256 ^ n
      → field p n bs ≡ v
  field-object bs before n v after p e ep h =
      ap (λ t. big.value (take n (drop p t))) e
      ∙ ap (λ t. big.value (take n t)) (drop-append p before (big.object n v ++ after) ep)
      ∙ ap big.value (take-append n (big.object n v) after (sym (length-object n v)))
      ∙ value-object n v h

  pub length-common_bytes :
      (c : CommonChunk) → length c.ext_sample_rate ≡ 10 → length (common_bytes c) ≡ 18
  length-common_bytes c h = omega (
    arith,
    h,
    length-append (big.object 2 c.num_channels)
        (big.object 4 c.num_sample_frames ++ (big.object 2 c.sample_size ++ c.ext_sample_rate)),
    length-append (big.object 4 c.num_sample_frames)
        (big.object 2 c.sample_size ++ c.ext_sample_rate),
    length-append (big.object 2 c.sample_size) c.ext_sample_rate,
    length-object 2 c.num_channels,
    length-object 4 c.num_sample_frames,
    length-object 2 c.sample_size,
  )

  -- The chunk is decoded as it was encoded.
  pub common_chunk-common_bytes :
      ⦃ieee : Ieee80⦄ (c : CommonChunk) → IsCommon c → common_chunk (common_bytes c) ≡ c
  common_chunk-common_bytes c h =
      let a = big.object 2 c.num_channels in
      let b = big.object 4 c.num_sample_frames in
      let d = big.object 2 c.sample_size in
      let x = c.ext_sample_rate in
      let la = length-object 2 c.num_channels in
      let lb = length-object 4 c.num_sample_frames in
      let ld = length-object 2 c.sample_size in
      let bs = common_bytes c in
      let few = h.few_channels in
      let e2 : bs ≡ (a ++ b) ++ (d ++ x) = sym (append_assoc a b (d ++ x)) in
      let e3 : bs ≡ ((a ++ b) ++ d) ++ x = e2 ∙ sym (append_assoc (a ++ b) d x) in
      let f1 : field 0 2 bs ≡ c.num_channels =
        field-object bs [] 2 c.num_channels (b ++ (d ++ x)) 0 refl refl (omega arith) in
      let f2 : field 2 4 bs ≡ c.num_sample_frames =
        field-object bs a 4 c.num_sample_frames (d ++ x) 2 refl (sym la)
          (omega (arith, h.frames_fit)) in
      let f3 : field 6 2 bs ≡ c.sample_size =
        field-object bs (a ++ b) 2 c.sample_size x 6 e2 (omega (arith, length-append a b))
          (omega (arith, h.width_fits)) in
      let f4 : take 10 (drop 8 bs) ≡ x =
        ap (λ t. take 10 (drop 8 t)) e3
        ∙ ap (λ t. take 10 t)
            (drop-append 8 ((a ++ b) ++ d) x
              (omega (arith, length-append (a ++ b) d, length-append a b)))
        ∙ take_all 10 x (omega (arith, h.rate_size)) in
      rw (f1, f2, f3, f4) refl

module _ ⦃boost : Algorithms⦄ ⦃big : BigEndian⦄ {S : Type 0} {src : Source S} {at : List ℕ → ℕ → S}
    (file : IsFile src at) where
  read_sample_format-form :
      (bytes before : List ℕ) (f : Form) (after : List ℕ) (k width : ℕ)
      {format : NumberType × ℕ × EndianType}
      → bytes ≡ before ++ (extension f ++ after)
      → k ≡ length before
      → IsFileSize bytes
      → IsForm f
      → sample_format_of f width ≡ some format
      → read_sample_format src (sub_type_of f) (18 + length (extension f)) width (at bytes k)
        ≡ (done format, at bytes (k + length (extension f)))
  unfolding read_sample_format read_compression flatten
  read_sample_format-form bytes before plain after k width {format} e ek fits hf supported =
      let stay : k + 0 ≡ k = omega arith in
      rw stay (
        ap
          (λ (o : Option (NumberType × ℕ × EndianType)).
            (or_throw o unsupported_compression, at bytes k))
          supported)
  read_sample_format-form bytes before (compressed t) after k width e ek fits hf supported =
      let o = big.object 4 t in
      let l = length-object 4 t in
      let no_name : ltb 22 (18 + length o) ≡ false = ground (arith, l) in
      rw
        (
          no_name,
          fetch_one file bytes before o after k 4 e ek (sym l) (omega arith) fits,
          append-nil o,
          value-object 4 t hf,
          supported,
          l,
        )
        refl

  module _ ⦃range : FindIf RuntimeFormat⦄ ⦃ieee : Ieee80⦄ where
    read_common-form :
        (bytes before : List ℕ) (f : Form) (c : CommonChunk) (after : List ℕ) (k : ℕ) (i : AiffInfo)
        {sample : NumberType × ℕ × EndianType} {format : RuntimeFormat}
        → bytes ≡ before ++ (extension f ++ after)
        → k ≡ length before
        → IsFileSize bytes
        → IsForm f
        → IsCommon c
        → sample_format_of f c.sample_size ≡ some sample
        → of_bits sample.0 sample.1 sample.2 ≡ ok format
        → read_common src (sub_type_of f) (18 + length (extension f)) c i (at bytes k) ≡ (
          done (record { info = described c format i; comm_found = true }),
          at bytes (k + length (extension f)),
        )
    unfolding read_common
    read_common-form bytes before f c after k i e ek fits hf hc supported valid =
        let frames : ltb c.num_sample_frames 1 ≡ false = ground (arith, hc.some_frames) in
        let c1 : ltb c.num_channels 1 ≡ false = ground (arith, hc.some_channels) in
        let c2 : ltb 255 c.num_channels ≡ false = ground (arith, hc.few_channels) in
        rw
          (
            read_sample_format-form bytes before f after k c.sample_size e ek fits hf supported,
            valid,
            frames,
            c1,
            c2,
            hc.positive,
            hc.rate_fits,
          )
          refl

    read_comm-form :
        (bytes before : List ℕ) (f : Form) (c : CommonChunk) (after : List ℕ) (k : ℕ) (st : Search)
        {sample : NumberType × ℕ × EndianType} {format : RuntimeFormat}
        → bytes ≡ before ++ ((common_bytes c ++ extension f) ++ after)
        → k ≡ length before
        → IsFileSize bytes
        → IsForm f
        → IsCommon c
        → sample_format_of f c.sample_size ≡ some sample
        → of_bits sample.0 sample.1 sample.2 ≡ ok format
        → read_comm src (sub_type_of f) (18 + length (extension f)) st (at bytes k) ≡ (
          done (record { info = described c format st.info; comm_found = true }),
          at bytes (k + (18 + length (extension f))),
        )
    unfolding read_comm flatten
    read_comm-form bytes before f c after k st e ek fits hf hc supported valid =
        let o = common_bytes c in
        let size = 18 + length (extension f) in
        let l = length-common_bytes c hc.rate_size in
        let e1 : bytes ≡ before ++ (o ++ (extension f ++ after)) =
          e ∙ ap (λ t. before ++ t) (append_assoc o (extension f) after) in
        let e2 : bytes ≡ (before ++ o) ++ (extension f ++ after) =
          e1 ∙ sym (append_assoc before o (extension f ++ after)) in
        let k2 : k + 18 ≡ length (before ++ o) = omega (arith, length-append before o) in
        let long : ltb (18 + length (extension f)) 18 ≡ false = ground arith in
        let sum : k + 18 + length (extension f) ≡ k + (18 + length (extension f)) = omega arith in
        rw
          (
            long,
            fetch_one file bytes before o (extension f ++ after) k 18 e1 ek (sym l) (omega arith)
                fits,
            append-nil o,
          )
          (ap (λ d. read_common src (sub_type_of f) size d st.info (at bytes (k + 18)))
              (common_chunk-common_bytes c hc)
            ∙ rw sum at (
                read_common-form bytes (before ++ o) f c after (k + 18) st.info e2 k2 fits hf hc
                  supported valid))

    -- The turn of the first loop at the common chunk.
    pub read_chunk_comm :
        {bytes before : List ℕ} (f : Form) (c : CommonChunk) {cs : List Chunk} (k : ℕ) (st : Search)
        {sample : NumberType × ℕ × EndianType} {format : RuntimeFormat}
        → Rest bytes before (comm_chunk f c ∷ cs) k
        → length bytes < 2 ^ 32
        → IsForm f
        → IsCommon c
        → sample_format_of f c.sample_size ≡ some sample
        → of_bits sample.0 sample.1 sample.2 ≡ ok format
        → read_chunk src (sub_type_of f) st (at bytes k) ≡ (
          done (more (record { info = described c format st.info; comm_found = true })),
          at bytes (k + length (chunk_bytes (comm_chunk f c))),
        )
    unfolding read_body
    read_chunk_comm {bytes} {before} f c {cs} k st r small hf hc supported valid =
        let it = comm_chunk f c in
        let t = tag_bytes it.id it.size in
        let room = tag_room r in
        let whole = Rest-room r in
        let l = length-chunk_bytes it in
        let lb = (r.padded.0).padded in
        let e1 : bytes ≡ (before ++ t) ++ (it.body ++ all_bytes cs) =
          after_tag r ∙ sym (append_assoc before t (it.body ++ all_bytes cs)) in
        let k1 : k + 8 ≡ length (before ++ t) =
          omega (arith, r.start, length-append before t, length-tag_bytes it.id it.size) in
        let target : next_chunk (k + 8) it.size ≡ k + length (chunk_bytes it) =
          next_chunk-padded it k (r.padded.0) (omega arith) in
        read_chunk-tag file bytes before it.id it.size (it.body ++ all_bytes cs) k (sub_type_of f)
          st (after_tag r) r.start (omega arith) (omega arith) (r.padded.0).size_fits (omega arith)
        ∙ rw
            (
              read_comm-form bytes (before ++ t) f c (all_bytes cs) (k + 8) st e1 k1 (omega arith)
                  hf hc supported valid,
              target,
              file.seek_at bytes (k + 8 + it.size) (k + length (chunk_bytes it)) (omega arith)
                  (omega arith) (omega arith),
            )
            refl
