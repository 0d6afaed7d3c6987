-- ===== src/Audio/Aiff/Header/Whole.antt =====
-- The header of a whole file: the common chunk and the sound data, with chunks that are passed over around them.
use ni_media.Common.{
  ℕ, suc, ◌+◌, ◌-◌, ◌^◌, ◌≤◌, ◌<◌, ◌≡◌, refl, ap, sym, ◌∙◌, arith, true, false, some, List, [], ◌∷◌,
  ◌++◌, append_assoc, append-nil, length, length-append,
}
use ni_media.Common.Bytes.{All}
use ni_media.Boost.{Algorithms, FindIf, BigEndian, value-object}
use ni_media.Iostreams.Device.{Source}
use ni_media.Iostreams.File.{IsFile}
use ni_media.Audio.Wav.Header.Laws.{fetch_one}
use ni_media.Pcm.Format.{NumberType, EndianType}
use ni_media.Pcm.Runtime.{RuntimeFormat, of_bits, ok}
use ni_media.Audio.Ieee80.{Ieee80}
use ni_media.Audio.Reader.{done}
use ni_media.Audio.Aiff.Chunks.{CommonChunk, AiffInfo, ssnd, form, sound_data_offset}
use ni_media.Audio.Aiff.Header.{
  Search, read_chunks, read_ssnd, find_chunk, found_or_next, find_ssnd, read_aiff_header, aiff_info,
  with_bit_rate,
}
use ni_media.Audio.Aiff.Header.Turns.{find_chunk-tag, read_chunk-end}
use ni_media.Audio.Aiff.Header.Passed.{IsUnread, IsNotSsnd, find_ssnd-pass, read_chunks-pass}
use ni_media.Audio.Aiff.Header.Common.{
  Form, plain, compressed, sub_type_of, sample_format_of, IsForm, IsCommon, described, comm_chunk,
  field-object, read_chunk_comm,
}
use ni_media.Audio.Aiff.Layout.{
  Chunk, IsPadded, tag_bytes, length-tag_bytes, chunk_bytes, all_bytes, form_bytes,
  length-form_bytes, fetch_form, Rest, Rest-size, Rest-next, Rest-behind, Rest-room, after_tag,
  length-chunk_bytes,
}
use mathlib.Core.List.{flatten}

IsUnread-append : (xs ys : List Chunk) → All IsUnread xs → All IsUnread ys → All IsUnread (xs ++ ys)
IsUnread-append [] ys h h' = h'
IsUnread-append (x ∷ xs) ys h h' = (h.0, IsUnread-append xs ys h.1 h')

sub_type-fits : (f : Form) → sub_type_of f < 2 ^ 32
sub_type-fits plain = omega arith
sub_type-fits (compressed t) = omega arith

module _ ⦃big : BigEndian⦄ where
  -- The offset, the block size and the samples.
  abbrev pub sound_chunk : ℕ → ℕ → ℕ → List ℕ → Chunk
  sound_chunk size offset block content = record {
    id = ssnd;
    size = size;
    body = (big.object 4 offset ++ big.object 4 block) ++ content;
  }

  abbrev pub file_chunks :
      List Chunk → Form → CommonChunk → List Chunk → Chunk → List Chunk → List Chunk
  file_chunks first f c second sound third = first ++ (comm_chunk f c ∷ (second ++ (sound ∷ third)))

  abbrev pub aiff_file : ℕ → Form → List Chunk → List ℕ
  aiff_file size f cs = form_bytes form size (sub_type_of f) ++ all_bytes cs

  -- Where the content of the sound data starts.
  abbrev pub content_start : List Chunk → Form → CommonChunk → List Chunk → ℕ
  content_start first f c second =
      12 + length (all_bytes first) + length (all_bytes (comm_chunk f c ∷ second)) + 16

module _ ⦃boost : Algorithms⦄ ⦃big : BigEndian⦄ {S : Type 0} {src : Source S} {at : List ℕ → ℕ → S}
    (file : IsFile src at) where
  read_ssnd_sound :
      (bytes before : List ℕ) (offset block : ℕ) (content after : List ℕ) (k : ℕ) (i : AiffInfo)
      → bytes ≡ before ++ (((big.object 4 offset ++ big.object 4 block) ++ content) ++ after)
      → k ≡ length before
      → length bytes < 2 ^ 32
      → offset < 2 ^ 32
      → k + 8 + offset ≤ length bytes
      → read_ssnd src i (at bytes k) ≡ (done (with_bit_rate i), at bytes (k + 8 + offset))
  unfolding read_ssnd flatten
  read_ssnd_sound bytes before offset block content after k i e ek small low there =
      let o = big.object 4 offset ++ big.object 4 block in
      let l : length o ≡ 8 = length-tag_bytes offset block in
      let e1 : bytes ≡ before ++ (o ++ (content ++ after)) =
        e ∙ ap (λ t. before ++ t) (append_assoc o content after) in
      let inside : k + 8 ≤ length bytes = omega (
        arith,
        ap (λ (b : List ℕ). length b) e1,
        length-append before (o ++ (content ++ after)),
        length-append o (content ++ after),
      ) in
      let decoded : sound_data_offset o ≡ offset =
        field-object o [] 4 offset (big.object 4 block) 0 refl refl low in
      rw
        (
          fetch_one file bytes before o (content ++ after) k 8 e1 ek (sym l) (omega arith)
              (omega arith),
          append-nil o,
          decoded,
          file.step_at bytes (k + 8) offset (omega arith) there,
        )
        refl

  -- The turn of the second loop at the sound data.
  find_chunk_sound :
      {bytes before : List ℕ} {cs : List Chunk} (size offset block : ℕ) (content : List ℕ) (k : ℕ)
      (i : AiffInfo)
      → Rest bytes before (sound_chunk size offset block content ∷ cs) k
      → length bytes < 2 ^ 32
      → offset < 2 ^ 32
      → k + 16 + offset ≤ length bytes
      → find_chunk src i (at bytes k) ≡ (done (some (with_bit_rate i)), at bytes (k + 16 + offset))
  unfolding found_or_next
  find_chunk_sound {bytes} {before} {cs} size offset block content k i r small low there =
      let it = sound_chunk size offset block content in
      let t = tag_bytes ssnd size in
      let room = Rest-room r in
      let l = length-chunk_bytes it in
      let e1 : bytes ≡ (before ++ t) ++ (it.body ++ all_bytes cs) =
        after_tag r ∙ sym (append_assoc before t (it.body ++ all_bytes cs)) in
      let k1 : k + 8 ≡ length (before ++ t) =
        omega (arith, r.start, length-append before t, length-tag_bytes ssnd size) in
      let sum : k + 8 + 8 + offset ≡ k + 16 + offset = omega arith in
      find_chunk-tag file bytes before ssnd size (it.body ++ all_bytes cs) k i (after_tag r) r.start
        (omega arith) (omega arith) (r.padded.0).size_fits (omega arith)
      ∙ rw
          (
            read_ssnd_sound bytes (before ++ t) offset block content (all_bytes cs) (k + 8) i e1 k1
                small low (omega arith),
            sum,
          )
          refl

  -- The second loop finds the sound data behind the chunks that it passes over.
  find_ssnd_sound :
      {bytes : List ℕ} (xs : List Chunk) (before : List ℕ) (cs : List Chunk) (size offset block : ℕ)
      (content : List ℕ) (k fuel : ℕ) (i : AiffInfo)
      → Rest bytes before (xs ++ (sound_chunk size offset block content ∷ cs)) k
      → length bytes < 2 ^ 32
      → offset < 2 ^ 32
      → k + length (all_bytes xs) + 16 + offset ≤ length bytes
      → All IsNotSsnd xs
      → length xs < fuel
      → find_ssnd src fuel i (at bytes k)
        ≡ (done (with_bit_rate i), at bytes (k + length (all_bytes xs) + 16 + offset))
  unfolding find_ssnd
  find_ssnd_sound {bytes} xs before cs size offset block content k fuel i r small low there others
        enough =
      let it = sound_chunk size offset block content in
      let left : fuel - length xs ≡ suc (fuel - length xs - 1) = omega arith in
      find_ssnd-pass file small xs before (it ∷ cs) k fuel i r others (omega arith)
      ∙ rw
          (
            left,
            find_chunk_sound size offset block content (k + length (all_bytes xs)) i
                (Rest-behind xs before r) small low there,
          )
          refl

  module _ ⦃range : FindIf RuntimeFormat⦄ ⦃ieee : Ieee80⦄ where
    -- The first loop takes the common chunk and passes over all others.
    read_chunks-common :
        {bytes : List ℕ} (first : List Chunk) (before : List ℕ) (f : Form) (c : CommonChunk)
        (others : List Chunk) (k fuel : ℕ) (st : Search) {sample : NumberType × ℕ × EndianType}
        {format : RuntimeFormat}
        → Rest bytes before (first ++ (comm_chunk f c ∷ others)) k
        → length bytes < 2 ^ 32
        → All IsUnread first
        → All IsUnread others
        → IsForm f
        → IsCommon c
        → sample_format_of f c.sample_size ≡ some sample
        → of_bits sample.0 sample.1 sample.2 ≡ ok format
        → length first + (1 + length others) < fuel
        → read_chunks src (sub_type_of f) fuel st (at bytes k) ≡ (
          done (record { info = described c format st.info; comm_found = true }),
          at bytes (length bytes),
        )
    unfolding read_chunks
    read_chunks-common {bytes} first before f c others k fuel st {sample} {format} r small h1 h2 hf
          hc supported valid enough =
        let it = comm_chunk f c in
        let r1 = Rest-behind first before r in
        let k1 = k + length (all_bytes first) in
        let k2 = k1 + length (chunk_bytes it) in
        let r2 = Rest-next r1 in
        let before2 = (before ++ all_bytes first) ++ chunk_bytes it in
        let r2' : Rest bytes before2 (others ++ []) k2 = rw (append-nil others) r2 in
        let found : Search = record { info = described c format st.info; comm_found = true } in
        let fuel1 = fuel - length first - 1 in
        let left1 : fuel - length first ≡ suc fuel1 = omega arith in
        let left2 : fuel1 - length others ≡ suc (fuel1 - length others - 1) = omega arith in
        let last : k2 + length (all_bytes others) ≡ length bytes = sym (Rest-size r2) in
        rw
          (
            read_chunks-pass file small (sub_type_of f) first before (it ∷ others) k fuel st r h1
                (omega arith),
            left1,
            read_chunk_comm file f c k1 st r1 small hf hc supported valid,
          )
          (read_chunks-pass file small (sub_type_of f) others before2 [] k2 fuel1 found r2' h2
              (omega arith)
            ∙ rw (last, left2, read_chunk-end file bytes (sub_type_of f) found (omega arith)) refl)

    -- On any source that behaves as a file, and from any position in it, reading the header of an
    -- AIFF file gives what the common chunk says, with the bit rate of that format, and stops at
    -- the offset in the sound data, which lies in the file or at its end. The file is plain, or
    -- AIFF-C with a kind of compression and no name for it; its chunks are padded, all below 4 GiB;
    -- those around the common chunk and the sound data are of kinds that the reader passes over,
    -- with no other sound data before it, and the sound data come behind the common chunk; the
    -- common chunk has 1 to 255 channels, a frame or more, a positive rate whose whole part a
    -- size_t holds, and a format that the reader takes; each loop is given more turns than there
    -- are chunks.
    pub read_aiff_header-aiff_file :
        (native_endian : EndianType) (form_size : ℕ) (f : Form) (c : CommonChunk)
        (first second third : List Chunk) (size offset block : ℕ) (content : List ℕ) (p fuel : ℕ)
        {sample : NumberType × ℕ × EndianType} {format : RuntimeFormat}
        → let cs = file_chunks first f c second (sound_chunk size offset block content) third in
          p ≤ length (aiff_file form_size f cs)
          → length (aiff_file form_size f cs) < 2 ^ 32
          → All IsPadded cs
          → All IsUnread first
          → All IsUnread second
          → All IsUnread third
          → All IsNotSsnd first
          → All IsNotSsnd second
          → IsForm f
          → IsCommon c
          → sample_format_of f c.sample_size ≡ some sample
          → of_bits sample.0 sample.1 sample.2 ≡ ok format
          → offset < 2 ^ 32
          → content_start first f c second + offset ≤ length (aiff_file form_size f cs)
          → length cs < fuel
          → read_aiff_header src native_endian fuel (at (aiff_file form_size f cs) p) ≡ (
            done (with_bit_rate (described c format (aiff_info native_endian))),
            at (aiff_file form_size f cs) (content_start first f c second + offset),
          )
    unfolding read_aiff_header
    read_aiff_header-aiff_file native_endian form_size f c first second third size offset block
          content p fuel {sample} {format} hp small padded u1 u2 u3 n1 n2 hf hc supported valid low
          there enough =
        let sound = sound_chunk size offset block content in
        let it = comm_chunk f c in
        let others = second ++ (sound ∷ third) in
        let cs = first ++ (it ∷ others) in
        let bytes = aiff_file form_size f cs in
        let header = form_bytes form form_size (sub_type_of f) in
        let l = length-form_bytes form form_size (sub_type_of f) in
        let r : Rest bytes header cs 12 = record { split = refl; start = sym l; padded = padded } in
        let r1 = Rest-behind first header r in
        let inside : 12 ≤ length bytes = omega (arith, Rest-size r) in
        let l1 = length-append first (it ∷ others) in
        let l2 = length-append second (sound ∷ third) in
        let st : Search = record { info = aiff_info native_endian; comm_found = false } in
        let i = described c format (aiff_info native_endian) in
        let left : fuel - length first ≡ suc (fuel - length first - 1) = omega arith in
        let unread : All IsUnread others = IsUnread-append second (sound ∷ third) u2 (refl, u3) in
        rw
          (
            file.seek_at bytes p 0 (omega arith) hp (omega arith),
            fetch_form file bytes form form_size (sub_type_of f) (all_bytes cs) refl (omega arith),
            value-object 4 form (omega arith),
            value-object 4 (sub_type_of f) (sub_type-fits f),
            file.tell_at bytes 12 (omega arith) inside,
            read_chunks-common first header f c others 12 fuel st r small u1 unread hf hc supported
                valid (omega arith),
            file.seek_at bytes (length bytes) 12 (omega arith) (omega arith) (omega arith),
            find_ssnd-pass file small first header (it ∷ others) 12 fuel i r n1 (omega arith),
          )
          (find_ssnd_sound (it ∷ second) (header ++ all_bytes first) third size offset block content
            (12 + length (all_bytes first)) (fuel - length first) i r1 small low there (refl, n2)
            (omega arith))
