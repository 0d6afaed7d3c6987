-- ===== src/Audio/Aiff/Header/Answers.antt =====
-- The header's reader comes to an end with a result or an error on a file that is a sequence of padded chunks,
-- where the rates of the common chunks can be cast and the source stops at the end of the file.
use ni_media.Common.{
  ℕ, zero, suc, ◌+◌, ◌^◌, ◌≤◌, ◌<◌, ◌≡◌, refl, sym, ◌∙◌, append_assoc, length-append, arith, true,
  false, not, List, [], ◌∷◌, ◌++◌, length, min, ◌==◌, Bool-cases, inl, inr,
}
use ni_media.Common.Int.{pos}
use ni_media.Common.Bytes.{All, IsByte}
use ni_media.Boost.{Algorithms, FindIf, BigEndian, value-object}
use ni_media.Iostreams.Positioning.{beg}
use ni_media.Iostreams.Device.{Source}
use ni_media.Iostreams.File.{StopsAtEnd, IsFileSize}
use ni_media.Iostreams.File.Laws.{fetch_end, StopsAtEnd-IsFile}
use ni_media.Pcm.Format.{EndianType}
use ni_media.Pcm.Runtime.{RuntimeFormat}
use ni_media.Audio.Ieee80.{Ieee80}
use ni_media.Audio.Reader.{Reader, ◌>>=◌, ◌>>◌, throw_if, sought}
use ni_media.Audio.Reader.Safe.{
  answers, here, Lands, IsSafe, bind_assoc, bind-IsSafe, bind-Lands, done-IsSafe, thrown-IsSafe,
  throw_if-IsSafe,
}
use ni_media.Audio.Aiff.Chunks.{AiffInfo, ssnd, form}
use ni_media.Audio.Aiff.Header.{
  Search, no_form_tag, missing_comm_chunk, next_chunk, read_chunk, read_chunks, read_body,
  find_chunk, find_ssnd, found_or_next, read_ssnd, read_aiff_header, aiff_info,
}
use ni_media.Audio.Aiff.Header.Safe.{HasSizedRate, read_body-Lands, read_ssnd-IsSafe}
use ni_media.Audio.Aiff.Header.Turns.{tag, read_chunk-tag, find_chunk-tag}
use ni_media.Audio.Aiff.Layout.{
  Chunk, IsPadded, tag_bytes, length-tag_bytes, chunk_bytes, all_bytes, form_bytes,
  length-form_bytes, next_chunk-padded, fetch_form, Rest, after_tag, Rest-next, Rest-room, tag_room,
  Rest-size,
}

module _ ⦃boost : Algorithms⦄ ⦃big : BigEndian⦄ {S : Type 0} {src : Source S} {at : List ℕ → ℕ → S}
    (stops : StopsAtEnd src at) {bytes : List ℕ} (fits : IsFileSize bytes)
    (small : length bytes < 2 ^ 32) (all : All IsByte bytes) where
  -- The seek behind a padded chunk goes to the next one.
  seek-Rest :
      {E A : Type 0} {before : List ℕ} {c : Chunk} {cs : List Chunk} {k : ℕ}
      (r : Rest bytes before (c ∷ cs) k) (m : Reader E S A)
      → Lands at bytes (m (at bytes (k + length (chunk_bytes c))))
      → IsSafe at bytes (sought src (pos (next_chunk (k + 8) c.size)) beg >>= λ p. m)
  seek-Rest {c} {k} r m h =
      let room = Rest-room r in
      let target : next_chunk (k + 8) c.size ≡ k + length (chunk_bytes c) =
        next_chunk-padded c k (r.padded.0) (omega arith) in
      let short : min (k + length (chunk_bytes c)) (length bytes) ≡ k + length (chunk_bytes c) =
        omega arith in
      record {
        lands = λ p hp.
            rw
              (
                target,
                stops.seek_at bytes p (k + length (chunk_bytes c)) fits hp (omega arith),
                short,
              )
              h;
      }

  find_ssnd-Lands :
      (before : List ℕ) (cs : List Chunk) (k fuel : ℕ) (i : AiffInfo)
      → Rest bytes before cs k
      → length cs < fuel
      → Lands at bytes (find_ssnd src fuel i (at bytes k))
  unfolding find_ssnd find_chunk found_or_next answers
  find_ssnd-Lands before cs k zero i r h = absurd (omega arith)
  find_ssnd-Lands before [] k (suc fuel) i r h =
      let last : k ≡ length bytes = omega (arith, Rest-size r) in
      rw (last, fetch_end (StopsAtEnd-IsFile stops) bytes 4 (4 ∷ []) fits)
        (record { end_state = here (length bytes) (omega arith); answered = refl })
  find_ssnd-Lands before (c ∷ cs) k (suc fuel) i r h =
      let room = tag_room r in
      rw
        (find_chunk-tag (StopsAtEnd-IsFile stops) bytes before c.id c.size (c.body ++ all_bytes cs)
          k i (after_tag r) r.start fits (r.padded.0).id_fits (r.padded.0).size_fits (omega arith))
        (elim (Bool-cases (c.id == ssnd)) [
          | inl sound ↦
              rw (sound, bind_assoc (read_ssnd src i) _ _ (at bytes (k + 8)))
                ((bind-IsSafe (read_ssnd src i) _ (read_ssnd-IsSafe stops fits (omega arith) all i)
                    (λ i'. done-IsSafe i')).lands
                  (k + 8) (omega arith))
          | inr other ↦
              rw
                (
                  other,
                  bind_assoc (sought src (pos (next_chunk (k + 8) c.size)) beg) _ _
                      (at bytes (k + 8)),
                )
                ((seek-Rest r (find_ssnd src fuel i) (
                    find_ssnd-Lands (before ++ chunk_bytes c) cs (k + length (chunk_bytes c)) fuel i
                      (Rest-next r) (omega arith))).lands
                  (k + 8) (omega arith))
        ])

  module _ ⦃range : FindIf RuntimeFormat⦄ ⦃ieee : Ieee80⦄ (sub_type : ℕ) where
    read_chunks-Lands :
        (before : List ℕ) (cs : List Chunk) (k fuel : ℕ) (st : Search)
        → Rest bytes before cs k
        → All HasSizedRate cs
        → length cs < fuel
        → Lands at bytes (read_chunks src sub_type fuel st (at bytes k))
    unfolding read_chunks read_chunk answers
    read_chunks-Lands before cs k zero st r sized h = absurd (omega arith)
    read_chunks-Lands before [] k (suc fuel) st r sized h =
        let last : k ≡ length bytes = omega (arith, Rest-size r) in
        rw (last, fetch_end (StopsAtEnd-IsFile stops) bytes 4 (4 ∷ []) fits)
          (record { end_state = here (length bytes) (omega arith); answered = refl })
    read_chunks-Lands before (c ∷ cs) k (suc fuel) st r sized h =
        let body = read_body src sub_type (tag c.id c.size) st in
        let room = tag_room r in
        let t = tag_bytes c.id c.size in
        let e1 : bytes ≡ (before ++ t) ++ (c.body ++ all_bytes cs) =
          after_tag r ∙ sym (append_assoc before t (c.body ++ all_bytes cs)) in
        let k8 : k + 8 ≡ length (before ++ t) =
          omega (arith, r.start, length-append before t, length-tag_bytes c.id c.size) in
        rw
          (
            read_chunk-tag (StopsAtEnd-IsFile stops) bytes before c.id c.size
                (c.body ++ all_bytes cs) k sub_type st (after_tag r) r.start fits
                (r.padded.0).id_fits (r.padded.0).size_fits (omega arith),
            bind_assoc body _ _ (at bytes (k + 8)),
          )
          (bind-Lands body _ (at bytes (k + 8))
            (read_body-Lands stops fits (omega arith) sub_type (before ++ t) c (all_bytes cs)
              (k + 8) st e1 k8 (omega (arith, (r.padded.0).padded)) sized.0)
            (λ st'. seek-Rest r (read_chunks src sub_type fuel st') (
              read_chunks-Lands (before ++ chunk_bytes c) cs (k + length (chunk_bytes c)) fuel st'
                (Rest-next r) sized.1 (omega arith))))

    -- What follows the first search.
    second_search :
        (before : List ℕ) (cs : List Chunk) (fuel : ℕ)
        → Rest bytes before cs 12
        → length cs < fuel
        → (st : Search)
        → IsSafe at bytes (
            throw_if (not st.comm_found) missing_comm_chunk
            >> (sought src (pos 12) beg >>= λ back. find_ssnd src fuel st.info))
    second_search before cs fuel r h st =
        let size = Rest-size r in
        let short : min 12 (length bytes) ≡ 12 = omega arith in
        bind-IsSafe _ _ (throw_if-IsSafe (not st.comm_found) missing_comm_chunk) (λ u. record {
          lands = λ p hp.
              rw (stops.seek_at bytes p 12 fits hp (omega arith), short)
                (find_ssnd-Lands before cs 12 fuel st.info r h);
        })

    pub read_aiff_header-Lands :
        (native_endian : EndianType) (id size : ℕ) (cs : List Chunk) (p fuel : ℕ)
        → p ≤ length bytes
        → bytes ≡ form_bytes id size sub_type ++ all_bytes cs
        → id < 2 ^ 32
        → sub_type < 2 ^ 32
        → All IsPadded cs
        → All HasSizedRate cs
        → length cs < fuel
        → Lands at bytes (read_aiff_header src native_endian fuel (at bytes p))
    unfolding read_aiff_header answers
    read_aiff_header-Lands native_endian id size cs p fuel hp e hid hsub padded sized enough =
        let header = form_bytes id size sub_type in
        let l = length-form_bytes id size sub_type in
        let r : Rest bytes header cs 12 = record { split = e; start = sym l; padded = padded } in
        let inside : 12 ≤ length bytes = omega (arith, Rest-size r) in
        let to_start : min 0 (length bytes) ≡ 0 = omega arith in
        rw
          (
            stops.seek_at bytes p 0 fits hp (omega arith),
            to_start,
            fetch_form (StopsAtEnd-IsFile stops) bytes id size sub_type (all_bytes cs) e fits,
            value-object 4 id hid,
            value-object 4 sub_type hsub,
          )
          (elim (Bool-cases (id == form)) [
            | inl is_form ↦
                let st : Search = record { info = aiff_info native_endian; comm_found = false } in
                rw (is_form, stops.tell_at bytes 12 fits inside)
                  (bind-Lands (read_chunks src sub_type fuel st) _ (at bytes 12)
                    (read_chunks-Lands header cs 12 fuel st r sized enough)
                    (second_search header cs fuel r enough))
            | inr other ↦ rw other ((thrown-IsSafe no_form_tag).lands 12 inside)
          ])

module _ ⦃boost : Algorithms⦄ ⦃big : BigEndian⦄ ⦃range : FindIf RuntimeFormat⦄ ⦃ieee : Ieee80⦄
    {S : Type 0} {src : Source S} {at : List ℕ → ℕ → S} (stops : StopsAtEnd src at) where
  -- On any source that behaves as a file and stops at its end, and from any position in it, the
  -- reader of AIFF headers comes to an end with a result or an error, and not with undefined
  -- behaviour, whatever else the chunks hold, if the file is below 4 GiB and of padded chunks
  -- behind its first twelve bytes, if each common chunk of 18 bytes or more has a rate that is not
  -- positive or that a size_t holds, and if each loop is given more turns than there are chunks.
  pub read_aiff_header-answers :
      (native_endian : EndianType) (id size sub_type : ℕ) (cs : List Chunk) (p fuel : ℕ)
      → p ≤ length (form_bytes id size sub_type ++ all_bytes cs)
      → length (form_bytes id size sub_type ++ all_bytes cs) < 2 ^ 32
      → All IsByte (form_bytes id size sub_type ++ all_bytes cs)
      → id < 2 ^ 32
      → sub_type < 2 ^ 32
      → All IsPadded cs
      → All HasSizedRate cs
      → length cs < fuel
      → answers
          (read_aiff_header src native_endian fuel
            (at (form_bytes id size sub_type ++ all_bytes cs) p)).0
        ≡ true
  read_aiff_header-answers native_endian id size sub_type cs p fuel hp small all hid hsub padded
        sized enough =
      (read_aiff_header-Lands stops (omega arith) small all sub_type native_endian id size cs p fuel
        hp refl hid hsub padded sized enough).answered
