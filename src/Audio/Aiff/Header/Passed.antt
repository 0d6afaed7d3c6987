-- ===== src/Audio/Aiff/Header/Passed.antt =====
-- The chunks that the two loops pass over cost a turn each.
use ni_media.Common.{
  ℕ, zero, suc, ◌+◌, ◌-◌, ◌^◌, ◌≤◌, ◌<◌, ◌≡◌, refl, ◌∙◌, arith, false, none, List, [], ◌∷◌, ◌++◌,
  length, length-append, ◌==◌,
}
use ni_media.Common.Bytes.{All}
use ni_media.Boost.{Algorithms, FindIf, BigEndian}
use ni_media.Iostreams.Device.{Source}
use ni_media.Iostreams.File.{IsFile}
use ni_media.Pcm.Runtime.{RuntimeFormat}
use ni_media.Audio.Ieee80.{Ieee80}
use ni_media.Audio.Reader.{done}
use ni_media.Audio.Aiff.Chunks.{AiffInfo, ssnd}
use ni_media.Audio.Aiff.Header.{
  Search, more, next_chunk, read_chunk, read_chunks, find_chunk, found_or_next, find_ssnd,
}
use ni_media.Audio.Aiff.Header.Turns.{find_chunk-tag}
use ni_media.Audio.Aiff.Header.Loop.{is_read, read_chunk-skip}
use ni_media.Audio.Aiff.Layout.{
  Chunk, chunk_bytes, all_bytes, next_chunk-padded, Rest, after_tag, Rest-next, Rest-room, tag_room,
}

abbrev pub IsUnread : Chunk → Type 0
IsUnread c = is_read c.id ≡ false

abbrev pub IsNotSsnd : Chunk → Type 0
IsNotSsnd c = (c.id == ssnd) ≡ false

module _ ⦃boost : Algorithms⦄ ⦃big : BigEndian⦄ {S : Type 0} {src : Source S} {at : List ℕ → ℕ → S}
    (file : IsFile src at) {bytes : List ℕ} (small : length bytes < 2 ^ 32) where
  find_chunk-next :
      {before : List ℕ} (c : Chunk) {cs : List Chunk} (k : ℕ) (i : AiffInfo)
      → Rest bytes before (c ∷ cs) k
      → IsNotSsnd c
      → find_chunk src i (at bytes k) ≡ (done none, at bytes (k + length (chunk_bytes c)))
  unfolding found_or_next
  find_chunk-next {before} c {cs} k i r other =
      let room = tag_room r in
      let whole = Rest-room r in
      let target : next_chunk (k + 8) c.size ≡ k + length (chunk_bytes c) =
        next_chunk-padded c k (r.padded.0) (omega arith) in
      find_chunk-tag file bytes before c.id c.size (c.body ++ all_bytes cs) k i (after_tag r)
        r.start (omega arith) (r.padded.0).id_fits (r.padded.0).size_fits (omega arith)
      ∙ rw
          (
            other,
            target,
            file.seek_at bytes (k + 8) (k + length (chunk_bytes c)) (omega arith) room
                (omega arith),
          )
          refl

  pub find_ssnd-pass :
      (xs : List Chunk) (before : List ℕ) (ys : List Chunk) (k fuel : ℕ) (i : AiffInfo)
      → Rest bytes before (xs ++ ys) k
      → All IsNotSsnd xs
      → length xs ≤ fuel
      → find_ssnd src fuel i (at bytes k)
        ≡ find_ssnd src (fuel - length xs) i (at bytes (k + length (all_bytes xs)))
  unfolding find_ssnd
  find_ssnd-pass [] before ys k fuel i r h enough =
      let stay : k + 0 ≡ k = omega arith in
      let all_left : fuel - 0 ≡ fuel = omega arith in rw (stay, all_left) refl
  find_ssnd-pass (x ∷ xs) before ys k zero i r h enough = absurd (omega arith)
  find_ssnd-pass (x ∷ xs) before ys k (suc fuel) i r h enough =
      let sum : k + length (chunk_bytes x) + length (all_bytes xs)
          ≡ k + length (chunk_bytes x ++ all_bytes xs) =
        omega (arith, length-append (chunk_bytes x) (all_bytes xs)) in
      let left : fuel - length xs ≡ suc fuel - suc (length xs) = omega arith in
      rw (find_chunk-next x k i r (h.0), ← sum, ← left)
        (find_ssnd-pass xs (before ++ chunk_bytes x) ys (k + length (chunk_bytes x)) fuel i
          (Rest-next r) (h.1) (omega arith))

  module _ ⦃range : FindIf RuntimeFormat⦄ ⦃ieee : Ieee80⦄ (sub_type : ℕ) where
    read_chunk-next :
        {before : List ℕ} (c : Chunk) {cs : List Chunk} (k : ℕ) (st : Search)
        → Rest bytes before (c ∷ cs) k
        → IsUnread c
        → read_chunk src sub_type st (at bytes k)
          ≡ (done (more st), at bytes (k + length (chunk_bytes c)))
    read_chunk-next {before} c {cs} k st r unread =
        let room = tag_room r in
        let whole = Rest-room r in
        let target : next_chunk (k + 8) c.size ≡ k + length (chunk_bytes c) =
          next_chunk-padded c k (r.padded.0) (omega arith) in
        rw target at (
          read_chunk-skip file bytes before c.id c.size (c.body ++ all_bytes cs) k sub_type st
            (after_tag r) r.start (omega arith) (r.padded.0).id_fits (r.padded.0).size_fits
            (omega arith) unread (omega arith) (omega arith))

    pub read_chunks-pass :
        (xs : List Chunk) (before : List ℕ) (ys : List Chunk) (k fuel : ℕ) (st : Search)
        → Rest bytes before (xs ++ ys) k
        → All IsUnread xs
        → length xs ≤ fuel
        → read_chunks src sub_type fuel st (at bytes k)
          ≡ read_chunks src sub_type (fuel - length xs) st (at bytes (k + length (all_bytes xs)))
    unfolding read_chunks
    read_chunks-pass [] before ys k fuel st r h enough =
        let stay : k + 0 ≡ k = omega arith in
        let all_left : fuel - 0 ≡ fuel = omega arith in rw (stay, all_left) refl
    read_chunks-pass (x ∷ xs) before ys k zero st r h enough = absurd (omega arith)
    read_chunks-pass (x ∷ xs) before ys k (suc fuel) st r h enough =
        let sum : k + length (chunk_bytes x) + length (all_bytes xs)
            ≡ k + length (chunk_bytes x ++ all_bytes xs) =
          omega (arith, length-append (chunk_bytes x) (all_bytes xs)) in
        let left : fuel - length xs ≡ suc fuel - suc (length xs) = omega arith in
        rw (read_chunk-next x k st r (h.0), ← sum, ← left)
          (read_chunks-pass xs (before ++ chunk_bytes x) ys (k + length (chunk_bytes x)) fuel st
            (Rest-next r) (h.1) (omega arith))
