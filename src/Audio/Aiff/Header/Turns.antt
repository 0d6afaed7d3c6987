-- ===== src/Audio/Aiff/Header/Turns.antt =====
-- One turn of each of the two loops, at a tag and at the end of the file.
use ni_media.Common.{
  ℕ, ◌+◌, ◌%◌, ◌^◌, ◌≤◌, ◌<◌, ◌≡◌, refl, ap, arith, List, [], ◌∷◌, ◌++◌, length, length-append,
}
use ni_media.Common.Int.{pos}
use ni_media.Boost.{Algorithms, FindIf, BigEndian, value-object}
use ni_media.Iostreams.Positioning.{beg}
use ni_media.Iostreams.Device.{Source}
use ni_media.Iostreams.File.{IsFile, IsFileSize}
use ni_media.Iostreams.File.Laws.{fetch_end}
use ni_media.Pcm.Runtime.{RuntimeFormat}
use ni_media.Audio.Ieee80.{Ieee80}
use ni_media.Audio.Reader.{done, give, ◌>>=◌, sought}
use ni_media.Audio.Aiff.Chunks.{Tag, AiffInfo}
use ni_media.Audio.Aiff.Header.{
  Search, more, ended, next_chunk, read_chunk, read_body, find_chunk, found_or_next,
}
use ni_media.Audio.Aiff.Layout.{tag_bytes, length-tag_bytes, fetch_tag}

abbrev pub tag : ℕ → ℕ → Tag
tag id size = record { id = id; size = size }

module _ ⦃boost : Algorithms⦄ ⦃big : BigEndian⦄ {S : Type 0} {src : Source S} {at : List ℕ → ℕ → S}
    (file : IsFile src at) where
  pub tag_inside :
      (bytes before : List ℕ) (id size : ℕ) (after : List ℕ) (k : ℕ)
      → bytes ≡ before ++ (tag_bytes id size ++ after)
      → k ≡ length before
      → k + 8 ≤ length bytes
  tag_inside bytes before id size after k e ek = omega (
    arith,
    ap (λ (b : List ℕ). length b) e,
    length-append before (tag_bytes id size ++ after),
    length-append (tag_bytes id size) after,
    length-tag_bytes id size,
  )

  pub find_chunk-tag :
      (bytes before : List ℕ) (id size : ℕ) (after : List ℕ) (k : ℕ) (i : AiffInfo)
      → bytes ≡ before ++ (tag_bytes id size ++ after)
      → k ≡ length before
      → IsFileSize bytes
      → id < 2 ^ 32
      → size < 2 ^ 32
      → k + 8 < 2 ^ 32
      → find_chunk src i (at bytes k) ≡ found_or_next src (k + 8) (tag id size) i (at bytes (k + 8))
  unfolding find_chunk
  find_chunk-tag bytes before id size after k i e ek fits hid hsize small =
      let inside = tag_inside bytes before id size after k e ek in
      let same : (k + 8) % 2 ^ 32 ≡ k + 8 = omega arith in
      rw
        (
          fetch_tag file bytes before id size after k e ek fits,
          value-object 4 id hid,
          value-object 4 size hsize,
          file.tell_at bytes (k + 8) fits inside,
          same,
        )
        refl

  module _ ⦃range : FindIf RuntimeFormat⦄ ⦃ieee : Ieee80⦄ where
    pub read_chunk-tag :
        (bytes before : List ℕ) (id size : ℕ) (after : List ℕ) (k sub_type : ℕ) (st : Search)
        → bytes ≡ before ++ (tag_bytes id size ++ after)
        → k ≡ length before
        → IsFileSize bytes
        → id < 2 ^ 32
        → size < 2 ^ 32
        → k + 8 < 2 ^ 32
        → read_chunk src sub_type st (at bytes k)
          ≡ (read_body src sub_type (tag id size) st >>= λ st'.
                (sought src (pos (next_chunk (k + 8) size)) beg >>= λ p. give (done (more st'))))
              (at bytes (k + 8))
    unfolding read_chunk
    read_chunk-tag bytes before id size after k sub_type st e ek fits hid hsize small =
        let inside = tag_inside bytes before id size after k e ek in
        let same : (k + 8) % 2 ^ 32 ≡ k + 8 = omega arith in
        rw
          (
            fetch_tag file bytes before id size after k e ek fits,
            value-object 4 id hid,
            value-object 4 size hsize,
            file.tell_at bytes (k + 8) fits inside,
            same,
          )
          refl

    pub read_chunk-end :
        (bytes : List ℕ) (sub_type : ℕ) (st : Search)
        → IsFileSize bytes
        → read_chunk src sub_type st (at bytes (length bytes))
          ≡ (done (ended st), at bytes (length bytes))
    unfolding read_chunk
    read_chunk-end bytes sub_type st fits = rw (fetch_end file bytes 4 (4 ∷ []) fits) refl
