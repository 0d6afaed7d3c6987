-- ===== src/Audio/Wav/Header/Laws.antt =====
-- One turn of the header's loop at each kind of chunk, in a file.
use ni_media.Common.{
  ℕ, ◌+◌, ◌-◌, ◌%◌, ◌^◌, ◌≤◌, ◌<◌, ◌≡◌, refl, ap, sym, ◌∙◌, arith, false, some, List, [], ◌∷◌, ◌++◌,
  append_assoc, append-nil, length, length-append, ◌==◌,
}
use ni_media.Common.Bits.{and_even}
use ni_media.Common.Bytes.{le_bytes, le_value, le_value-le_bytes, length-le_bytes}
use ni_media.Boost.{Algorithms, FindIf}
use ni_media.Iostreams.Device.{Source}
use ni_media.Iostreams.Fetch.{fetch}
use ni_media.Iostreams.File.{IsFile, IsFileSize}
use ni_media.Iostreams.File.Laws.{fetch-file}
use ni_media.Pcm.Format.{EndianType}
use ni_media.Pcm.Runtime.{RuntimeFormat}
use ni_media.Audio.Wav.Chunks.{RiffTag, WavInfo}
use ni_media.Audio.Wav.Reader.{done, ◌>>=◌}
use ni_media.Audio.Wav.Header.{more, read_chunk, read_body, seek_next, next_chunk}
use mathlib.Core.List.{flatten}

-- A chunk: its identifier, its size and what lies behind.
abbrev pub chunk : ℕ → ℕ → List ℕ → List ℕ
chunk id size body = le_bytes 4 id ++ (le_bytes 4 size ++ body)

pub chunk-append :
    (id size : ℕ) (body after : List ℕ)
    → chunk id size body ++ after ≡ chunk id size (body ++ after)
unfolding le_bytes
chunk-append id size body after = refl

pub length-chunk : (id size : ℕ) (body : List ℕ) → length (chunk id size body) ≡ 8 + length body
unfolding le_bytes
length-chunk id size body = omega arith

abbrev pub tag_bytes : ℕ → ℕ → List ℕ
tag_bytes id size = le_bytes 4 id ++ le_bytes 4 size

pub length-tag_bytes : (id size : ℕ) → length (tag_bytes id size) ≡ 8
unfolding le_bytes
length-tag_bytes id size = refl

-- The place behind a tag.
pub behind_tag :
    (bytes before : List ℕ) (id size : ℕ) (rest : List ℕ)
    → bytes ≡ before ++ chunk id size rest
    → bytes ≡ (before ++ tag_bytes id size) ++ rest
unfolding le_bytes
behind_tag bytes before id size rest e = e ∙ sym (append_assoc before (tag_bytes id size) rest)

pub behind_tag-length :
    (before : List ℕ) (id size k : ℕ)
    → k ≡ length before
    → k + 8 ≡ length (before ++ tag_bytes id size)
behind_tag-length before id size k ek =
    omega (arith, length-append before (tag_bytes id size), length-tag_bytes id size)

next_chunk-even :
    (p size : ℕ) → p + size + 1 < 2 ^ 32 → next_chunk p size ≡ p + size + 1 - (p + size + 1) % 2
unfolding next_chunk
next_chunk-even p size h =
    let e : (p + size + 1) % 2 ^ 32 ≡ p + size + 1 = omega arith in rw e (and_even (p + size + 1) h)

module _ ⦃boost : Algorithms⦄ {S : Type 0} {src : Source S} {at : List ℕ → ℕ → S}
    (file : IsFile src at) where
  pub fetch_tag :
      (bytes before : List ℕ) (id size : ℕ) (after : List ℕ) (k : ℕ)
      → bytes ≡ before ++ chunk id size after
      → k ≡ length before
      → IsFileSize bytes
      → fetch src (4 ∷ 4 ∷ []) (at bytes k)
        ≡ (some (le_bytes 4 id ∷ le_bytes 4 size ∷ []), at bytes (k + 8))
  unfolding le_bytes flatten
  fetch_tag bytes before id size after k e ek fits =
      fetch-file file bytes before (le_bytes 4 id ∷ le_bytes 4 size ∷ []) after k e ek
        (omega arith, (omega arith, tt)) fits

  pub tag_inside :
      (bytes before : List ℕ) (id size : ℕ) (after : List ℕ) (k : ℕ)
      → bytes ≡ before ++ chunk id size after
      → k ≡ length before
      → k + 8 ≤ length bytes
  tag_inside bytes before id size after k e ek = omega (
    arith,
    ap (λ (b : List ℕ). length b) e,
    length-append before (chunk id size after),
    length-append (le_bytes 4 id) (le_bytes 4 size ++ after),
    length-append (le_bytes 4 size) after,
    length-le_bytes 4 id,
    length-le_bytes 4 size,
  )

  -- The fetch of one object.
  pub fetch_one :
      (bytes before o after : List ℕ) (k n : ℕ)
      → bytes ≡ before ++ (o ++ after)
      → k ≡ length before
      → n ≡ length o
      → 0 < n
      → IsFileSize bytes
      → fetch src (n ∷ []) (at bytes k) ≡ (some (o ∷ []), at bytes (k + n))
  unfolding flatten
  fetch_one bytes before o after k n e ek en some_bytes fits =
      let e' : bytes ≡ before ++ ((o ++ []) ++ after) = rw (append-nil o) e in
      rw (en) (
        fetch-file file bytes before (o ∷ []) after k e' ek (rw en at some_bytes, tt) fits
        ∙ rw (append-nil o) refl)

  -- The tag, the offset and the body of a chunk.
  pub read_chunk-body :
      ⦃range : FindIf RuntimeFormat⦄ (native_endian : EndianType) (bytes before : List ℕ)
      (id size : ℕ) (after : List ℕ) (k : ℕ) (i : WavInfo)
      → bytes ≡ before ++ chunk id size after
      → k ≡ length before
      → IsFileSize bytes
      → id < 2 ^ 32
      → 0 < size
      → size < 2 ^ 32
      → k + 8 < 2 ^ 32
      → let tag : RiffTag = record { id = id; size = size } in
        read_chunk native_endian src i (at bytes k)
        ≡ (read_body native_endian src tag i >>= seek_next native_endian src (k + 8) tag)
            (at bytes (k + 8))
  unfolding read_chunk
  read_chunk-body native_endian bytes before id size after k i e ek fits hid some_size hsize hk =
      let inside : k + 8 ≤ length bytes = tag_inside bytes before id size after k e ek in
      let id_back : le_value (le_bytes 4 id) ≡ id = le_value-le_bytes 4 id hid in
      let size_back : le_value (le_bytes 4 size) ≡ size = le_value-le_bytes 4 size hsize in
      let not_empty : (size == 0) ≡ false = ground arith in
      let same : (k + 8) % 2 ^ 32 ≡ k + 8 = omega arith in
      rw
        (
          fetch_tag bytes before id size after k e ek fits,
          id_back,
          size_back,
          not_empty,
          file.tell_at bytes (k + 8) fits inside,
          same,
        )
        refl

  -- The seek behind a chunk that starts at an even offset and is padded to an even size.
  pub seek_next-padded :
      ⦃range : FindIf RuntimeFormat⦄ (native_endian : EndianType) (bytes before : List ℕ)
      (tag : RiffTag) (body after : List ℕ) (k p : ℕ) (i : WavInfo)
      → bytes ≡ before ++ (body ++ after)
      → k ≡ length before
      → k % 2 ≡ 0
      → length body ≡ tag.size + tag.size % 2
      → k + tag.size + 1 < 2 ^ 32
      → IsFileSize bytes
      → p ≤ length bytes
      → seek_next native_endian src k tag (more i) (at bytes p)
        ≡ (done (more i), at bytes (k + length body))
  unfolding seek_next
  seek_next-padded native_endian bytes before tag body after k p i e ek even padded fits small hp =
      let target : next_chunk k tag.size ≡ k + length body =
        next_chunk-even k tag.size fits ∙ omega arith in
      let inside : k + length body ≤ length bytes = omega (
        arith,
        ap (λ (b : List ℕ). length b) e,
        length-append before (body ++ after),
        length-append body after,
      ) in
      rw (target, file.seek_at bytes p (k + length body) small hp (omega arith)) refl
