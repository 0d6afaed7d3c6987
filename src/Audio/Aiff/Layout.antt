-- ===== src/Audio/Aiff/Layout.antt =====
-- The bytes of an AIFF file, as a sequence of padded chunks.
use ni_media.Common.{
  ℕ, ◌+◌, ◌%◌, ◌^◌, ◌≤◌, ◌<◌, ◌≡◌, refl, ap, sym, ◌∙◌, arith, some, List, [], ◌∷◌, ◌++◌,
  append_assoc, append-nil, length, length-append,
}
use ni_media.Common.Bytes.{All}
use ni_media.Boost.{Algorithms, BigEndian, length-object}
use ni_media.Iostreams.Device.{Source}
use ni_media.Iostreams.Fetch.{fetch}
use ni_media.Iostreams.File.{IsFile, IsFileSize}
use ni_media.Iostreams.File.Laws.{fetch-file}
use ni_media.Audio.Aiff.Header.{next_chunk}
use mathlib.Core.List.{flatten}

pub record Chunk : Type 0 where
  pub id : ℕ
  pub size : ℕ
  pub body : List ℕ

-- The body is as long as the size says, with one more byte if that is odd.
pub record IsPadded (c : Chunk) : Type 0 where
  pub id_fits : c.id < 2 ^ 32
  pub size_fits : c.size < 2 ^ 32
  pub padded : length c.body ≡ c.size + c.size % 2

module _ ⦃big : BigEndian⦄ where
  abbrev pub tag_bytes : ℕ → ℕ → List ℕ
  tag_bytes id size = big.object 4 id ++ big.object 4 size

  abbrev pub chunk_bytes : Chunk → List ℕ
  chunk_bytes c = tag_bytes c.id c.size ++ c.body

  abbrev pub all_bytes : List Chunk → List ℕ
  all_bytes [] = []
  all_bytes (c ∷ cs) = chunk_bytes c ++ all_bytes cs

  -- The FORM tag with its size and sub-type.
  abbrev pub form_bytes : ℕ → ℕ → ℕ → List ℕ
  form_bytes id size sub_type = big.object 4 id ++ (big.object 4 size ++ big.object 4 sub_type)

  pub length-tag_bytes : (id size : ℕ) → length (tag_bytes id size) ≡ 8
  length-tag_bytes id size = omega (
    arith,
    length-append (big.object 4 id) (big.object 4 size),
    length-object 4 id,
    length-object 4 size,
  )

  pub length-form_bytes : (id size sub_type : ℕ) → length (form_bytes id size sub_type) ≡ 12
  length-form_bytes id size sub_type = omega (
    arith,
    length-append (big.object 4 id) (big.object 4 size ++ big.object 4 sub_type),
    length-object 4 id,
    length-tag_bytes size sub_type,
  )

  pub length-chunk_bytes : (c : Chunk) → length (chunk_bytes c) ≡ 8 + length c.body
  length-chunk_bytes c =
      omega (arith, length-append (tag_bytes c.id c.size) c.body, length-tag_bytes c.id c.size)

  -- Where the chunk behind a padded chunk starts.
  pub next_chunk-padded :
      (c : Chunk) (k : ℕ)
      → IsPadded c
      → k + length (chunk_bytes c) < 2 ^ 32
      → next_chunk (k + 8) c.size ≡ k + length (chunk_bytes c)
  unfolding next_chunk
  next_chunk-padded c k h small =
      let l = length-chunk_bytes c in
      let p = h.padded in
      let whole : (k + 8 + c.size) % 2 ^ 32 ≡ k + 8 + c.size = omega arith in
      rw whole (ground arith)

-- The chunks of a file from a place on are the given ones.
pub record Rest ⦃big : BigEndian⦄ (bytes before : List ℕ) (cs : List Chunk) (k : ℕ) : Type 0 where
  pub split : bytes ≡ before ++ all_bytes cs
  pub start : k ≡ length before
  pub padded : All IsPadded cs

module _ ⦃big : BigEndian⦄ {bytes before : List ℕ} {k : ℕ} where
  pub Rest-size :
      {cs : List Chunk} → Rest bytes before cs k → length bytes ≡ k + length (all_bytes cs)
  Rest-size {cs} r =
      omega
        (arith, ap (λ (b : List ℕ). length b) r.split, length-append before (all_bytes cs), r.start)

  module _ {c : Chunk} {cs : List Chunk} (r : Rest bytes before (c ∷ cs) k) where
    pub after_tag : bytes ≡ before ++ (tag_bytes c.id c.size ++ (c.body ++ all_bytes cs))
    after_tag =
        r.split ∙ ap (λ t. before ++ t) (append_assoc (tag_bytes c.id c.size) c.body (all_bytes cs))

    pub Rest-next : Rest bytes (before ++ chunk_bytes c) cs (k + length (chunk_bytes c))
    Rest-next = record {
      split = r.split ∙ sym (append_assoc before (chunk_bytes c) (all_bytes cs));
      start = omega (arith, length-append before (chunk_bytes c), r.start);
      padded = r.padded.1;
    }

    pub Rest-room : k + length (chunk_bytes c) ≤ length bytes
    Rest-room = omega (arith, Rest-size r, length-append (chunk_bytes c) (all_bytes cs))

    pub tag_room : k + 8 ≤ length bytes
    tag_room = omega (arith, Rest-room, length-chunk_bytes c)

-- Behind the first of the chunks come the others.
pub Rest-behind :
    ⦃big : BigEndian⦄ {bytes : List ℕ} (xs : List Chunk) (before : List ℕ) {ys : List Chunk} {k : ℕ}
    → Rest bytes before (xs ++ ys) k
    → Rest bytes (before ++ all_bytes xs) ys (k + length (all_bytes xs))
Rest-behind [] before {k} r = let stay : k + 0 ≡ k = omega arith in rw (append-nil before, stay) r
Rest-behind (x ∷ xs) before {k} r =
    let deeper = Rest-behind xs (before ++ chunk_bytes x) (Rest-next r) in
    let sum : k + length (chunk_bytes x) + length (all_bytes xs)
        ≡ k + length (chunk_bytes x ++ all_bytes xs) =
      omega (arith, length-append (chunk_bytes x) (all_bytes xs)) in
    rw (append_assoc before (chunk_bytes x) (all_bytes xs), sum) at deeper

module _ ⦃boost : Algorithms⦄ ⦃big : BigEndian⦄ {S : Type 0} {src : Source S} {at : List ℕ → ℕ → S}
    (file : IsFile src at) where
  pub fetch_tag :
      (bytes before : List ℕ) (id size : ℕ) (after : List ℕ) (k : ℕ)
      → bytes ≡ before ++ (tag_bytes id size ++ after)
      → k ≡ length before
      → IsFileSize bytes
      → fetch src (4 ∷ 4 ∷ []) (at bytes k)
        ≡ (some (big.object 4 id ∷ big.object 4 size ∷ []), at bytes (k + 8))
  unfolding flatten
  fetch_tag bytes before id size after k e ek fits =
      let os : List (List ℕ) = big.object 4 id ∷ big.object 4 size ∷ [] in
      let l1 = length-object 4 id in
      let l2 = length-object 4 size in
      let e' : bytes ≡ before ++ (flatten os ++ after) =
        e
        ∙ ap (λ t. before ++ ((big.object 4 id ++ t) ++ after))
            (sym (append-nil (big.object 4 size))) in
      let l : length (flatten os) ≡ 8 =
        ap (λ t. length (big.object 4 id ++ t)) (append-nil (big.object 4 size))
        ∙ length-tag_bytes id size in
      rw (l1, l2, l) at
        (fetch-file file bytes before os after k e' ek (omega arith, (omega arith, tt)) fits)

  pub fetch_form :
      (bytes : List ℕ) (id size sub_type : ℕ) (after : List ℕ)
      → bytes ≡ form_bytes id size sub_type ++ after
      → IsFileSize bytes
      → fetch src (4 ∷ 4 ∷ 4 ∷ []) (at bytes 0)
        ≡ (some (big.object 4 id ∷ big.object 4 size ∷ big.object 4 sub_type ∷ []), at bytes 12)
  unfolding flatten
  fetch_form bytes id size sub_type after e fits =
      let os : List (List ℕ) = big.object 4 id ∷ big.object 4 size ∷ big.object 4 sub_type ∷ [] in
      let l1 = length-object 4 id in
      let l2 = length-object 4 size in
      let l3 = length-object 4 sub_type in
      let same : flatten os ≡ form_bytes id size sub_type =
        ap (λ t. big.object 4 id ++ (big.object 4 size ++ t))
          (append-nil (big.object 4 sub_type)) in
      let e' : bytes ≡ [] ++ (flatten os ++ after) = e ∙ ap (λ t. t ++ after) (sym same) in
      let l : length (flatten os) ≡ 12 =
        ap (λ (t : List ℕ). length t) same ∙ length-form_bytes id size sub_type in
      rw (l1, l2, l3, l) at
        (fetch-file file bytes [] os after 0 e' refl (omega arith, (omega arith, (omega arith, tt)))
          fits)
