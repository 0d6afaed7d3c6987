-- ===== src/Audio/Aiff/Header/Safe.antt =====
-- What the reader does within a chunk answers and stays in the file, where the rate of a common chunk can be cast
-- and the source stops at the end of the file.
use ni_media.Common.{
  ℕ, zero, suc, ◌+◌, ◌-◌, ◌%◌, ◌<◌, ◌^◌, ◌≡◌, refl, ap, sym, ◌∙◌, ◌≤◌, arith, Bool, true, false,
  not, Option, none, some, List, [], ◌∷◌, ltb, ◌==◌, ◌||◌, length, length-take, length-append,
  append_assoc, take-append-drop, take, drop, ◌++◌, append-nil, min, Bool-cases, inl, inr,
}
use ni_media.Common.Bytes.{All, IsByte, take-IsByte, drop-IsByte}
use ni_media.Iostreams.File.Laws.{fetch-portion, StopsAtEnd-IsFile}
use ni_media.Boost.{Algorithms, FindIf, BigEndian, value_uint32}
use ni_media.Iostreams.Device.{Source}
use ni_media.Iostreams.Fetch.{is_complete, bytes_of}
use ni_media.Iostreams.File.{StopsAtEnd, IsFileSize, portion}
use ni_media.Pcm.Format.{big_endian, signed_integer}
use ni_media.Pcm.Runtime.{Result, ok, throw, RuntimeFormat, of_bits}
use ni_media.Audio.Ieee80.{Ieee80}
use ni_media.Audio.Reader.{◌>>=◌, ◌>>◌, give, throw_if, or_undefined}
use ni_media.Audio.Wav.Header.Laws.{fetch_one}
use ni_media.Audio.Aiff.Layout.{Chunk}
use ni_media.Audio.Reader.Safe.{
  answers, Lands, IsSafe, give-IsSafe, done-IsSafe, thrown-IsSafe, bind-IsSafe, or_throw-IsSafe,
  throw_if-IsSafe, if-Lands, option-IsSafe, if-IsSafe, if-Lands, option-IsSafe, fetched-IsSafe,
  fetch_or-IsSafe, step-IsSafe,
}
use ni_media.Audio.Aiff.Chunks.{
  CommonChunk, AiffInfo, comm, mark, inst, aifc, common_chunk, marker, insert, sound_data_offset,
}
use ni_media.Audio.Aiff.Header.{
  AiffError, Reader, of_format, compression_format, pad_string, read_characters, read_pascal_string,
  read_name, read_compression, read_sample_format, read_common, read_comm, read_markers,
  read_marker_map, read_mark, read_ssnd, with_bit_rate, no_ssnd_chunk, read_inst, read_body, Search,
  no_compression_id, no_compressor_name, unsupported_compression, empty_file, invalid_num_channels,
  invalid_sample_rate, invalid_marker, no_comm_chunk, no_instrument_chunk,
}
use mathlib.Core.List.{flatten}

of_format-answers : {A : Type 0} (r : Result A) → answers (of_format r) ≡ true
unfolding answers
of_format-answers (ok a) = refl
of_format-answers (throw e) = refl

portion-IsByte :
    (bytes : List ℕ) (n p : ℕ) → All IsByte bytes → All IsByte (bytes_of (portion n bytes p))
portion-IsByte bytes n p h = elim (Bool-cases (min n (length bytes - p) == 0)) [
  | inl nothing ↦ rw nothing tt
  | inr left ↦
      rw left (take-IsByte (min n (length bytes - p)) (drop p bytes) (drop-IsByte p bytes h))
]

abbrev is_some : {A : Type 0} → Option A → Bool
is_some none = false
is_some (some a) = true

cast-answers :
    {A : Type 0} (o : Option A) → is_some o ≡ true → answers {E = AiffError} (or_undefined o) ≡ true
unfolding answers
cast-answers none h = absurd (cc h)
cast-answers (some a) h = refl

-- A rate that the reader refuses, or that a `size_t` holds.
abbrev pub is_sized_rate : ⦃ieee : Ieee80⦄ → List ℕ → Bool
is_sized_rate ⦃ieee⦄ x =
    ieee.not_positive (ieee.to_double x) || is_some (ieee.to_size_t (ieee.to_double x))

abbrev pub rate_in : ⦃big : BigEndian⦄ → Chunk → List ℕ
rate_in c = (common_chunk (take 18 c.body)).ext_sample_rate

-- A chunk that is no common chunk, or is too short for one, or has such a rate.
abbrev pub has_sized_rate : ⦃big : BigEndian⦄ ⦃ieee : Ieee80⦄ → Chunk → Bool
has_sized_rate c = not (c.id == comm) || (ltb c.size 18 || is_sized_rate (rate_in c))

abbrev pub HasSizedRate : ⦃big : BigEndian⦄ ⦃ieee : Ieee80⦄ → Chunk → Type 0
HasSizedRate c = has_sized_rate c ≡ true

module _ ⦃big : BigEndian⦄ where
  sound_data_offset_uint32 : (bs : List ℕ) → All IsByte bs → sound_data_offset (bs ++ []) < 2 ^ 32
  sound_data_offset_uint32 bs h =
      rw (append-nil bs)
        (value_uint32 (take 4 bs) (take-IsByte 4 bs h) (omega (arith, length-take 4 bs)))

module _ ⦃boost : Algorithms⦄ ⦃big : BigEndian⦄ {S : Type 0} {src : Source S} {at : List ℕ → ℕ → S}
    (stops : StopsAtEnd src at) {bytes : List ℕ} (fits : IsFileSize bytes)
    (small : length bytes < 2 ^ 62) where
  pad_string-IsSafe :
      (size : ℕ) (characters : List ℕ) → IsSafe at bytes (pad_string src size characters)
  pad_string-IsSafe size characters =
      if-IsSafe ((size + 1) % 2 == 0) (done-IsSafe (some characters)) (
        bind-IsSafe _ _ (step-IsSafe stops fits 1 (omega arith))
          (λ p. done-IsSafe (some characters)))

  read_characters-IsSafe : (size : ℕ) → IsSafe at bytes (read_characters src size)
  read_characters-IsSafe size = record {
    lands = λ p hp.
        let left = min size (length bytes - p) in
        rw (stops.read_at bytes p size fits hp) (
          if-Lands (not (size == 0))
            (if-Lands (is_complete size (portion size bytes p))
              ((pad_string-IsSafe size (bytes_of (portion size bytes p))).lands (p + left)
                (omega arith))
              ((done-IsSafe none).lands (p + left) (omega arith)))
            ((pad_string-IsSafe size []).lands p hp));
  }

  read_pascal_string-IsSafe : IsSafe at bytes (read_pascal_string src)
  unfolding read_pascal_string
  read_pascal_string-IsSafe = bind-IsSafe _ _ (fetched-IsSafe stops fits (1 ∷ [])) (λ o.
      option-IsSafe o (done-IsSafe none) (λ os. read_characters-IsSafe (big.value (flatten os))))

  read_name-IsSafe : (e : AiffError) → IsSafe at bytes (read_name src e)
  unfolding read_name
  read_name-IsSafe e =
      bind-IsSafe _ _ read_pascal_string-IsSafe
        (λ name. option-IsSafe name (thrown-IsSafe e) (λ s. done-IsSafe tt))

  read_compression-IsSafe : (size width : ℕ) → IsSafe at bytes (read_compression src size width)
  unfolding read_compression
  read_compression-IsSafe size width =
      bind-IsSafe _ _ (fetch_or-IsSafe stops fits (4 ∷ []) no_compression_id) (λ o.
        bind-IsSafe _ _
          (if-IsSafe (ltb 22 size) (read_name-IsSafe no_compressor_name) (done-IsSafe tt))
          (λ u.
            or_throw-IsSafe (compression_format (big.value (flatten o)) width)
              unsupported_compression))

  read_sample_format-IsSafe :
      (sub_type size width : ℕ) → IsSafe at bytes (read_sample_format src sub_type size width)
  unfolding read_sample_format
  read_sample_format-IsSafe sub_type size width =
      if-IsSafe (sub_type == aifc) (read_compression-IsSafe size width)
        (done-IsSafe (signed_integer, width, big_endian))

  read_markers-IsSafe :
      (n : ℕ) (markers : List (ℕ × ℕ)) → IsSafe at bytes (read_markers src n markers)
  unfolding read_markers
  read_markers-IsSafe zero markers = done-IsSafe markers
  read_markers-IsSafe (suc n) markers =
      bind-IsSafe _ _ (fetch_or-IsSafe stops fits (6 ∷ []) invalid_marker) (λ o.
        bind-IsSafe _ _ (read_name-IsSafe invalid_marker)
          (λ u. read_markers-IsSafe n (insert (marker (flatten o)) markers)))

  read_mark-IsSafe : (st : Search) → IsSafe at bytes (read_mark src st)
  unfolding read_mark read_marker_map
  read_mark-IsSafe st = bind-IsSafe _ _ (fetched-IsSafe stops fits (2 ∷ [])) (λ o.
      option-IsSafe o (done-IsSafe st) (λ os.
        if-IsSafe (big.value (flatten os) == 0) (done-IsSafe st) (
          bind-IsSafe _ _ (read_markers-IsSafe (big.value (flatten os)) []) (λ markers.
            done-IsSafe (record st { info = record st.info { marker_map = markers } })))))

  read_inst-IsSafe : (st : Search) → IsSafe at bytes (read_inst src st)
  unfolding read_inst
  read_inst-IsSafe st =
      bind-IsSafe _ _ (fetch_or-IsSafe stops fits (20 ∷ []) no_instrument_chunk)
        (λ o. done-IsSafe _)

  pub read_ssnd-IsSafe : All IsByte bytes → (i : AiffInfo) → IsSafe at bytes (read_ssnd src i)
  unfolding read_ssnd answers flatten
  read_ssnd-IsSafe all i = record {
    lands = λ p hp.
        let r = portion 8 bytes p in
        let q = p + min 8 (length bytes - p) in
        let bound = sound_data_offset_uint32 (bytes_of r) (portion-IsByte bytes 8 p all) in
        rw (fetch-portion (StopsAtEnd-IsFile stops) bytes p 8 fits hp)
          (elim (Bool-cases (is_complete 8 r)) [
            | inl whole ↦ rw whole (
                (bind-IsSafe _ _
                    (step-IsSafe stops fits (sound_data_offset (bytes_of r ++ [])) (omega arith))
                    (λ p. done-IsSafe (with_bit_rate i))).lands
                  q (omega arith))
            | inr short ↦ rw short ((thrown-IsSafe no_ssnd_chunk).lands q (omega arith))
          ]);
  }

  module _ ⦃range : FindIf RuntimeFormat⦄ ⦃ieee : Ieee80⦄ where
    -- A rate is refused, or cast.
    sized_rate-IsSafe :
        {A : Type 0} (x : List ℕ) (f : ℕ → Reader S A)
        → is_sized_rate x ≡ true
        → ((rate : ℕ) → IsSafe at bytes (f rate))
        → IsSafe at bytes (
            throw_if (ieee.not_positive (ieee.to_double x)) invalid_sample_rate
            >> (give (or_undefined (ieee.to_size_t (ieee.to_double x))) >>= f))
    sized_rate-IsSafe x f sized hf = elim (Bool-cases (ieee.not_positive (ieee.to_double x))) [
      | inl refused ↦ rw refused (thrown-IsSafe invalid_sample_rate)
      | inr positive ↦ bind-IsSafe _ _ (throw_if-IsSafe _ invalid_sample_rate) (λ u.
          bind-IsSafe _ _
            (give-IsSafe _
              (cast-answers (ieee.to_size_t (ieee.to_double x)) (rw positive at sized)))
            hf)
    ]

    read_common-IsSafe :
        (sub_type size : ℕ) (c : CommonChunk) (i : AiffInfo)
        → is_sized_rate c.ext_sample_rate ≡ true
        → IsSafe at bytes (read_common src sub_type size c i)
    unfolding read_common
    read_common-IsSafe sub_type size c i sized =
        bind-IsSafe _ _ (read_sample_format-IsSafe sub_type size c.sample_size) (λ f.
          bind-IsSafe _ _
            (give-IsSafe (of_format (of_bits f.0 f.1 f.2))
              (of_format-answers (of_bits f.0 f.1 f.2)))
            (λ format.
              bind-IsSafe _ _ (throw_if-IsSafe (ltb c.num_sample_frames 1) empty_file) (λ u.
                bind-IsSafe _ _
                  (throw_if-IsSafe (ltb c.num_channels 1 || ltb 255 c.num_channels)
                    invalid_num_channels)
                  (λ u'. sized_rate-IsSafe c.ext_sample_rate _ sized (λ rate. done-IsSafe _)))))

    module _ (sub_type : ℕ) (before : List ℕ) (c : Chunk) (after : List ℕ) (k : ℕ) (st : Search)
        (e : bytes ≡ before ++ (c.body ++ after)) (ek : k ≡ length before)
        (whole : c.size ≤ length c.body) where
      read_comm-Lands :
          (ltb c.size 18 || is_sized_rate (rate_in c)) ≡ true
          → Lands at bytes (read_comm src sub_type c.size st (at bytes k))
      unfolding read_comm flatten
      read_comm-Lands sized =
          let inside : k ≤ length bytes =
            omega (
              arith,
              ek,
              ap (λ (b : List ℕ). length b) e,
              length-append before (c.body ++ after),
            ) in
          elim (Bool-cases (ltb c.size 18)) [
            | inl short ↦ rw short ((thrown-IsSafe no_comm_chunk).lands k inside)
            | inr long ↦
                let o = take 18 c.body in
                let rest = drop 18 c.body ++ after in
                let eighteen : 18 ≤ length c.body = ground (arith, long, whole) in
                let lo : 18 ≡ length o = omega (arith, length-take 18 c.body) in
                let split : c.body ++ after ≡ o ++ rest =
                  ap (λ t. t ++ after) (sym (take-append-drop 18 c.body))
                  ∙ append_assoc o (drop 18 c.body) after in
                let e1 : bytes ≡ before ++ (o ++ rest) = e ∙ ap (λ t. before ++ t) split in
                let behind : k + 18 ≤ length bytes = omega (
                  arith,
                  ek,
                  ap (λ (b : List ℕ). length b) e,
                  length-append before (c.body ++ after),
                  length-append c.body after,
                ) in
                rw
                  (
                    long,
                    fetch_one (StopsAtEnd-IsFile stops) bytes before o rest k 18 e1 ek lo
                        (omega arith) fits,
                    append-nil o,
                  )
                  ((read_common-IsSafe sub_type c.size (common_chunk o) st.info
                      (rw long at sized)).lands
                    (k + 18) behind)
          ]

      pub read_body-Lands :
          has_sized_rate c ≡ true
          → Lands at bytes
              (read_body src sub_type (record { id = c.id; size = c.size }) st (at bytes k))
      unfolding read_body
      read_body-Lands sized =
          let inside : k ≤ length bytes =
            omega (
              arith,
              ek,
              ap (λ (b : List ℕ). length b) e,
              length-append before (c.body ++ after),
            ) in
          elim (Bool-cases (c.id == comm)) [
            | inl common ↦ rw common (read_comm-Lands (rw common at sized))
            | inr other ↦ rw other (
                (if-IsSafe (c.id == mark) (read_mark-IsSafe st)
                    (if-IsSafe (c.id == inst) (read_inst-IsSafe st) (done-IsSafe st))).lands
                  k inside)
          ]
