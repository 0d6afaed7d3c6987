-- ===== src/Audio/Aiff/Header/Loop.antt =====
-- Files whose header the first loop never leaves: where the end of a chunk, as a `uint32_t`, wraps around to
-- the start of that chunk.
use ni_media.Common.{
  ℕ, zero, suc, ◌+◌, ◌-◌, ◌^◌, ◌≤◌, ◌<◌, ◌≡◌, refl, sym, ◌∙◌, arith, Bool, false, List, ◌++◌,
  length, length-append, ◌==◌, ◌||◌,
}
use ni_media.Boost.{Algorithms, FindIf, BigEndian, value-object}
use ni_media.Iostreams.Device.{Source}
use ni_media.Iostreams.File.{IsFile, IsFileSize}
use ni_media.Pcm.Format.{EndianType}
use ni_media.Pcm.Runtime.{RuntimeFormat}
use ni_media.Audio.Ieee80.{Ieee80}
use ni_media.Audio.Reader.{done, out_of_fuel}
use ni_media.Audio.Aiff.Chunks.{form, comm, mark, inst}
use ni_media.Audio.Aiff.Header.{
  Search, more, next_chunk, read_body, read_chunk, read_chunks, read_aiff_header, aiff_info,
}
use ni_media.Audio.Aiff.Header.Turns.{tag, tag_inside, read_chunk-tag}
use ni_media.Audio.Aiff.Layout.{
  tag_bytes, length-tag_bytes, form_bytes, length-form_bytes, fetch_form,
}

-- The chunks that the first loop looks into.
abbrev pub is_read : ℕ → Bool
is_read id = id == comm || (id == mark || id == inst)

-- A file whose first chunk claims to be of 2^32 - 8 bytes.
abbrev pub looping_file : ⦃big : BigEndian⦄ → ℕ → ℕ → ℕ → List ℕ → List ℕ
looping_file size sub_type id after =
    form_bytes form size sub_type ++ (tag_bytes id (2 ^ 32 - 8) ++ after)

module _ ⦃boost : Algorithms⦄ ⦃big : BigEndian⦄ ⦃range : FindIf RuntimeFormat⦄ ⦃ieee : Ieee80⦄
    {S : Type 0} {src : Source S} {at : List ℕ → ℕ → S} (file : IsFile src at) where
  -- The body of a chunk that is passed over.
  pub read_body-skip :
      (sub_type id size : ℕ) (st : Search) (s : S)
      → is_read id ≡ false
      → read_body src sub_type (tag id size) st s ≡ (done st, s)
  unfolding read_body
  read_body-skip sub_type id size st s unread =
      let n1 : (id == comm) ≡ false = ground (arith, unread) in
      let n2 : (id == mark) ≡ false = ground (arith, unread) in
      let n3 : (id == inst) ≡ false = ground (arith, unread) in rw (n1, n2, n3) refl

  -- A turn at a chunk that is passed over goes where `next_chunk` says.
  pub read_chunk-skip :
      (bytes before : List ℕ) (id size : ℕ) (after : List ℕ) (k sub_type : ℕ) (st : Search)
      → bytes ≡ before ++ (tag_bytes id size ++ after)
      → k ≡ length before
      → IsFileSize bytes
      → id < 2 ^ 32
      → size < 2 ^ 32
      → k + 8 < 2 ^ 32
      → is_read id ≡ false
      → next_chunk (k + 8) size < 2 ^ 63
      → next_chunk (k + 8) size ≤ length bytes
      → read_chunk src sub_type st (at bytes k)
        ≡ (done (more st), at bytes (next_chunk (k + 8) size))
  read_chunk-skip bytes before id size after k sub_type st e ek fits hid hsize small unread low
        there =
      let inside = tag_inside file bytes before id size after k e ek in
      read_chunk-tag file bytes before id size after k sub_type st e ek fits hid hsize small
      ∙ rw
          (
            read_body-skip sub_type id size st (at bytes (k + 8)) unread,
            file.seek_at bytes (k + 8) (next_chunk (k + 8) size) fits inside there,
          )
          refl

  read_chunks_stays :
      (bytes : List ℕ) (k sub_type fuel : ℕ) (st : Search)
      → read_chunk src sub_type st (at bytes k) ≡ (done (more st), at bytes k)
      → read_chunks src sub_type fuel st (at bytes k) ≡ (out_of_fuel, at bytes k)
  unfolding read_chunks
  read_chunks_stays bytes k sub_type zero st h = refl
  read_chunks_stays bytes k sub_type (suc fuel) st h =
      rw h (read_chunks_stays bytes k sub_type fuel st h)

  -- On any source that behaves as a file, and from any position in it, the reader of AIFF headers
  -- does not return, however many turns it is given, if the first chunk of the file is of a kind
  -- that the first loop passes over and its size field is 2^32 - 8: the seek wraps around to that
  -- chunk again.
  pub read_aiff_header_diverges :
      (native_endian : EndianType) (size sub_type id : ℕ) (after : List ℕ) (p fuel : ℕ)
      → p ≤ length (looping_file size sub_type id after)
      → IsFileSize (looping_file size sub_type id after)
      → sub_type < 2 ^ 32
      → id < 2 ^ 32
      → is_read id ≡ false
      → read_aiff_header src native_endian fuel (at (looping_file size sub_type id after) p)
        ≡ (out_of_fuel, at (looping_file size sub_type id after) 12)
  unfolding read_aiff_header next_chunk
  read_aiff_header_diverges native_endian size sub_type id after p fuel hp fits hsub hid unread =
      let rest = tag_bytes id (2 ^ 32 - 8) ++ after in
      let header = form_bytes form size sub_type in
      let bytes = header ++ rest in
      let l = length-form_bytes form size sub_type in
      let inside : 20 ≤ length bytes = omega (
        arith,
        length-append header rest,
        length-append (tag_bytes id (2 ^ 32 - 8)) after,
        length-tag_bytes id (2 ^ 32 - 8),
      ) in
      let st : Search = record { info = aiff_info native_endian; comm_found = false } in
      rw
        (
          file.seek_at bytes p 0 fits hp (omega arith),
          fetch_form file bytes form size sub_type rest refl fits,
          value-object 4 form (omega arith),
          value-object 4 sub_type hsub,
          file.tell_at bytes 12 fits (omega arith),
          read_chunks_stays bytes 12 sub_type fuel st (
              read_chunk-skip bytes header id (2 ^ 32 - 8) after 12 sub_type st refl (sym l) fits
                hid (omega arith) (omega arith) unread (omega arith) (omega arith)),
        )
        refl
