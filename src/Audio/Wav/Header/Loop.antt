-- ===== src/Audio/Wav/Header/Loop.antt =====
-- Files whose header the loop never leaves: where the end of a chunk, as a `uint32_t`, wraps around to the
-- start of that chunk.
use ni_media.Common.{
  ℕ, zero, suc, ◌+◌, ◌-◌, ◌^◌, ◌≤◌, ◌<◌, ◌≡◌, refl, sym, ◌∙◌, arith, false, List, [], ◌++◌,
  append_assoc, length, length-append, ◌==◌,
}
use ni_media.Common.Bytes.{le_bytes, le_value, le_value-le_bytes, length-le_bytes}
use ni_media.Boost.{Algorithms, FindIf}
use ni_media.Iostreams.Device.{Source}
use ni_media.Iostreams.File.{IsFile, IsFileSize}
use ni_media.Pcm.Format.{EndianType}
use ni_media.Pcm.Runtime.{RuntimeFormat}
use ni_media.Audio.Wav.Chunks.{WavInfo, riff, wave, fmt_, data_, smpl, inst}
use ni_media.Audio.Wav.Reader.{done, out_of_fuel}
use ni_media.Audio.Wav.Header.{
  wav_info, read_body, seek_next, next_chunk, read_chunk, read_chunks, read_wav_header, more,
}
use ni_media.Audio.Wav.Header.Laws.{
  chunk, tag_bytes, length-tag_bytes, behind_tag, fetch_one, fetch_tag, tag_inside, read_chunk-body,
}
use ni_media.Audio.Wav.Header.Turns.{is_known}

-- A file whose first chunk claims to be of 2^32 - 9 bytes.
abbrev pub looping_file : ℕ → ℕ → List ℕ → List ℕ
looping_file riff_size id after =
    chunk riff riff_size (le_bytes 4 wave ++ chunk id (2 ^ 32 - 9) after)

module _ ⦃boost : Algorithms⦄ ⦃range : FindIf RuntimeFormat⦄ (native_endian : EndianType)
    {S : Type 0} {src : Source S} {at : List ℕ → ℕ → S} (file : IsFile src at) where
  -- A turn of the loop that comes back to where it started.
  read_chunk_stays :
      (bytes before : List ℕ) (id size : ℕ) (after : List ℕ) (k : ℕ) (i : WavInfo)
      → bytes ≡ before ++ chunk id size after
      → k ≡ length before
      → IsFileSize bytes
      → id < 2 ^ 32
      → is_known id ≡ false
      → 0 < size
      → size < 2 ^ 32
      → k + 8 < 2 ^ 32
      → next_chunk (k + 8) size ≡ k
      → read_chunk native_endian src i (at bytes k) ≡ (done (more i), at bytes k)
  unfolding read_body seek_next
  read_chunk_stays bytes before id size after k i e ek fits hid unknown some_size hsize small back =
      let inside = tag_inside file bytes before id size after k e ek in
      let n1 : (id == fmt_) ≡ false = ground (arith, unknown) in
      let n2 : (id == data_) ≡ false = ground (arith, unknown) in
      let n3 : (id == smpl) ≡ false = ground (arith, unknown) in
      let n4 : (id == inst) ≡ false = ground (arith, unknown) in
      read_chunk-body file native_endian bytes before id size after k i e ek fits hid some_size
        hsize small
      ∙ rw (n1, n2, n3, n4, back, file.seek_at bytes (k + 8) k fits inside (omega arith)) refl

  -- From there on the loop takes whatever fuel it has.
  read_chunks_stays :
      (bytes : List ℕ) (k fuel : ℕ) (i : WavInfo)
      → read_chunk native_endian src i (at bytes k) ≡ (done (more i), at bytes k)
      → read_chunks native_endian src fuel i (at bytes k) ≡ (out_of_fuel, at bytes k)
  unfolding read_chunks
  read_chunks_stays bytes k zero i h = refl
  read_chunks_stays bytes k (suc fuel) i h = rw h (read_chunks_stays bytes k fuel i h)

  -- On any source that behaves as a file, and from any position in it, the header's reader does not
  -- return, however many turns it is given, if the first chunk of the file is of an unknown kind
  -- and its size field is 2^32 - 9: the seek wraps around to that chunk again.
  pub read_wav_header_diverges :
      (riff_size id : ℕ) (after : List ℕ) (p fuel : ℕ)
      → p ≤ length (looping_file riff_size id after)
      → IsFileSize (looping_file riff_size id after)
      → id < 2 ^ 32
      → is_known id ≡ false
      → read_wav_header native_endian src fuel (at (looping_file riff_size id after) p)
        ≡ (out_of_fuel, at (looping_file riff_size id after) 12)
  unfolding read_wav_header next_chunk
  read_wav_header_diverges riff_size id after p fuel hp fits hid unknown =
      let rest = chunk id (2 ^ 32 - 9) after in
      let bytes = chunk riff riff_size (le_bytes 4 wave ++ rest) in
      let tag = tag_bytes riff riff_size in
      let lt = length-tag_bytes riff riff_size in
      let e2 = behind_tag bytes [] riff riff_size (le_bytes 4 wave ++ rest) refl in
      let e3 : bytes ≡ (tag ++ le_bytes 4 wave) ++ rest =
        e2 ∙ sym (append_assoc tag (le_bytes 4 wave) rest) in
      let l3 : 12 ≡ length (tag ++ le_bytes 4 wave) =
        omega (arith, length-append tag (le_bytes 4 wave), length-le_bytes 4 wave) in
      let riff_back : le_value (le_bytes 4 riff) ≡ riff = le_value-le_bytes 4 riff (omega arith) in
      let wave_back : le_value (le_bytes 4 wave) ≡ wave = le_value-le_bytes 4 wave (omega arith) in
      let wave_size = length-le_bytes 4 wave in
      rw
        (
          file.seek_at bytes p 0 fits hp (omega arith),
          fetch_tag file bytes [] riff riff_size (le_bytes 4 wave ++ rest) 0 refl refl fits,
          riff_back,
          fetch_one file bytes tag (le_bytes 4 wave) rest 8 4 e2 (sym lt) (sym wave_size)
              (omega arith) fits,
          wave_back,
        )
        (read_chunks_stays bytes 12 fuel (wav_info native_endian) (
          read_chunk_stays bytes (tag ++ le_bytes 4 wave) id (2 ^ 32 - 9) after 12
            (wav_info native_endian) e3 l3 fits hid unknown (omega arith) (omega arith)
            (omega arith) refl))
