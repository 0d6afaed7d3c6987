-- ===== src/Audio/Aiff/Header.antt =====
-- `readAiffHeader` (aiff_source.h). Both loops over the chunks have fuel, as in the WAV reader.
pub mod Safe
pub mod Turns
pub mod Answers
pub mod Loop
pub mod Passed
pub mod Common
pub mod Whole
use ni_media.Common.{
  ℕ, zero, suc, ◌+◌, ◌-◌, ◌*◌, ◌%◌, ◌^◌, Bool, true, false, not, ◌||◌, ◌&&◌, Option, none, some,
  List, [], ◌∷◌, ltb, ◌==◌, if◌then◌else◌,
}
use ni_media.Common.Int.{ℤ, pos}
use ni_media.Boost.{Algorithms, FindIf, BigEndian}
use ni_media.Iostreams.Positioning.{beg, cur}
use ni_media.Iostreams.Device.{Read, Source}
use ni_media.Iostreams.Fetch.{is_complete, bytes_of}
use ni_media.Pcm.Format.{
  NumberType, EndianType, big_endian, little_endian, signed_integer, unsigned_integer,
  floating_point,
}
use ni_media.Pcm.Runtime.{FormatError, Result, ok, throw, RuntimeFormat, of_bits}
use ni_media.Audio.Info.{ContainerType, CodecType, StreamInfo, stream_info, size_t, bits_per_sample}
use ni_media.Audio.Ieee80.{Ieee80}
use ni_media.Audio.Reader as Reading
use ni_media.Audio.Reader.{
  done, thrown, undefined, out_of_fuel, ◌>>=◌, ◌>>◌, give, throw_if, or_throw, or_undefined,
  to_uint32, fetched, fetch_or, sought,
}
use ni_media.Audio.Aiff.Chunks.{
  Tag, CommonChunk, AiffInfo, form, aifc, comm, mark, inst, ssnd, none_, raw, twos, sowt, fl32,
  upper_fl32, fl64, upper_fl64, in24, in32, common_chunk, marker, instrument_chunk,
  sound_data_offset, insert,
}
use mathlib.Core.List.{flatten}

-- The `std::runtime_error`s, in the order of their places in the source.
pub data AiffError : Type 0 where
  no_form_tag no_comm_chunk no_compression_id no_compressor_name unsupported_compression : AiffError
  invalid_format : FormatError → AiffError
  empty_file invalid_num_channels invalid_sample_rate invalid_marker no_instrument_chunk
        missing_comm_chunk no_ssnd_chunk missing_ssnd_chunk :
      AiffError

abbrev pub Outcome : Type 0 → Type 0
Outcome A = Reading.Outcome AiffError A

abbrev pub Reader : Type 0 → Type 0 → Type 0
Reader S A = Reading.Reader AiffError S A

abbrev pub of_format : {A : Type 0} → Result A → Outcome A
of_format (ok a) = done a
of_format (throw e) = thrown (invalid_format e)

-- A new `aiff_ifstream_info`.
abbrev pub aiff_info : EndianType → AiffInfo
aiff_info native_endian = record {
  info = record {
    stream = stream_info native_endian;
    lossless = true;
    num_frames = 0;
    container = ContainerType.aiff;
    codec = CodecType.aiff;
  };
  marker_map = [];
  instrument = none;
}

-- The number type, the width and the byte order of a kind of compression, for samples of some width.
unfoldable pub compression_format : ℕ → ℕ → Option (NumberType × ℕ × EndianType)
compression_format tag width =
    if tag == none_ || tag == twos || tag == in24 || tag == in32
    then some (signed_integer, width, big_endian)
    else if tag == sowt
    then some (signed_integer, width, little_endian)
    else if tag == raw
    then some (unsigned_integer, width, big_endian)
    else if tag == fl32 || tag == upper_fl32
    then some (floating_point, 32, big_endian)
    else if tag == fl64 || tag == upper_fl64
    then some (floating_point, 64, big_endian)
    else none

-- `info`, and whether the common chunk was found.
pub record Search : Type 0 where
  pub info : AiffInfo
  pub comm_found : Bool

-- The loop over the chunks ends where no further tag can be fetched.
pub data Progress : Type 0 where
  ended more : Search → Progress

-- Where the next chunk starts: the sum of the `uint32_t`s wraps, the padding is added as a `size_t`.
unfoldable pub next_chunk : ℕ → ℕ → ℕ
next_chunk current size =
    (current + size) % 2 ^ 32 + (if not (size % 2 == 0) then 2 - size % 2 else 0)

abbrev pub with_bit_rate : AiffInfo → AiffInfo
with_bit_rate i =
    let stream = i.info.stream in
    record i {
      info = record i.info {
        stream = record stream {
          own_bit_rate =
              size_t (size_t (stream.sample_rate * stream.num_channels) * bits_per_sample stream);
        };
      };
    }

module _ ⦃boost : Algorithms⦄ ⦃big : BigEndian⦄ {S : Type 0} (src : Source S) where
  abbrev pub big_tag : Option (List (List ℕ)) → Option Tag
  big_tag (some (id ∷ size ∷ [])) = some (record { id = big.value id; size = big.value size })
  big_tag _ = none

  -- The sub-type, if the three numbers were fetched and the first is "FORM".
  abbrev pub form_tag : Option (List (List ℕ)) → Option ℕ
  form_tag (some (id ∷ size ∷ sub ∷ [])) =
      if big.value id == form then some (big.value sub) else none
  form_tag _ = none

  abbrev pad_string : ℕ → List ℕ → Reader S (Option (List ℕ))
  pad_string size characters =
      if (size + 1) % 2 == 0
      then give (done (some characters))
      else (sought src (pos 1) cur >>= λ _. give (done (some characters)))

  abbrev read_characters : ℕ → Reader S (Option (List ℕ))
  read_characters size s =
      let (r, s') = src.read size s in
      if not (size == 0)
      then (if is_complete size r then pad_string size (bytes_of r) s' else (done none, s'))
      else pad_string size [] s

  unfoldable pub read_pascal_string : Reader S (Option (List ℕ))
  read_pascal_string = do
    o ← fetched src (1 ∷ [])
    elim o [ none ↦ give (done none) | some os ↦ read_characters (big.value (flatten os)) ]

  -- The name is read and left aside.
  unfoldable pub read_name : AiffError → Reader S (Unit {0})
  read_name e = do
    name ← read_pascal_string
    elim name [ none ↦ give (thrown e) | some s ↦ give (done tt) ]

  -- The sub-type AIFC comes with a kind of compression.
  unfoldable pub read_compression : ℕ → ℕ → Reader S (NumberType × ℕ × EndianType)
  read_compression size width = do
    o ← fetch_or src (4 ∷ []) no_compression_id
    if ltb 22 size then read_name no_compressor_name else give (done tt)
    give (or_throw (compression_format (big.value (flatten o)) width) unsupported_compression)

  unfoldable pub read_sample_format : ℕ → ℕ → ℕ → Reader S (NumberType × ℕ × EndianType)
  read_sample_format sub_type size width =
      if sub_type == aifc
      then read_compression size width
      else give (done (signed_integer, width, big_endian))

  -- What a common chunk says, with what may follow in it.
  unfoldable pub read_common :
      ⦃range : FindIf RuntimeFormat⦄ ⦃ieee : Ieee80⦄
      → ℕ
      → ℕ
      → CommonChunk
      → AiffInfo
      → Reader S Search
  read_common ⦃ieee = ieee⦄ sub_type size c i = do
    f ← read_sample_format sub_type size c.sample_size
    format ← give (of_format (of_bits f.0 f.1 f.2))
    throw_if (ltb c.num_sample_frames 1) empty_file
    throw_if (ltb c.num_channels 1 || ltb 255 c.num_channels) invalid_num_channels
    let rate = ieee.to_double c.ext_sample_rate
    throw_if (ieee.not_positive rate) invalid_sample_rate
    sample_rate ← give (or_undefined (ieee.to_size_t rate))
    give (
        done (record {
          info = record i {
            info = record i.info {
              num_frames = c.num_sample_frames;
              stream = record i.info.stream {
                format = format;
                num_channels = c.num_channels;
                sample_rate = sample_rate;
              };
            };
          };
          comm_found = true;
        }))

  unfoldable pub read_comm :
      ⦃range : FindIf RuntimeFormat⦄ ⦃ieee : Ieee80⦄ → ℕ → ℕ → Search → Reader S Search
  read_comm sub_type size st = do
    throw_if (ltb size 18) no_comm_chunk
    o ← fetch_or src (18 ∷ []) no_comm_chunk
    read_common sub_type size (common_chunk (flatten o)) st.info

  unfoldable pub read_markers : ℕ → List (ℕ × ℕ) → Reader S (List (ℕ × ℕ))
  read_markers zero markers = give (done markers)
  read_markers (suc n) markers = do
    o ← fetch_or src (6 ∷ []) invalid_marker
    read_name invalid_marker
    read_markers n (insert (marker (flatten o)) markers)

  -- The markers take the place of those that were read before.
  unfoldable pub read_marker_map : ℕ → Search → Reader S Search
  read_marker_map n st = if n == 0 then give (done st) else do
    markers ← read_markers n []
    give (done (record st { info = record st.info { marker_map = markers } }))

  unfoldable pub read_mark : Search → Reader S Search
  read_mark st = do
    o ← fetched src (2 ∷ [])
    elim o [ none ↦ give (done st) | some os ↦ read_marker_map (big.value (flatten os)) st ]

  unfoldable pub read_inst : Search → Reader S Search
  read_inst st = do
    o ← fetch_or src (20 ∷ []) no_instrument_chunk
    give (
        done (record st {
          info = record st.info { instrument = some (instrument_chunk (flatten o)) };
        }))

  -- The chunk with a tag, at the position behind the tag.
  unfoldable pub read_body :
      ⦃range : FindIf RuntimeFormat⦄ ⦃ieee : Ieee80⦄ → ℕ → Tag → Search → Reader S Search
  read_body sub_type tag st =
      if tag.id == comm
      then read_comm sub_type tag.size st
      else if tag.id == mark
      then read_mark st
      else if tag.id == inst
      then read_inst st
      else give (done st)

  -- One turn of the first loop.
  unfoldable pub read_chunk :
      ⦃range : FindIf RuntimeFormat⦄ ⦃ieee : Ieee80⦄ → ℕ → Search → Reader S Progress
  read_chunk sub_type st = do
    t ← fetched src (4 ∷ 4 ∷ [])
    elim (big_tag t) [
      | none ↦ give (done (ended st))
      | some tag ↦ do
        offset ← sought src (pos 0) cur
        st' ← read_body sub_type tag st
        p ← sought src (pos (next_chunk (to_uint32 offset) tag.size)) beg
        give (done (more st'))
    ]

  unfoldable pub read_chunks :
      ⦃range : FindIf RuntimeFormat⦄ ⦃ieee : Ieee80⦄ → ℕ → ℕ → Search → Reader S Search
  read_chunks sub_type zero st = give out_of_fuel
  read_chunks sub_type (suc fuel) st = do
    p ← read_chunk sub_type st
    elim p [ ended st' ↦ give (done st') | more st' ↦ read_chunks sub_type fuel st' ]

  -- The sound data: the position goes to the samples.
  unfoldable pub read_ssnd : AiffInfo → Reader S AiffInfo
  read_ssnd i = do
    o ← fetch_or src (8 ∷ []) no_ssnd_chunk
    p ← sought src (pos (sound_data_offset (flatten o))) cur
    give (done (with_bit_rate i))

  -- One turn of the second loop; `none` where it goes on.
  unfoldable pub found_or_next : ℕ → Tag → AiffInfo → Reader S (Option AiffInfo)
  found_or_next current tag i =
      if tag.id == ssnd
      then (read_ssnd i >>= λ i'. give (done (some i')))
      else (sought src (pos (next_chunk current tag.size)) beg >>= λ _. give (done none))

  unfoldable pub find_chunk : AiffInfo → Reader S (Option AiffInfo)
  find_chunk i = do
    t ← fetched src (4 ∷ 4 ∷ [])
    elim (big_tag t) [
      | none ↦ give (thrown missing_ssnd_chunk)
      | some tag ↦ do offset ← sought src (pos 0) cur; found_or_next (to_uint32 offset) tag i
    ]

  unfoldable pub find_ssnd : ℕ → AiffInfo → Reader S AiffInfo
  find_ssnd zero i = give out_of_fuel
  find_ssnd (suc fuel) i = do
    r ← find_chunk i
    elim r [ none ↦ find_ssnd fuel i | some i' ↦ give (done i') ]

  -- Both searches start behind the FORM tag.
  unfoldable pub read_aiff_header :
      ⦃range : FindIf RuntimeFormat⦄ ⦃ieee : Ieee80⦄ → EndianType → ℕ → Reader S AiffInfo
  read_aiff_header native_endian fuel = do
    start ← sought src (pos 0) beg
    t ← fetched src (4 ∷ 4 ∷ 4 ∷ [])
    sub_type ← give (or_throw (form_tag t) no_form_tag)
    form_offset ← sought src (pos 0) cur
    st ← read_chunks sub_type fuel (record { info = aiff_info native_endian; comm_found = false })
    throw_if (not st.comm_found) missing_comm_chunk
    back ← sought src form_offset beg
    find_ssnd fuel st.info
