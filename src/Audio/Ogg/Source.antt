-- ===== src/Audio/Ogg/Source.antt =====
-- The class `ogg_source` (ogg_source.h). The callbacks take the client data, which is the `ogg_source`, as the source
-- below, its first member, and so they do here. The assertions are not modelled, nor is what `ov_clear` frees.
-- The loop of `read` has fuel, since nothing but the library's answer ends it.
pub mod Laws
pub mod Info
use ni_media.Common.{
  ℕ, zero, suc, ◌*◌, ◌/◌, ◌-◌, ◌%◌, ◌^◌, Bool, true, false, ◌||◌, Option, none, some, List, [], ◌∷◌,
  ◌++◌, length, ◌==◌, ltb, if◌then◌else◌,
}
use ni_media.Common.Int.{ℤ, pos, negsuc, ◌+ℤ◌, ◌-ℤ◌, ltb_ℤ}
use ni_media.Boost.{Algorithms}
use ni_media.Iostreams.Positioning.{SeekDir, beg, end, cur, absolute_position}
use ni_media.Iostreams.Device.{Read, got, eof, fault, Source}
use ni_media.Pcm.Format.{EndianType, compiletime_format, signed_integer, bit16, little_endian}
use ni_media.Pcm.Runtime.{of_compiletime}
use ni_media.Audio.Info.{
  ContainerType, CodecType, IfstreamInfo, ifstream_info, bytes_per_frame, num_bytes,
}
use ni_media.Audio.Istream.{to_size_t}
use ni_media.Audio.Reader.{
  done, thrown, undefined, out_of_fuel, ◌>>=◌, ◌>>◌, next, give, throw_if, or_throw,
}
use ni_media.Audio.Ogg.Vorbis.{
  OggError, could_not_open, no_vorbis_file, no_vorbis_info, empty_file, invalid_num_channels,
  invalid_sample_rate, Outcome, Reader, VorbisInfo, OvRead, ov_bytes, ov_error, OvCallbacks,
  VorbisFile,
}

pub record OggSource (S V : Type 0) : Type 0 where
  pub source : S
  pub pos : ℤ
  pub vorbis_file : Option V
  pub info : IfstreamInfo

-- `numRead > 0 ? static_cast<size_t>( numRead ) : 0`, with the bytes.
abbrev pub bytes_read : Read → Outcome (List ℕ)
bytes_read (got bs) = done bs
bytes_read eof = done []
bytes_read fault = undefined

-- `seekDirections.at( origin )`, which throws out of range: no origin but these is documented.
abbrev pub seek_direction : ℕ → Option SeekDir
seek_direction zero = some beg
seek_direction (suc zero) = some cur
seek_direction (suc (suc zero)) = some end
seek_direction (suc (suc (suc n))) = none

abbrev pub seek_result : ℤ → ℤ
seek_result (pos n) = pos 0
seek_result (negsuc n) = negsuc 0

module _ {S : Type 0} (src : Source S) where
  unfoldable pub read_callback : ℕ → ℕ → Reader S (List ℕ)
  read_callback element_size element_count s =
      let (r, s') = src.read (element_size * element_count) s in (bytes_read r, s')

  unfoldable pub seek_callback : ℤ → ℕ → Reader S ℤ
  seek_callback offset origin s = elim (seek_direction origin) [
    | none ↦ (undefined, s)
    | some way ↦ let (p, s') = src.seek offset way s in (done (seek_result p), s')
  ]

  unfoldable pub tell_callback : Reader S ℤ
  tell_callback s = let (p, s') = src.seek (pos 0) cur s in (done p, s')

  abbrev pub callbacks : OvCallbacks S
  callbacks = record { read = read_callback; seek = seek_callback; tell = tell_callback }

-- `int( size )`
abbrev pub to_int : ℕ → ℤ
to_int n = if ltb (n % 2 ^ 32) (2 ^ 31) then pos (n % 2 ^ 32) else negsuc (2 ^ 32 - 1 - n % 2 ^ 32)

-- `requested >= 4096 ? 4096 : requested`
abbrev pub chunk : ℤ → ℤ
chunk requested = if ltb_ℤ requested (pos 4096) then requested else pos 4096

abbrev pub ogg_info : ℤ → VorbisInfo → IfstreamInfo
ogg_info num_frames v = record {
  stream = record {
    sample_rate = to_size_t v.rate;
    num_channels = to_size_t v.channels;
    own_bit_rate = to_size_t v.bitrate_nominal;
    format = of_compiletime (compiletime_format signed_integer bit16 little_endian);
  };
  lossless = false;
  num_frames = to_size_t num_frames;
  container = ContainerType.ogg;
  codec = CodecType.vorbis;
}

module _ {S V : Type 0} where
  -- A call of the library on its file and the source below.
  abbrev pub called : {A : Type 0} → Outcome (A × V) × S → Reader (OggSource S V) A
  called r st =
      next r.0 (λ (a, v) st'. (done a, record st' { vorbis_file = some v }))
        (record st { source = r.1 })

  abbrev pub clear_vorbis_file : OggSource S V → OggSource S V
  clear_vorbis_file st = record st { vorbis_file = none }

module _ {S V : Type 0} (src : Source S) (lib : VorbisFile S V) where
  -- The loop of `read`, which gives what it delivers.
  unfoldable pub read_loop : ℕ → ℤ → V → Reader S (List ℕ × V)
  read_loop zero requested v s = (out_of_fuel, s)
  read_loop (suc fuel) requested v s =
      (lib.ov_read (callbacks src) (chunk requested) v >>= λ (ret, v') s'. elim ret [
        | ov_error ↦ (done ([], v'), s')
        | ov_bytes bs ↦
            if ltb 0 (length bs)
            then (read_loop fuel (requested -ℤ pos (length bs)) v' >>= λ (rest, v'').
                  give (done (bs ++ rest, v'')))
                s'
            else (done ([], v'), s')
      ])
        s

  unfoldable pub read : ℕ → ℕ → Reader (OggSource S V) (List ℕ)
  read fuel size st = elim st.vorbis_file [
    | none ↦ (done [], st)
    | some v ↦
        (called (read_loop fuel (to_int size) v st.source) >>= λ bs st'.
        (done bs, record st' { pos = st'.pos +ℤ pos (length bs) }))
          st
  ]

  abbrev pub moved : ℤ → Bool → Reader (OggSource S V) ℤ
  moved p true st = (done p, record st { pos = p })
  moved p false st = (done st.pos, st)

  -- A frame of no bytes divides by zero.
  unfoldable pub seek : ⦃boost : Algorithms⦄ → ℤ → SeekDir → Reader (OggSource S V) ℤ
  seek off way st = elim st.vorbis_file [
    | none ↦ (thrown no_vorbis_file, st)
    | some v ↦
        let p = absolute_position st.pos (pos 0) (pos (num_bytes st.info)) off way in
        let frame = bytes_per_frame st.info.stream in
        if frame == 0
        then (undefined, st)
        else (called (lib.ov_pcm_seek (callbacks src) (to_size_t p / frame) v st.source)
              >>= moved p)
            st
  ]

  unfoldable pub check_info : V → VorbisInfo → Reader (OggSource S V) (Unit {0})
  check_info v vinfo =
      throw_if (ltb_ℤ (lib.ov_pcm_total v) (pos 1)) empty_file
      >> throw_if (ltb_ℤ vinfo.channels (pos 1) || ltb_ℤ (pos 255) vinfo.channels)
          (invalid_num_channels vinfo.channels)
      >> throw_if (ltb_ℤ vinfo.rate (pos 8000) || ltb_ℤ (pos 192000) vinfo.rate)
          (invalid_sample_rate vinfo.rate)

  unfoldable pub read_info : Reader (OggSource S V) (Unit {0})
  read_info st = elim st.vorbis_file [
    | none ↦ (thrown no_vorbis_file, st)
    | some v ↦
        (give (or_throw (lib.ov_info v) no_vorbis_info) >>= λ vinfo. check_info v vinfo >> λ st'.
        (done tt, record st' { info = ogg_info (lib.ov_pcm_total v) vinfo }))
          st
  ]

  -- The constructor.
  unfoldable pub open_ogg :
      EndianType → ContainerType → CodecType → S → Outcome (Unit {0}) × OggSource S V
  open_ogg native_endian unset_container unset_codec s =
      let (r, s') = lib.ov_open_callbacks (callbacks src) s in
      let st : OggSource S V = clear_vorbis_file (record {
        source = s';
        pos = pos 0;
        vorbis_file = none;
        info = ifstream_info native_endian unset_container unset_codec;
      }) in
      next r
        (λ opened st'. elim opened [
          | none ↦ (thrown could_not_open, st')
          | some v ↦ read_info (record st' { vorbis_file = some v })
        ])
        st
