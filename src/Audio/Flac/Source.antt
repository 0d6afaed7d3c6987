-- ===== src/Audio/Flac/Source.antt =====
-- The class `flac_source` (flac_source.h). The assertions on the sizes of reads and seeks are not modelled, nor
-- is the destructor. The loop of `read` has fuel: a decoder may deliver empty blocks for ever.
pub mod Laws
pub mod Position
pub mod Reading
use ni_media.Common.{
  ℕ, zero, suc, ◌+◌, ◌-◌, ◌/◌, ◌%◌, Bool, true, false, not, ◌&&◌, Option, none, some, List, [],
  ◌++◌, length, take, drop, min, ◌==◌, ltb, if◌then◌else◌,
}
use ni_media.Common.Int.{ℤ, pos, negsuc, ◌+ℤ◌}
use ni_media.Boost.{Algorithms, FindIf}
use ni_media.Iostreams.Positioning.{SeekDir, beg, end, cur, absolute_position}
use ni_media.Iostreams.Device.{Read, got, eof, fault, Source}
use ni_media.Pcm.Format.{EndianType}
use ni_media.Pcm.Runtime.{RuntimeFormat}
use ni_media.Audio.Info.{
  ContainerType, CodecType, ifstream_info, size_t, bytes_per_sample, bytes_per_frame, num_bytes,
}
use ni_media.Audio.Istream.{to_size_t}
use ni_media.Audio.Reader.{
  done, thrown, undefined, out_of_fuel, ◌>>=◌, ◌>>◌, next, give, throw_if, or_throw,
}
use ni_media.Audio.Flac.Decoder.{
  Outcome, Reader, Callbacks, StreamDecoder, Frame, ReadStatus, read_continue, read_end_of_stream,
  read_abort, SeekStatus, seek_ok, seek_error, WriteStatus, write_continue, write_abort, InitStatus,
  init_ok, error_opening_file, other_status, DecoderState, end_of_stream, other_state, no_decoder,
  opening_failed, not_initialized, no_metadata,
}
use ni_media.Audio.Flac.Interleave.{interleave}
use ni_media.Audio.Flac.Metadata.{FlacSource, metadata_callback}

abbrev pub read_status : Read → Outcome (ReadStatus × List ℕ)
read_status eof = done (read_abort, [])
read_status fault = undefined
read_status (got bs) =
    if length bs == 0 then done (read_end_of_stream, []) else done (read_continue, bs)

abbrev pub told : ℤ → Option ℕ
told (pos n) = some n
told (negsuc n) = none

abbrev pub is_negative : ℤ → Bool
is_negative (pos n) = false
is_negative (negsuc n) = true

abbrev pub init_error : InitStatus → Outcome (Unit {0})
init_error init_ok = done tt
init_error error_opening_file = thrown opening_failed
init_error other_status = thrown not_initialized

abbrev pub at_end_of_stream : DecoderState → Bool
at_end_of_stream end_of_stream = true
at_end_of_stream other_state = false

-- A constructor that throws leaves no object.
abbrev pub opened : {X : Type 0} → Outcome (Unit {0}) × X → Outcome X
opened r = elim r.0 [
  | done _ ↦ done r.1
  | thrown e ↦ thrown e
  | undefined ↦ undefined
  | out_of_fuel ↦ out_of_fuel
]

-- The lambda of the constructor that turns the result of `writeCallbackImpl` into a status.
abbrev pub write_status : Bool → WriteStatus
write_status b = if not b then write_abort else write_continue

module _ {S D : Type 0} where
  abbrev keep_source : {A : Type 0} → Outcome A → S → FlacSource S D → Outcome A × FlacSource S D
  keep_source r s st = (r, record st { source = s })

  abbrev pub fill : Option (List ℕ) → Reader (FlacSource S D) Bool
  fill none st = (undefined, st)
  fill (some bytes) st = (done true, record st { buffer = bytes; audio_block_available = true })

  unfoldable pub write_callback : Frame → Reader (FlacSource S D) Bool
  write_callback frame st =
      fill
        (interleave frame (bytes_per_sample st.info.stream) st.info.stream.num_channels st.buffer)
        st

module _ {S D : Type 0} (src : Source S) where
  unfoldable pub read_callback : ℕ → Reader (FlacSource S D) (ReadStatus × List ℕ)
  read_callback bytes st =
      if ltb 0 bytes
      then (let (r, s) = src.read bytes st.source in keep_source (read_status r) s st)
      else (done (read_abort, []), st)

  -- The offset is a `FLAC__uint64` below 2^63.
  unfoldable pub seek_callback : ℕ → Reader (FlacSource S D) SeekStatus
  seek_callback absolute_byte_offset st =
      let (p, s) = src.seek (pos absolute_byte_offset) beg st.source in
      keep_source (done (if is_negative p then seek_error else seek_ok)) s st

  unfoldable pub tell_callback : Reader (FlacSource S D) (Option ℕ)
  tell_callback st = let (p, s) = src.seek (pos 0) cur st.source in keep_source (done (told p)) s st

  unfoldable pub length_callback : Reader (FlacSource S D) (Option ℕ)
  length_callback st =
      let (p, s) = src.seek (pos 0) end st.source in keep_source (done (told p)) s st

  unfoldable pub eof_callback : Reader (FlacSource S D) Bool
  eof_callback st =
      let (p, s) = src.seek (pos 0) cur st.source in keep_source (done (is_negative p)) s st

  module _ ⦃range : FindIf RuntimeFormat⦄ where
    -- What the constructor gives the decoder.
    abbrev pub callbacks : Callbacks (FlacSource S D)
    callbacks = record {
      read = read_callback;
      seek = seek_callback;
      tell = tell_callback;
      length = length_callback;
      eof = eof_callback;
      write = λ frame. write_callback frame >>= λ b. give (done (write_status b));
      metadata = metadata_callback src;
      error = give (done tt);
    }

    module _ (lib : StreamDecoder (FlacSource S D) D) where
      -- A call of the decoder, which is changed by it.
      abbrev pub called :
          {A : Type 0} → (D → Reader (FlacSource S D) (A × D)) → Reader (FlacSource S D) A
      called f st = (f st.decoder >>= λ (a, d) st'. (done a, record st' { decoder = d })) st

      abbrev process_single : Reader (FlacSource S D) Bool
      process_single = called (lib.process_single callbacks)

      unfoldable pub samples_available : Reader (FlacSource S D) Bool
      samples_available st =
          if st.audio_block_available
          then (done true, st)
          else (process_single >>= λ ok st'.
                (done (ok && not (at_end_of_stream (lib.get_state st'.decoder))), st'))
              st

      -- One turn of the loop: at most the bytes that are asked for.
      unfoldable pub copy_block : ℕ → FlacSource S D → List ℕ × FlacSource S D
      copy_block wanted st =
          let to_copy = min (length st.buffer - st.buffer_offset) wanted in
          let offset = st.buffer_offset + to_copy in
          let at_end = offset == length st.buffer in
          (
            take to_copy (drop st.buffer_offset st.buffer),
            record st {
              buffer_offset = if at_end then 0 else offset;
              audio_block_available = if at_end then false else st.audio_block_available;
            },
          )

      -- The loop, with the bytes that are still wanted. It gives what it delivers. An offset behind the buffer is
      -- an access out of range.
      unfoldable pub read_loop : ℕ → ℕ → Reader (FlacSource S D) (List ℕ)
      read_loop fuel zero st = (done [], st)
      read_loop zero (suc wanted) st = (out_of_fuel, st)
      read_loop (suc fuel) (suc wanted) st =
          (samples_available >>= λ more st'. elim more [
            | false ↦ (done [], st')
            | true ↦
                let (bs, st'') = copy_block (suc wanted) st' in
                let rest = read_loop fuel (suc wanted - length bs) st'' in
                if ltb (length st'.buffer) st'.buffer_offset
                then (undefined, st')
                else next rest.0 (λ more_bytes. give (done (bs ++ more_bytes))) rest.1
          ])
            st

      unfoldable pub read : ℕ → ℕ → Reader (FlacSource S D) (List ℕ)
      read fuel n =
          read_loop fuel n >>= λ bs st. (done bs, record st { pos = st.pos +ℤ pos (length bs) })

      abbrev pub moved : ℤ → ℕ → Bool → Reader (FlacSource S D) ℤ
      moved p byte_offset true st = (done p, record st { pos = p; buffer_offset = byte_offset })
      moved p byte_offset false st = (done st.pos, st)

      -- A frame of no bytes divides by zero.
      unfoldable pub seek : ⦃boost : Algorithms⦄ → ℤ → SeekDir → Reader (FlacSource S D) ℤ
      seek off way st =
          let p = absolute_position st.pos (pos 0) (pos (num_bytes st.info)) off way in
          let frame = bytes_per_frame st.info.stream in
          if frame == 0
          then (undefined, st)
          else (called (lib.seek_absolute callbacks (to_size_t p / frame))
                >>= moved p (to_size_t p % frame))
              st

      -- The constructor.
      abbrev new_source : EndianType → ContainerType → CodecType → S → D → FlacSource S D
      new_source native_endian unset_container unset_codec s d = record {
        source = s;
        info = ifstream_info native_endian unset_container unset_codec;
        buffer = [];
        buffer_offset = 0;
        audio_block_available = false;
        pos = pos 0;
        decoder = d;
      }

      unfoldable pub open_decoder : Reader (FlacSource S D) (Unit {0})
      open_decoder = called (lib.init_stream callbacks) >>= λ status.
          give (init_error status)
          >> (λ st. (done tt, record st { decoder = lib.set_metadata_respond st.decoder }))
          >> called (lib.process_until_end_of_metadata callbacks)
          >>= λ ok. throw_if (not ok) no_metadata

      unfoldable pub open_flac :
          EndianType → ContainerType → CodecType → S → Outcome (FlacSource S D)
      open_flac native_endian unset_container unset_codec s = elim lib.new [
        | none ↦ thrown no_decoder
        | some d ↦ opened (open_decoder (new_source native_endian unset_container unset_codec s d))
      ]
