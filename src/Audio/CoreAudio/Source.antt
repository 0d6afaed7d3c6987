-- ===== src/Audio/CoreAudio/Source.antt =====
-- The class `core_audio_source` (core_audio_source.h) and its callbacks. The assertions are not modelled, nor is the
-- destructor.
pub mod Laws
pub mod Inside
use ni_media.Common.{
  ℕ, ◌*◌, ◌/◌, ◌%◌, ◌^◌, ◌-◌, Bool, true, false, not, ◌||◌, ◌&&◌, Option, none, some, List, [],
  length, min, ◌==◌, ltb, if◌then◌else◌,
}
use ni_media.Common.Int.{ℤ, pos, negsuc, pos_part, ◌+ℤ◌, ◌-ℤ◌, ltb_ℤ}
use ni_media.Boost.{Algorithms}
use ni_media.Iostreams.Positioning.{SeekDir, beg, end, absolute_position}
use ni_media.Iostreams.Device.{Read, got, eof, fault, Source}
use ni_media.Pcm.Format.{EndianType}
use ni_media.Audio.Info.{
  ContainerType, CodecType, IfstreamInfo, ifstream_info, bits_per_sample, bytes_per_frame,
  num_bytes,
}
use ni_media.Audio.Istream.{to_size_t}
use ni_media.Audio.Reader.{done, thrown, undefined, ◌>>=◌, ◌>>◌, next, give, throw_if, or_throw}
use ni_media.Audio.CoreAudio.System.{
  CoreAudioError, no_file_stream, not_wrapped, stream_not_selected, invalid_stream,
  no_output_format, Outcome, Reader, Description, Constants, AudioToolbox,
}
use ni_media.Audio.CoreAudio.Describe.{
  same_container, format_flags, calc_stream_index, build_out_stream_info,
}

-- `ClientData`
pub record ClientData (S : Type 0) : Type 0 where
  pub source : S
  pub position : ℤ
  pub size : ℤ

abbrev pub same_position : ℤ → ℤ → Bool
same_position a b = not (ltb_ℤ a b || ltb_ℤ b a)

-- `numRead > 0 ? static_cast<UInt32>( numRead ) : 0`, with the bytes.
abbrev pub bytes_read : Read → Outcome (List ℕ)
bytes_read (got bs) = done bs
bytes_read eof = done []
bytes_read fault = undefined

module _ {S : Type 0} (src : Source S) where
  unfoldable pub client_data : S → ClientData S
  client_data s =
      let (p, s') = src.seek (pos 0) end s in
      let size = if ltb_ℤ (pos 0) p then p else pos 0 in
      record { source = s'; position = size; size = size }

  -- `AudioFileReadProc`, which gives the bytes, with their count in 32 bits.
  abbrev pub sought : ℤ → ClientData S → ClientData S
  sought in_position c =
      if same_position c.position in_position
      then c
      else record c { source = (src.seek in_position beg c.source).1; position = in_position }

  unfoldable pub audio_file_read_proc : ℤ → ℕ → Reader (ClientData S) (List ℕ)
  audio_file_read_proc in_position request_count c =
      let c' = sought in_position c in
      let (r, s') = src.read request_count c'.source in
      next (bytes_read r)
        (λ bs c''. (done bs, record c'' { position = c'.position +ℤ pos (length bs % 2 ^ 32) }))
        (record c' { source = s' })

  abbrev pub audio_file_get_size_proc : ClientData S → ℤ
  audio_file_get_size_proc c = c.size

pub record CoreAudioSource (S M : Type 0) : Type 0 where
  pub client : ClientData S
  pub media : M
  pub info : IfstreamInfo
  pub pos : ℤ

module _ {S M F : Type 0} (src : Source S) (k : Constants)
    (system : AudioToolbox (ClientData S) M F) where
  -- The file with the description of the samples that are asked for, and the information.
  abbrev pub description : IfstreamInfo → Description F
  description info = record {
    format_id = k.linear_pcm;
    channels_per_frame = info.stream.num_channels % 2 ^ 32;
    sample_rate = system.to_float info.stream.sample_rate;
    format_flags = format_flags k info.stream.format;
    frames_per_packet = 1;
    bits_per_channel = bits_per_sample info.stream % 2 ^ 32;
    bytes_per_packet = bytes_per_frame info.stream % 2 ^ 32;
    bytes_per_frame = bytes_per_frame info.stream % 2 ^ 32;
  }

  unfoldable pub select_stream : {X : Type 0} → ContainerType → ℕ → M → Reader X M
  select_stream container stream file =
      if same_container container ContainerType.mp4
      then (give (calc_stream_index k system file stream) >>= λ index.
          give (or_throw (system.use_audio_track index file) stream_not_selected))
      else (throw_if (not (stream == 0)) invalid_stream >> give (done file))

  unfoldable pub setup_info :
      {X : Type 0} → EndianType → ContainerType → ℕ → M → Reader X (M × IfstreamInfo)
  setup_info native_endian container stream file = select_stream container stream file >>= λ media.
      give (build_out_stream_info k system native_endian media container) >>= λ info.
      give (or_throw (system.set_client_data_format (description info) media) no_output_format)
      >>= λ media'. give (done (media', info))

  -- The constructor.
  unfoldable pub open_core_audio :
      EndianType → S → ContainerType → ℕ → Outcome (CoreAudioSource S M) × ClientData S
  open_core_audio native_endian s container stream =
      (system.open_with_callbacks (audio_file_read_proc src) (audio_file_get_size_proc src)
            (if same_container container ContainerType.mp3 then k.mp3_type else k.mpeg4_type)
          >>= λ opened. give (or_throw opened no_file_stream) >>= λ file.
              give (or_throw (system.wrap_audio_file file) not_wrapped) >>= λ media.
              setup_info native_endian container stream media >>= λ (media', info) c.
              (done (record { client = c; media = media'; info = info; pos = pos 0 }), c))
        (client_data src s)

  -- A call of the system with the client data.
  abbrev pub called : {A : Type 0} → Outcome (A × M) × ClientData S → Reader (CoreAudioSource S M) A
  called r st =
      next r.0 (λ (a, m) st'. (done a, record st' { media = m })) (record st { client = r.1 })

  -- A frame of no bytes divides by zero.
  unfoldable pub seek : ⦃boost : Algorithms⦄ → ℤ → SeekDir → Reader (CoreAudioSource S M) ℤ
  seek off way st =
      let p = absolute_position st.pos (pos 0) (pos (num_bytes st.info)) off way in
      let frame = bytes_per_frame st.info.stream in
      if same_position st.pos p
      then (done st.pos, st)
      else if frame == 0
      then (undefined, st)
      else (called (system.seek (audio_file_read_proc src) (to_size_t p / frame) st.media st.client)
            >>= λ moved st'.
                (if moved then (done p, record st' { pos = p }) else (done st'.pos, st')))
          st

  abbrev pub delivered : Option (List ℕ) → Reader (CoreAudioSource S M) (List ℕ)
  delivered none st = (done [], st)
  delivered (some bs) st = (done bs, record st { pos = st.pos +ℤ pos (length bs) })

  -- The frames that are read have the bytes that are given. The number asked for is cut to 32 bits.
  unfoldable pub read : ℕ → Reader (CoreAudioSource S M) (List ℕ)
  read size st =
      let last = pos (num_bytes st.info) in
      let frame = bytes_per_frame st.info.stream in
      let room = min size (pos_part (last -ℤ st.pos)) in
      if size == 0 || not (ltb_ℤ st.pos last)
      then (done [], st)
      else if frame == 0
      then (undefined, st)
      else (called
              (system.read (audio_file_read_proc src) (room / frame % 2 ^ 32) st.media st.client)
            >>= delivered)
          st
