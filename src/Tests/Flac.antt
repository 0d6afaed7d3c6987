-- ===== src/Tests/Flac.antt =====
-- A FLAC source over a decoder of three stereo samples in two blocks.
use ni_media.Common.{
  ℕ, zero, suc, ◌≤◌, ◌++◌, ◌⊎◌, Bool, ◌≡◌, refl, ap, arith, true, false, some, List, [], ◌∷◌,
  length, take, drop, min, ◌+◌, ◌<◌,
}
use ni_media.Common.Int.{ℤ, pos, negsuc, ◌+ℤ◌}
use ni_media.Common.Bytes.{le_bytes}
use ni_media.Boost.{algorithms, find_if_first}
use ni_media.Iostreams.Positioning.{beg, absolute_position}
use ni_media.Iostreams.Device.{eof, Source}
use ni_media.Iostreams.Container.{Container, container_source}
use ni_media.Iostreams.Subview.{Subview, subview_source}
use ni_media.Iostreams.File.Laws.{container_file, container_file-IsFile}
use ni_media.Pcm.Format.{BitwidthType, little_endian, signed_integer, bit16}
use ni_media.Pcm.Runtime.Laws.{format}
use ni_media.Audio.Info.{ContainerType, CodecType, IfstreamInfo, bytes_per_sample}
use ni_media.Audio.Reader.{done, thrown, ◌>>=◌, give}
use ni_media.Audio.Flac.Decoder.{
  Reader, Callbacks, StreamDecoder, Frame, DecoderState, end_of_stream, other_state, init_ok,
  read_abort, read_continue, StreamInfoBlock, stream_info, FlacError,
}
use ni_media.Audio.Flac.Interleave.{interleave}
use ni_media.Audio.Flac.Interleave.Laws.{IsFrame, interleave_lem}
use ni_media.Audio.Flac.Metadata.{FlacSource, metadata_callback, audio_bytes}
use ni_media.Audio.Flac.Metadata.Laws.{IsFlacInfo, IsSupported, info_of, metadata_callback_lem}
use ni_media.Audio.Flac.Source.{
  at_end_of_stream, callbacks, read, seek, read_callback, eof_callback, tell_callback,
}
use ni_media.Audio.Flac.Decoding.{Rows, IsDecoder, Delivers, Ends}
use ni_media.Audio.Flac.Source.Position.{
  Describes, IsAt, decoded_bytes, read-decoded_bytes, seek-decoded_bytes,
}
use ni_media.Audio.Flac.Source.Reading.{over_file, read_callback-file, read_callback-end}
use mathlib.Core.List.{flatten}

-- Where the decoder stands: before the first block, the second, behind it, and after the end was found.
data Place : Type 0 where
  at_start at_second behind ended : Place

abbrev first_row : List ℤ
first_row = pos 1 ∷ negsuc 1 ∷ []

abbrev second_row : List ℤ
second_row = pos 300 ∷ pos 4 ∷ []

abbrev third_row : List ℤ
third_row = negsuc 999 ∷ pos 6 ∷ []

abbrev first_frame : Frame
first_frame = record {
  blocksize = 2;
  buffer = (pos 1 ∷ pos 300 ∷ []) ∷ (negsuc 1 ∷ pos 4 ∷ []) ∷ [];
}

abbrev middle_frame : Frame
middle_frame = record { blocksize = 1; buffer = (pos 300 ∷ []) ∷ (pos 4 ∷ []) ∷ [] }

abbrev last_frame : Frame
last_frame = record { blocksize = 1; buffer = (negsuc 999 ∷ []) ∷ (pos 6 ∷ []) ∷ [] }

first_frame-IsFrame : IsFrame 2 first_frame (first_row ∷ second_row ∷ [])
first_frame-IsFrame = record {
  size = refl;
  samples = (refl, (refl, (refl, tt)), (refl, (refl, (refl, tt)), tt));
}

middle_frame-IsFrame : IsFrame 2 middle_frame (second_row ∷ [])
middle_frame-IsFrame = record { size = refl; samples = (refl, (refl, (refl, tt)), tt) }

last_frame-IsFrame : IsFrame 2 last_frame (third_row ∷ [])
last_frame-IsFrame = record { size = refl; samples = (refl, (refl, (refl, tt)), tt) }

abbrev samples : Rows
samples = first_row ∷ second_row ∷ third_row ∷ []

abbrev blocks_left : Place → Unit {0} → List Rows
blocks_left at_start s = (first_row ∷ second_row ∷ []) ∷ (third_row ∷ []) ∷ []
blocks_left at_second s = (third_row ∷ []) ∷ []
blocks_left behind s = []
blocks_left ended s = []

abbrev state_of : Place → DecoderState
state_of ended = end_of_stream
state_of at_start = other_state
state_of at_second = other_state
state_of behind = other_state

abbrev State : Type 0
State = FlacSource (Unit {0}) Place

abbrev deliver : Callbacks State → Frame → Place → Reader State (Bool × Place)
deliver calls frame place = calls.write frame >>= λ _. give (done (true, place))

abbrev process_one : Callbacks State → Place → Reader State (Bool × Place)
process_one calls at_start = deliver calls first_frame at_second
process_one calls at_second = deliver calls last_frame behind
process_one calls behind = give (done (true, ended))
process_one calls ended = give (done (true, ended))

abbrev seek_to : Callbacks State → ℕ → Place → Reader State (Bool × Place)
seek_to calls zero d = deliver calls first_frame at_second
seek_to calls (suc zero) d = deliver calls middle_frame at_second
seek_to calls (suc (suc zero)) d = deliver calls last_frame behind
seek_to calls (suc (suc (suc n))) d = give (done (false, d))

abbrev two_blocks : StreamDecoder State Place
two_blocks = record {
  new = some at_start;
  init_stream = λ calls d. give (done (init_ok, d));
  set_metadata_respond = λ d. d;
  process_until_end_of_metadata = λ calls d. give (done (true, d));
  process_single = process_one;
  get_state = state_of;
  seek_absolute = seek_to;
}

abbrev no_file : Source (Unit {0})
no_file = record { read = λ n s. (eof, s); seek = λ off way s. (pos 0, s) }

abbrev Always : Place → Unit {0} → Type 0
Always d s = Unit

head_or_none : List Rows → Rows
head_or_none [] = []
head_or_none (rows ∷ blocks) = rows

delivered :
    (call : Place → Reader State (Bool × Place)) (d : Place) (frame : Frame) (rows rows' : Rows)
    (d' : Place)
    → call d ≡ deliver (callbacks no_file) frame d'
    → IsFrame 2 frame rows
    → rows ≡ rows'
    → length rows ≤ 65535
    → at_end_of_stream (state_of d') ≡ false
    → Delivers no_file two_blocks call 2 d tt rows' d' tt
delivered call d frame rows rows' d' e f same size state = record {
  frame = frame;
  is_frame = rw (← same) f;
  size = rw (← same) size;
  state = state;
  effect = λ st e'. ap (λ (run : Reader State (Bool × Place)). run st) e;
}

rest_or_none : List Rows → List Rows
rest_or_none [] = []
rest_or_none (rows ∷ blocks) = blocks

decoder_next :
    (d : Place) (s : Unit {0}) (rows : Rows) (blocks : List Rows)
    → Always d s
    → blocks_left d s ≡ rows ∷ blocks
    → (d' : Place) × (s' : Unit {0}) × Delivers no_file two_blocks
        (two_blocks.process_single (callbacks no_file))
        2
        d
        s
        rows
        d'
        s'
      × Always d' s'
      × (blocks_left d' s' ≡ blocks)
unfolding head_or_none rest_or_none
decoder_next at_start s rows blocks r e = (
  at_second,
  tt,
  delivered (process_one (callbacks no_file)) at_start first_frame (first_row ∷ second_row ∷ [])
      rows at_second refl first_frame-IsFrame (ap head_or_none e) (omega arith) refl,
  tt,
  ap rest_or_none e,
)
decoder_next at_second s rows blocks r e = (
  behind,
  tt,
  delivered (process_one (callbacks no_file)) at_second last_frame (third_row ∷ []) rows behind refl
      last_frame-IsFrame (ap head_or_none e) (omega arith) refl,
  tt,
  ap rest_or_none e,
)
decoder_next behind s rows blocks r e = absurd cc
decoder_next ended s rows blocks r e = absurd cc

decoder_finish :
    (d : Place) (s : Unit {0})
    → Always d s
    → blocks_left d s ≡ []
    → (d' : Place) × (s' : Unit {0}) × Ends no_file two_blocks
        (two_blocks.process_single (callbacks no_file))
        d
        s
        d'
        s'
      × Always d' s'
      × (blocks_left d' s' ≡ [])
decoder_finish at_start s r e = absurd cc
decoder_finish at_second s r e = absurd cc
decoder_finish behind s r e =
    (ended, tt, record { ok = true; over = refl; effect = λ st e'. refl }, tt, refl)
decoder_finish ended s r e =
    (ended, tt, record { ok = true; over = refl; effect = λ st e'. refl }, tt, refl)

decoder_sought :
    (d : Place) (s : Unit {0}) (n : ℕ)
    → Always d s
    → n < length samples
    → (rows : Rows) × (d' : Place) × (s' : Unit {0}) × (0 < length rows)
      × Delivers no_file two_blocks
          (two_blocks.seek_absolute (callbacks no_file) n)
          2
          d
          s
          rows
          d'
          s'
      × Always d' s'
      × (rows ++ flatten (blocks_left d' s') ≡ drop n samples)
unfolding flatten
decoder_sought d s zero r h = (
  first_row ∷ second_row ∷ [],
  at_second,
  tt,
  omega arith,
  delivered (seek_to (callbacks no_file) 0) d first_frame _ (first_row ∷ second_row ∷ []) at_second
      refl first_frame-IsFrame refl (omega arith) refl,
  tt,
  refl,
)
decoder_sought d s (suc zero) r h = (
  second_row ∷ [],
  at_second,
  tt,
  omega arith,
  delivered (seek_to (callbacks no_file) 1) d middle_frame _ (second_row ∷ []) at_second refl
      middle_frame-IsFrame refl (omega arith) refl,
  tt,
  refl,
)
decoder_sought d s (suc (suc zero)) r h = (
  third_row ∷ [],
  behind,
  tt,
  omega arith,
  delivered (seek_to (callbacks no_file) 2) d last_frame _ (third_row ∷ []) behind refl
      last_frame-IsFrame refl (omega arith) refl,
  tt,
  refl,
)
decoder_sought d s (suc (suc (suc n))) r h = absurd (omega arith)

two_blocks-IsDecoder : IsDecoder no_file two_blocks 2 samples Always blocks_left
two_blocks-IsDecoder = record {
  next = decoder_next;
  finish = decoder_finish;
  sought = decoder_sought;
}

abbrev stereo_flac : IfstreamInfo
stereo_flac = record {
  stream = record {
    sample_rate = 44100;
    num_channels = 2;
    own_bit_rate = 0;
    format = format signed_integer bit16 little_endian;
  };
  lossless = true;
  num_frames = 3;
  container = ContainerType.flac;
  codec = CodecType.flac;
}

abbrev opened_flac : State
opened_flac = record {
  source = tt;
  info = stereo_flac;
  buffer = [];
  buffer_offset = 0;
  audio_block_available = false;
  pos = pos 0;
  decoder = at_start;
}

stereo_flac-Describes : Describes stereo_flac samples
unfolding bytes_per_sample le_bytes
stereo_flac-Describes = record {
  flac = record { few_channels = omega arith; narrow = omega arith };
  frames = refl;
  frame_size = omega arith;
  full = (refl, (refl, (refl, tt)));
  fits = omega arith;
}

opened_flac-IsAt : IsAt stereo_flac samples Always blocks_left 0 opened_flac
unfolding bytes_per_sample le_bytes
opened_flac-IsAt = record {
  good = record { same_info = refl; inside = λ e. absurd cc; idle = λ e. refl; ready = tt };
  inside = omega arith;
  rest = refl;
  same_pos = refl;
}

read-decoded_bytes_example :
    (st : State) × (read no_file two_blocks 4 8 opened_flac
      ≡ (done (take 8 (drop 0 (decoded_bytes stereo_flac samples))), st))
    × IsAt stereo_flac samples Always blocks_left
        (min (0 + 8) (length (decoded_bytes stereo_flac samples)))
        st
read-decoded_bytes_example =
    read-decoded_bytes no_file two_blocks stereo_flac samples stereo_flac-Describes Always
      blocks_left two_blocks-IsDecoder 0 8 4 opened_flac opened_flac-IsAt (omega arith)

-- The last two of the samples, as bytes.
decoded : drop 4 (decoded_bytes stereo_flac samples) ≡ 44 ∷ 1 ∷ 4 ∷ 0 ∷ 24 ∷ 252 ∷ 6 ∷ 0 ∷ []
unfolding bytes_per_sample le_bytes
decoded = refl

seek-decoded_bytes_example :
    (st : State) × (seek no_file two_blocks (pos 4) beg opened_flac ≡ (done (pos 4), st))
    × IsAt stereo_flac samples Always blocks_left 4 st
unfolding bytes_per_sample absolute_position ◌+ℤ◌ le_bytes
seek-decoded_bytes_example =
    seek-decoded_bytes no_file two_blocks stereo_flac samples stereo_flac-Describes Always
      blocks_left two_blocks-IsDecoder 0 4 (pos 4) beg opened_flac opened_flac-IsAt refl
      (omega arith)

abbrev three_bytes : List ℕ
three_bytes = 7 ∷ 8 ∷ 9 ∷ []

abbrev file_source : Source (Subview Container)
file_source = subview_source container_source

abbrev opened_file : FlacSource (Subview Container) Place
opened_file = record {
  source = container_file three_bytes 0;
  info = stereo_flac;
  buffer = [];
  buffer_offset = 0;
  audio_block_available = false;
  pos = pos 0;
  decoder = at_start;
}

abbrev at_byte : ℕ → FlacSource (Subview Container) Place
at_byte p = over_file container_file-IsFile three_bytes p opened_file

read_callback-file_example :
    (read_callback file_source 2 (at_byte 1) ≡ (done (read_continue, 8 ∷ 9 ∷ []), at_byte 3))
    × (tell_callback file_source (at_byte 1) ≡ (done (some 1), at_byte 1))
read_callback-file_example =
    read_callback-file container_file-IsFile three_bytes 1 2 opened_file (omega arith) (omega arith)
      (omega arith)

read_callback-end_example :
    (read_callback file_source 2 (at_byte 3) ≡ (done (read_abort, []), at_byte 3))
    × (eof_callback file_source (at_byte 3) ≡ (done false, at_byte 3))
read_callback-end_example =
    read_callback-end container_file-IsFile three_bytes 2 opened_file (omega arith)

interleave_lem_example :
    interleave first_frame 2 2 (9 ∷ []) ≡ some (1 ∷ 0 ∷ 254 ∷ 255 ∷ 44 ∷ 1 ∷ 4 ∷ 0 ∷ [])
unfolding le_bytes
interleave_lem_example =
    interleave_lem first_frame 2 2 (first_row ∷ second_row ∷ []) (9 ∷ []) (omega arith)
      first_frame-IsFrame (omega arith)

abbrev stream_block : ℕ → StreamInfoBlock
stream_block bits = record {
  min_blocksize = 4096;
  max_blocksize = 4096;
  sample_rate = 44100;
  channels = 2;
  bits_per_sample = bits;
  total_samples = 3;
}

-- Twelve bits are within the limits of FLAC, and are refused for want of a format.
metadata_callback_lem_example :
    ((width : BitwidthType) × IsSupported (stream_block 12) width
      × (metadata_callback file_source (stream_info (stream_block 12)) opened_file ≡ (
        done tt,
        record opened_file {
          source = (audio_bytes file_source (container_file three_bytes 0)).1;
          info = info_of file_source (stream_block 12) width (container_file three_bytes 0);
        },
      ))
      × IsFlacInfo (info_of file_source (stream_block 12) width (container_file three_bytes 0)))
    ⊎ (((width : BitwidthType) → ¬ IsSupported (stream_block 12) width)
        × (e : FlacError) × (metadata_callback file_source
              (stream_info (stream_block 12))
              opened_file
            ≡ (thrown e, opened_file)))
metadata_callback_lem_example = metadata_callback_lem file_source (stream_block 12) opened_file
