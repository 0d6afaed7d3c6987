-- ===== src/Audio/Flac/Decoder.antt =====
-- libFLAC's stream decoder: the operations that the source calls, with the callbacks that they are given. The
-- decoder belongs to another project, and nothing is known here of when it calls them.
use ni_media.Common.{ℕ, Bool, Option, List}
use ni_media.Common.Int.{ℤ}
use ni_media.Pcm.Runtime.{FormatError}
use ni_media.Audio.Reader as Reading

-- The `std::runtime_error`s of the source, in the order of their places in it.
pub data FlacError : Type 0 where
  no_decoder opening_failed not_initialized no_metadata empty_file : FlacError
  invalid_num_channels invalid_bits_per_sample invalid_sample_rate : ℕ → FlacError
  variable_blocksize : FlacError
  invalid_format : FormatError → FlacError

abbrev pub Outcome : Type 0 → Type 0
Outcome A = Reading.Outcome FlacError A

abbrev pub Reader : Type 0 → Type 0 → Type 0
Reader X A = Reading.Reader FlacError X A

-- A decoded block: `frame->header.blocksize`, and `buffer[channel][u]`, of type `FLAC__int32`.
pub record Frame : Type 0 where
  pub blocksize : ℕ
  pub buffer : List (List ℤ)

pub record StreamInfoBlock : Type 0 where
  pub min_blocksize : ℕ
  pub max_blocksize : ℕ
  pub sample_rate : ℕ
  pub channels : ℕ
  pub bits_per_sample : ℕ
  pub total_samples : ℕ

pub data StreamMetadata : Type 0 where
  stream_info : StreamInfoBlock → StreamMetadata
  other_metadata : StreamMetadata

pub data ReadStatus : Type 0 where
  read_continue read_end_of_stream read_abort : ReadStatus

pub data SeekStatus : Type 0 where
  seek_ok seek_error : SeekStatus

pub data WriteStatus : Type 0 where
  write_continue write_abort : WriteStatus

pub data InitStatus : Type 0 where
  init_ok error_opening_file other_status : InitStatus

pub data DecoderState : Type 0 where
  end_of_stream other_state : DecoderState

-- The callbacks on the client data `X`. `tell` and `length` give `none` for their error.
pub record Callbacks (X : Type 0) : Type 0 where
  pub read : ℕ → Reader X (ReadStatus × List ℕ)
  pub seek : ℕ → Reader X SeekStatus
  pub tell : Reader X (Option ℕ)
  pub length : Reader X (Option ℕ)
  pub eof : Reader X Bool
  pub write : Frame → Reader X WriteStatus
  pub metadata : StreamMetadata → Reader X (Unit {0})
  pub error : Reader X (Unit {0})

-- The functions `FLAC__stream_decoder_...`, on a decoder `D`, which they change.
pub record StreamDecoder (X D : Type 0) : Type 0 where
  pub new : Option D
  pub init_stream : Callbacks X → D → Reader X (InitStatus × D)
  pub set_metadata_respond : D → D
  pub process_until_end_of_metadata : Callbacks X → D → Reader X (Bool × D)
  pub process_single : Callbacks X → D → Reader X (Bool × D)
  pub get_state : D → DecoderState
  pub seek_absolute : Callbacks X → ℕ → D → Reader X (Bool × D)
