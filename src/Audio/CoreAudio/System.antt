-- ===== src/Audio/CoreAudio/System.antt =====
-- AudioToolbox: the constants and functions that the source uses. `M` is an open file, which `AudioFileID` and
-- `ExtAudioFileRef` name together, `F` a `Float64`, and `X` the client data of the callbacks. The system belongs to
-- another party, and nothing is known here of what it does.
use ni_media.Common.{ℕ, Bool, Option, List}
use ni_media.Common.Int.{ℤ}
use ni_media.Audio.Reader as Reading

-- The `std::runtime_error`s of the source, in the order of their places in it.
pub data CoreAudioError : Type 0 where
  no_stream_count no_such_stream no_format unsupported_format_id invalid_sample_rate :
      CoreAudioError
  invalid_num_channels : ℕ → CoreAudioError
  no_length empty_file no_file_format unsupported_file_format no_bit_rate no_file_stream not_wrapped
        stream_not_selected invalid_stream no_output_format :
      CoreAudioError

abbrev pub Outcome : Type 0 → Type 0
Outcome A = Reading.Outcome CoreAudioError A

abbrev pub Reader : Type 0 → Type 0 → Type 0
Reader X A = Reading.Reader CoreAudioError X A

-- `AudioStreamBasicDescription`, as the source reads it and as it sets it.
pub record Descriptor (F : Type 0) : Type 0 where
  pub sample_rate : F
  pub format_id : ℕ
  pub format_flags : ℕ
  pub channels_per_frame : ℕ

pub record Description (F : Type 0) : Type 0 where
  pub format_id : ℕ
  pub channels_per_frame : ℕ
  pub sample_rate : F
  pub format_flags : ℕ
  pub frames_per_packet : ℕ
  pub bits_per_channel : ℕ
  pub bytes_per_packet : ℕ
  pub bytes_per_frame : ℕ

-- The `kAudio...` and `kApple...` enumerators.
pub record Constants : Type 0 where
  pub apple_lossless : ℕ
  pub aac_formats : List ℕ
  pub mpeg_layer3 : ℕ
  pub linear_pcm : ℕ
  pub mp3_type : ℕ
  pub mpeg4_type : ℕ
  pub m4a_type : ℕ
  pub is_big_endian : ℕ
  pub is_float : ℕ
  pub is_signed_integer : ℕ
  pub source_data_16 : ℕ
  pub source_data_20 : ℕ
  pub source_data_24 : ℕ
  pub source_data_32 : ℕ

-- `none` stands for a status other than `noErr`. A read gives the bytes of the frames that it has read.
pub record AudioToolbox (X M F : Type 0) : Type 0 where
  pub any_of_equal : List ℕ → ℕ → Bool
  pub is_not_positive : F → Bool
  pub to_size_t : F → ℕ
  pub to_float : ℕ → F
  pub open_with_callbacks : (ℤ → ℕ → Reader X (List ℕ)) → (X → ℤ) → ℕ → Reader X (Option M)
  pub wrap_audio_file : M → Option M
  pub audio_track_count : M → Option ℕ
  pub use_audio_track : ℕ → M → Option M
  pub file_data_format : M → Option (Descriptor F)
  pub file_length_frames : M → Option ℤ
  pub file_format : M → Option ℕ
  pub file_bit_rate : M → Option ℕ
  pub set_client_data_format : Description F → M → Option M
  pub seek : (ℤ → ℕ → Reader X (List ℕ)) → ℕ → M → Reader X (Bool × M)
  pub read : (ℤ → ℕ → Reader X (List ℕ)) → ℕ → M → Reader X (Option (List ℕ) × M)
