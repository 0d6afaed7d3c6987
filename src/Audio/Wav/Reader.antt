-- ===== src/Audio/Wav/Reader.antt =====
-- What the WAV reader throws.
use ni_media.Audio.Reader as Reading
use ni_media.Pcm.Runtime.{FormatError, Result, ok, throw}
pub use ni_media.Audio.Reader.{
  done, thrown, undefined, out_of_fuel, ◌>>=◌, ◌>>◌, give, throw_if, or_throw, to_uint32, fetched,
  fetch_or, sought,
}

-- The `std::runtime_error`s, in the order of their places in `readWavHeader`.
pub data WavError : Type 0 where
  no_riff_tag no_wave_tag invalid_fmt_size no_fmt_chunk invalid_block_align no_extension_size
        no_format_extensible :
      WavError
  invalid_format : FormatError → WavError
  alaw_format mulaw_format unknown_format invalid_num_channels invalid_sample_rate
        invalid_smpl_chunk empty_file no_sample_chunk no_loop no_instrument_chunk no_data_tag :
      WavError

abbrev pub Outcome : Type 0 → Type 0
Outcome A = Reading.Outcome WavError A

abbrev pub Reader : Type 0 → Type 0 → Type 0
Reader S A = Reading.Reader WavError S A

abbrev pub of_format : {A : Type 0} → Result A → Outcome A
of_format (ok a) = done a
of_format (throw e) = thrown (invalid_format e)
