-- ===== src/Audio/Ogg/Vorbis.antt =====
-- libvorbisfile: the operations that the source calls, on an open file `V` and the client data `S` of the
-- callbacks. The library belongs to another project.
use ni_media.Common.{ℕ, Bool, Option, List}
use ni_media.Common.Int.{ℤ}
use ni_media.Audio.Reader as Reading

-- The `std::runtime_error`s of the source, in the order of their places in it.
pub data OggError : Type 0 where
  could_not_open no_vorbis_file no_vorbis_info empty_file : OggError
  invalid_num_channels invalid_sample_rate : ℤ → OggError

abbrev pub Outcome : Type 0 → Type 0
Outcome A = Reading.Outcome OggError A

abbrev pub Reader : Type 0 → Type 0 → Type 0
Reader S A = Reading.Reader OggError S A

pub record VorbisInfo : Type 0 where
  pub channels : ℤ
  pub rate : ℤ
  pub bitrate_nominal : ℤ

-- The result of `ov_read`: the bytes, none of them for 0, or a negative number.
pub data OvRead : Type 0 where
  ov_bytes : List ℕ → OvRead
  ov_error : OvRead

-- `ov_callbacks`; there is none to close. A read of so many elements of some size gives bytes.
pub record OvCallbacks (S : Type 0) : Type 0 where
  pub read : ℕ → ℕ → Reader S (List ℕ)
  pub seek : ℤ → ℕ → Reader S ℤ
  pub tell : Reader S ℤ

-- `ov_open_callbacks` and `ov_pcm_seek` tell whether they returned 0.
pub record VorbisFile (S V : Type 0) : Type 0 where
  pub ov_open_callbacks : OvCallbacks S → Reader S (Option V)
  pub ov_info : V → Option VorbisInfo
  pub ov_pcm_total : V → ℤ
  pub ov_read : OvCallbacks S → ℤ → V → Reader S (OvRead × V)
  pub ov_pcm_seek : OvCallbacks S → ℕ → V → Reader S (Bool × V)
