-- ===== src/Tests/Files.antt =====
-- Opening by a name, with WAV and MP4 enabled, and informations that compare equal.
use ni_media.Common.{ℕ, ◌≡◌, ◌⊎◌, refl, true, false, some, List, [], ◌∷◌, drop}
use ni_media.Boost.{find_if_first}
use ni_media.Pcm.Format.{signed_integer, bit16, little_endian}
use ni_media.Pcm.Runtime.{format_eq}
use ni_media.Pcm.Runtime.Laws.{format, of_parts_lem}
use ni_media.Audio.Info.{
  ContainerType, CodecType, IfstreamInfo, stream_info_eq, bytes_per_frame, num_bytes,
}
use ni_media.Audio.Info.Equality.{ifstream_info_eq, ifstream_info_eq-num_bytes}
use ni_media.Audio.Reader.{done, thrown}
use ni_media.Audio.Tools.{Features, FileNames, ifstream_container, can_read_file}
use ni_media.Audio.Ifstream.{unsupported_extension, FileSources, make_ifstream, open_url}
use ni_media.Audio.Ifstream.Laws.{source_of, open_url-can_read_file}

abbrev some_formats : Features
some_formats = record {
  aiff = false;
  flac = false;
  mp3 = false;
  mp4 = true;
  ogg = false;
  wav = true;
  wma = false;
  itunes = false;
  wav_encoding = true;
}

-- Every name is a file whose extension starts at its second character.
abbrev short_names : FileNames
short_names = record {
  is_regular_file = λ p. true;
  has_extension = λ p. true;
  extension = drop 1;
  to_lower_copy = λ s. s;
  starts_with = λ s prefix. false;
}

abbrev stereo_wav : ℕ → IfstreamInfo
stereo_wav rate = record {
  stream = record {
    sample_rate = 44100;
    num_channels = 2;
    own_bit_rate = rate;
    format = format signed_integer bit16 little_endian;
  };
  lossless = true;
  num_frames = 10;
  container = ContainerType.wav;
  codec = CodecType.wav;
}

-- The sources give the name that they have opened.
abbrev all_open : FileSources (Unit {0}) (List ℕ)
all_open = record {
  aiff = done;
  flac = done;
  mp3 = done;
  mp4 = λ file n. done file;
  ogg = done;
  wav = done;
  wma = done;
  avassetreader = λ file n. done file;
}

abbrev a_wav : List ℕ
a_wav = b'a' ∷ b'.' ∷ b'w' ∷ b'a' ∷ b'v' ∷ []

open_url-can_read_file_example :
    ((can_read_file short_names some_formats a_wav ≡ true)
      × (c : ContainerType) × (ifstream_container short_names some_formats a_wav ≡ some c)
      × (open_url (λ file. stereo_wav 0) some_formats short_names all_open a_wav
          ≡ make_ifstream
              (λ file. stereo_wav 0)
              (source_of (λ file. stereo_wav 0) some_formats all_open c a_wav 0)))
    ⊎ ((can_read_file short_names some_formats a_wav ≡ false)
        × (open_url (λ file. stereo_wav 0) some_formats short_names all_open a_wav
            ≡ thrown unsupported_extension))
open_url-can_read_file_example =
    open_url-can_read_file (λ file. stereo_wav 0) some_formats all_open short_names a_wav refl

ifstream_info_eq-num_bytes_example :
    (bytes_per_frame (stereo_wav 0).stream ≡ bytes_per_frame (stereo_wav 9).stream)
    × (num_bytes (stereo_wav 0) ≡ num_bytes (stereo_wav 9))
    × (ContainerType.wav ≡ ContainerType.wav)
    × (CodecType.wav ≡ CodecType.wav)
unfolding ifstream_info_eq stream_info_eq format_eq
ifstream_info_eq-num_bytes_example =
    ifstream_info_eq-num_bytes (stereo_wav 0) (stereo_wav 9) signed_integer signed_integer bit16
      bit16 little_endian little_endian (of_parts_lem signed_integer bit16 little_endian)
      (of_parts_lem signed_integer bit16 little_endian) refl
