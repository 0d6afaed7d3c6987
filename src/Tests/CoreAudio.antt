-- ===== src/Tests/CoreAudio.antt =====
-- The read callback over three bytes, and a source of ten stereo frames.
use ni_media.Common.{ℕ, ◌*◌, true, false, none, some, List, [], ◌∷◌, replicate}
use ni_media.Common.Int.{pos, negsuc}
use ni_media.Boost.{algorithms}
use ni_media.Iostreams.Positioning.{end}
use ni_media.Iostreams.Device.{Source}
use ni_media.Iostreams.Container.{Container, container_source}
use ni_media.Iostreams.Subview.{Subview, subview_source}
use ni_media.Iostreams.File.Laws.{container_file}
use ni_media.Pcm.Format.{signed_integer, bit16, little_endian}
use ni_media.Pcm.Runtime.Laws.{format}
use ni_media.Audio.Info.{ContainerType, CodecType, IfstreamInfo}
use ni_media.Audio.Reader.{done}
use ni_media.Audio.CoreAudio.System.{Constants, AudioToolbox}
use ni_media.Audio.CoreAudio.Source.{ClientData, CoreAudioSource, seek, read}
use ni_media.Audio.CoreAudio.Source.Inside.{reads}

abbrev three_bytes : List ℕ
three_bytes = 7 ∷ 8 ∷ 9 ∷ []

abbrev file_source : Source (Subview Container)
file_source = subview_source container_source

abbrev at_end : ClientData (Subview Container)
at_end = record { source = container_file three_bytes 3; position = pos 3; size = pos 3 }

abbrev no_constants : Constants
no_constants = record {
  apple_lossless = 0;
  aac_formats = [];
  mpeg_layer3 = 1;
  linear_pcm = 2;
  mp3_type = 3;
  mpeg4_type = 4;
  m4a_type = 5;
  is_big_endian = 1;
  is_float = 2;
  is_signed_integer = 4;
  source_data_16 = 1;
  source_data_20 = 2;
  source_data_24 = 3;
  source_data_32 = 4;
}

-- A system that reads silence without end.
abbrev silent : AudioToolbox (ClientData (Subview Container)) (Unit {0}) ℕ
silent = record {
  any_of_equal = λ ids id. true;
  is_not_positive = λ f. false;
  to_size_t = λ f. f;
  to_float = λ n. n;
  open_with_callbacks = λ reads size hint c. (done (some tt), c);
  wrap_audio_file = some;
  audio_track_count = λ m. some 1;
  use_audio_track = λ n m. some m;
  file_data_format = λ m. none;
  file_length_frames = λ m. some (pos 10);
  file_format = λ m. some 3;
  file_bit_rate = λ m. some 0;
  set_client_data_format = λ d m. some m;
  seek = λ reads n m c. (done (true, m), c);
  read = λ reads n m c. (done (some (replicate (n * 4) 0), m), c);
}

abbrev ten_frames : IfstreamInfo
ten_frames = record {
  stream = record {
    sample_rate = 44100;
    num_channels = 2;
    own_bit_rate = 0;
    format = format signed_integer bit16 little_endian;
  };
  lossless = false;
  num_frames = 10;
  container = ContainerType.mp3;
  codec = CodecType.mp3;
}

abbrev State : Type 0
State = CoreAudioSource (Subview Container) (Unit {0})

abbrev opened_mp3 : State
opened_mp3 = record { client = at_end; media = tt; info = ten_frames; pos = pos 0 }

-- A frame before the end, and a read beyond it.
abbrev near_end : State
near_end = (seek file_source no_constants silent (negsuc 3) end opened_mp3).1

abbrev behind : State
behind = (read file_source no_constants silent 400 near_end).1
