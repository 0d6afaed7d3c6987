-- ===== src/Tests/Wav.antt =====
-- A stereo file with 16 bits and a "LIST" chunk, and a file that the reader does not leave.
use ni_media.Common.{ℕ, ◌≡◌, refl, arith, List, [], ◌∷◌, ◌++◌}
use ni_media.Common.Bytes.{le_bytes}
use ni_media.Boost.{find_if_first, algorithms}
use ni_media.Iostreams.Container.{container_source}
use ni_media.Iostreams.Subview.{subview_source}
use ni_media.Iostreams.Subview.Laws.{window}
use ni_media.Iostreams.File.Laws.{container_file, container_file-IsFile}
use ni_media.Pcm.Format.{little_endian, signed_integer, bit16}
use ni_media.Pcm.Runtime.{RuntimeFormat}
use ni_media.Pcm.Runtime.Laws.{format, of_bits_lem, of_parts_lem}
use ni_media.Audio.Info.{
  OutContainerType, OutCodecType, bytes_per_frame, bytes_per_sample, num_bytes, num_samples,
}
use ni_media.Audio.Wav.Chunks.{FmtChunk, little_endian_fourcc}
use ni_media.Audio.Wav.Reader.{done, out_of_fuel}
use ni_media.Audio.Wav.Header.{determine_format, read_wav_header}
use ni_media.Audio.Wav.Header.Turns.{Chunk, IsFmt, with_data}
use ni_media.Audio.Wav.Header.Whole.{
  IsSkipped, wav_file, data_start, header_fuel, formatted, read_wav_header-wav_file,
}
use ni_media.Audio.Wav.Header.Loop.{looping_file, read_wav_header_diverges}
use ni_media.Audio.Wav.Source.{open_wav}
use ni_media.Audio.Wav.Source.Laws.{header_bytes, open_wav-wav_file}
use ni_media.Common.{true}
use ni_media.Iostreams.Container.{container_sink}
use ni_media.Audio.Wav.Sink.{WavOutInfo, close}
use ni_media.Audio.Wav.Sink.Laws.{format_chunk}
use ni_media.Audio.Wav.Sink.Close.{written, close-written}
use ni_media.Audio.Wav.RoundTrip.{closed, open_wav-close}

abbrev stereo : FmtChunk
stereo = record {
  format_tag = 1;
  num_channels = 2;
  sample_rate = 44100;
  avg_bytes_per_sec = 176400;
  block_align = 4;
  bits_per_sample = 16;
}

abbrev list_chunk : Chunk
list_chunk = record { id = little_endian_fourcc 76 73 83 84; size = 3; body = 1 ∷ 2 ∷ 3 ∷ 0 ∷ [] }

abbrev two_frames : List ℕ
two_frames = 1 ∷ 0 ∷ 2 ∷ 0 ∷ 3 ∷ 0 ∷ 255 ∷ 255 ∷ []

abbrev format16 : RuntimeFormat
format16 = format signed_integer bit16 little_endian

stereo-IsFmt : IsFmt stereo
stereo-IsFmt = omega arith

list_chunk-IsSkipped : IsSkipped list_chunk
list_chunk-IsSkipped = record {
  is_padded = record { id_fits = omega arith; not_empty = omega arith; padded = refl };
  unknown = refl;
}

stereo_format : determine_format little_endian 1 16 ≡ done format16
unfolding determine_format
stereo_format =
    rw
      (
        (of_bits_lem signed_integer little_endian).0 bit16,
        of_parts_lem signed_integer bit16 little_endian,
      )
      refl

four_bytes : bytes_per_frame (formatted little_endian stereo format16).info.stream ≡ 4
unfolding bytes_per_frame bytes_per_sample
four_bytes = refl

eight_bytes : num_bytes (with_data 8 (formatted little_endian stereo format16)).info ≡ 8
unfolding bytes_per_frame bytes_per_sample num_bytes num_samples
eight_bytes = refl

read_wav_header-wav_file_example :
    read_wav_header little_endian
      (subview_source container_source)
      (header_fuel (list_chunk ∷ []) [] 5)
      (container_file (wav_file 56 (list_chunk ∷ []) stereo [] 8 two_frames) 3)
    ≡ (
      done (with_data 8 (formatted little_endian stereo format16)),
      container_file
          (wav_file 56 (list_chunk ∷ []) stereo [] 8 two_frames)
          (data_start (list_chunk ∷ []) []),
    )
unfolding le_bytes
read_wav_header-wav_file_example =
    read_wav_header-wav_file little_endian container_file-IsFile 56 (list_chunk ∷ []) [] stereo 8
      two_frames 3 5 (omega arith) (omega arith) (list_chunk-IsSkipped, tt) tt (omega arith)
      stereo-IsFmt stereo_format (omega arith) (omega (arith, four_bytes))
      (omega (arith, four_bytes))

open_wav-wav_file_example :
    open_wav container_source little_endian
      (header_fuel (list_chunk ∷ []) [] 5)
      (container_file (wav_file 56 (list_chunk ∷ []) stereo [] 8 (two_frames ++ (7 ∷ []))) 0)
    ≡ (
      done (with_data 8 (formatted little_endian stereo format16)),
      window
          (header_bytes 56 (list_chunk ∷ []) stereo [] 8)
          (7 ∷ [])
          (record { bytes = two_frames; position = 0 }),
    )
unfolding le_bytes
open_wav-wav_file_example =
    open_wav-wav_file little_endian 56 (list_chunk ∷ []) [] stereo 8 two_frames (7 ∷ []) 0 5
      (omega arith) (omega arith) (list_chunk-IsSkipped, tt) tt (omega arith) stereo-IsFmt
      stereo_format (omega arith) (omega (arith, four_bytes)) (omega (arith, four_bytes))
      (omega (arith, eight_bytes))

read_wav_header_diverges_example :
    read_wav_header little_endian
      (subview_source container_source)
      1000
      (container_file (looping_file 20 (little_endian_fourcc 76 73 83 84) []) 0)
    ≡ (out_of_fuel, container_file (looping_file 20 (little_endian_fourcc 76 73 83 84) []) 12)
unfolding le_bytes
read_wav_header_diverges_example =
    read_wav_header_diverges little_endian container_file-IsFile 20
      (little_endian_fourcc 76 73 83 84) [] 0 1000 (omega arith) (omega arith) (omega arith) refl

abbrev stereo_info : WavOutInfo
stereo_info = record {
  stream = record { sample_rate = 44100; num_channels = 2; own_bit_rate = 0; format = format16 };
  lossless = true;
  container = OutContainerType.wav;
  codec = OutCodecType.wav;
}

close-written_example :
    (close container_sink little_endian (written stereo_info two_frames)).view.device.bytes
    ≡ wav_file 44 [] (format_chunk stereo_info.stream) [] 8 two_frames
close-written_example = close-written little_endian stereo_info two_frames (omega arith)

four_byte_frames : bytes_per_frame stereo_info.stream ≡ 4
unfolding bytes_per_frame bytes_per_sample
four_byte_frames = refl

open_wav-close_example :
    open_wav container_source little_endian 5
      (container_file (closed little_endian stereo_info two_frames) 0)
    ≡ (
      done (with_data 8 (formatted little_endian (format_chunk stereo_info.stream) format16)),
      window
          (header_bytes 44 [] (format_chunk stereo_info.stream) [] 8)
          []
          (record { bytes = two_frames; position = 0 }),
    )
open_wav-close_example =
    open_wav-close little_endian stereo_info two_frames 2 3 (omega arith) stereo_format
      (omega (arith, four_byte_frames)) (omega arith) (omega arith)
