-- ===== src/Tests/Aiff.antt =====
-- A stereo AIFF-C file with 16 bits, little-endian, and a "FVER" chunk, a file with a marker that is cut off, and a
-- file that the reader does not leave.
use ni_media.Common.{
  ℕ, ◌≡◌, refl, arith, Bool, true, ◌&&◌, some, List, [], ◌∷◌, ◌++◌, ltb, take, ◌∙◌,
}
use ni_media.Common.Bytes.{le_bytes, le_value, IsByte, All}
use ni_media.Boost.{find_if_first, algorithms, big_endian_objects}
use ni_media.Iostreams.Container.{container_source}
use ni_media.Iostreams.Subview.{subview_source}
use ni_media.Iostreams.Subview.Laws.{window}
use ni_media.Iostreams.File.Laws.{container_file, container_file-IsFile, container_file-StopsAtEnd}
use ni_media.Pcm.Format.{little_endian, big_endian, signed_integer, floating_point, bit16, bit32}
use ni_media.Pcm.Runtime.{RuntimeFormat}
use ni_media.Pcm.Runtime.Laws.{format, of_bits_lem, of_parts_lem}
use ni_media.Audio.Info.{bytes_per_sample}
use ni_media.Audio.Ieee80.{whole_numbers}
use ni_media.Audio.Reader.{done, out_of_fuel}
use ni_media.Audio.Reader.Safe.{answers}
use ni_media.Audio.Aiff.Chunks.{CommonChunk, big_endian_fourcc, form, aifc, sowt, fl32}
use ni_media.Audio.Aiff.Header.{aiff_info, with_bit_rate, compression_format, read_aiff_header}
use ni_media.Audio.Aiff.Header.Common.{Form, compressed, IsCommon, described}
use ni_media.Audio.Aiff.Header.Safe.{HasSizedRate}
use ni_media.Audio.Aiff.Header.Answers.{read_aiff_header-answers}
use ni_media.Audio.Aiff.Header.Loop.{looping_file, read_aiff_header_diverges}
use ni_media.Audio.Aiff.Header.Whole.{
  sound_chunk, file_chunks, aiff_file, read_aiff_header-aiff_file,
}
use ni_media.Audio.Aiff.Layout.{Chunk, IsPadded, form_bytes, all_bytes}
use ni_media.Audio.Aiff.Source.{open_aiff}
use ni_media.Audio.Info.{OutContainerType, OutCodecType, bytes_per_frame}
use ni_media.Iostreams.Container.{container_sink}
use ni_media.Common.{false, ◌==◌}
use ni_media.Audio.Aiff.Sink.{format_to_tag, AiffOutInfo, aiff_out_info, frame_size, close}
use ni_media.Audio.Aiff.Sink.Layout.{sink_file}
use ni_media.Audio.Aiff.Sink.Laws.{opened}
use ni_media.Audio.Aiff.Sink.Close.{written, close_aiff-written}
use ni_media.Audio.Aiff.Written.{IsWritable}
use ni_media.Audio.Aiff.RoundTrip.{read_back, closed, open_aiff-close}
use ni_media.Audio.Aiff.Sink.Tags.{compression_format-format_to_tag}

abbrev little : Form
little = compressed sowt

abbrev stereo : CommonChunk
stereo = record {
  num_channels = 2;
  num_sample_frames = 2;
  sample_size = 16;
  ext_sample_rate = 68 ∷ 172 ∷ 0 ∷ 0 ∷ 0 ∷ 0 ∷ 0 ∷ 0 ∷ 0 ∷ 0 ∷ [];
}

abbrev two_frames : List ℕ
two_frames = 1 ∷ 0 ∷ 2 ∷ 0 ∷ 3 ∷ 0 ∷ 255 ∷ 255 ∷ []

abbrev version : Chunk
version = record { id = big_endian_fourcc 70 86 69 82; size = 3; body = 1 ∷ 2 ∷ 3 ∷ 0 ∷ [] }

abbrev format16 : RuntimeFormat
format16 = format signed_integer bit16 little_endian

abbrev two_chunks : List Chunk
two_chunks = file_chunks (version ∷ []) little stereo [] (sound_chunk 16 0 0 two_frames) []

stereo-IsCommon : IsCommon stereo
unfolding le_value
stereo-IsCommon = record {
  some_channels = omega arith;
  few_channels = omega arith;
  some_frames = omega arith;
  frames_fit = omega arith;
  width_fits = omega arith;
  rate_size = refl;
  positive = refl;
  rate_fits = refl;
}

sowt16 : compression_format sowt 16 ≡ some (signed_integer, 16, little_endian)
unfolding compression_format
sowt16 = refl

two_chunks-IsPadded : All IsPadded two_chunks
unfolding le_bytes
two_chunks-IsPadded = (
  record { id_fits = omega arith; size_fits = omega arith; padded = refl },
  (
    record { id_fits = omega arith; size_fits = omega arith; padded = refl },
    (record { id_fits = omega arith; size_fits = omega arith; padded = refl }, tt),
  ),
)

read_aiff_header-aiff_file_example :
    read_aiff_header
      (subview_source container_source)
      big_endian
      9
      (container_file (aiff_file 66 little two_chunks) 5)
    ≡ (
      done (with_bit_rate (described stereo format16 (aiff_info big_endian))),
      container_file (aiff_file 66 little two_chunks) 70,
    )
unfolding le_bytes
read_aiff_header-aiff_file_example =
    read_aiff_header-aiff_file container_file-IsFile big_endian 66 little stereo (version ∷ []) []
      [] 16 0 0 two_frames 5 9 (omega arith) (omega arith) two_chunks-IsPadded (refl, tt) tt tt
      (refl, tt) tt (omega arith) stereo-IsCommon sowt16
      ((of_bits_lem signed_integer little_endian).0 bit16
        ∙ of_parts_lem signed_integer bit16 little_endian)
      (omega arith) (omega arith) (omega arith)

abbrev before_frames : List ℕ
before_frames = take 70 (aiff_file 66 little two_chunks)

abbrev are_bytes : List ℕ → Bool
are_bytes [] = true
are_bytes (b ∷ bs) = ltb b 256 && are_bytes bs

are_bytes_lem : (bs : List ℕ) → are_bytes bs ≡ true → All IsByte bs
are_bytes_lem [] h = tt
are_bytes_lem (b ∷ bs) h = ground (arith, are_bytes_lem bs)

-- The rate of the common chunk is positive, and fits.
two_chunks-HasSizedRate : All HasSizedRate two_chunks
unfolding le_bytes le_value
two_chunks-HasSizedRate = (refl, (refl, (refl, tt)))

read_aiff_header-answers_example :
    answers
      (read_aiff_header
        (subview_source container_source)
        big_endian
        4
        (container_file (form_bytes form 66 aifc ++ all_bytes two_chunks) 3)).0
    ≡ true
unfolding le_bytes
read_aiff_header-answers_example =
    read_aiff_header-answers container_file-StopsAtEnd big_endian form 66 aifc two_chunks 3 4
      (omega arith) (omega arith)
      (are_bytes_lem (form_bytes form 66 aifc ++ all_bytes two_chunks) refl) (omega arith)
      (omega arith) two_chunks-IsPadded two_chunks-HasSizedRate (omega arith)

read_aiff_header_diverges_example :
    read_aiff_header
      (subview_source container_source)
      big_endian
      100
      (container_file (looping_file 12 aifc 7 (1 ∷ [])) 0)
    ≡ (out_of_fuel, container_file (looping_file 12 aifc 7 (1 ∷ [])) 12)
unfolding le_bytes
read_aiff_header_diverges_example =
    read_aiff_header_diverges container_file-IsFile big_endian 12 aifc 7 (1 ∷ []) 0 100
      (omega arith) (omega arith) (omega arith) (omega arith) refl

float_tag : format_to_tag (format floating_point bit32 little_endian) ≡ some fl32
unfolding format_to_tag
float_tag = refl

-- Little-endian floating point is read as big-endian.
compression_format-format_to_tag_example :
    compression_format fl32 32 ≡ some (floating_point, 32, big_endian)
compression_format-format_to_tag_example =
    compression_format-format_to_tag (format floating_point bit32 little_endian) {tag = fl32}
      float_tag

abbrev stereo_info : AiffOutInfo
stereo_info = record {
  stream = record { sample_rate = 44100; num_channels = 2; own_bit_rate = 0; format = format16 };
  lossless = true;
  container = OutContainerType.aiff;
  codec = OutCodecType.aiff;
}

sowt_tag : format_to_tag format16 ≡ some sowt
unfolding format_to_tag
sowt_tag = refl

stereo_frame : (frame_size stereo_info.stream == 0) ≡ false
stereo_frame = refl

close_aiff-written_example : close container_sink big_endian (written stereo_info two_frames) ≡ (
  done tt,
  record (opened stereo_info sowt two_frames) {
    view = container_file (sink_file stereo_info.stream sowt 58 2 16 two_frames) 50;
    info = aiff_out_info big_endian;
  },
)
close_aiff-written_example =
    close_aiff-written big_endian stereo_info two_frames {tag = sowt} (omega arith) sowt_tag
      stereo_frame (omega arith)

stereo_info-IsWritable : IsWritable stereo_info.stream
stereo_info-IsWritable = record {
  some_channels = omega arith;
  few_channels = omega arith;
  some_rate = omega arith;
  rate_fits = omega arith;
}

four_bytes : bytes_per_frame stereo_info.stream ≡ 4
unfolding bytes_per_frame bytes_per_sample
four_bytes = refl

open_aiff-close_example :
    open_aiff container_source big_endian 3
      (container_file (closed big_endian stereo_info two_frames) 0)
    ≡ (
      done (read_back big_endian stereo_info.stream 2),
      window
          (sink_file stereo_info.stream sowt 58 2 16 [])
          []
          (record { bytes = two_frames; position = 0 }),
    )
open_aiff-close_example =
    open_aiff-close big_endian stereo_info two_frames 2 3 {tag = sowt} stereo_info-IsWritable
      sowt_tag (omega (arith, four_bytes)) (omega arith) refl (omega arith) (omega arith)
