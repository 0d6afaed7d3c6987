-- ===== src/Lib.antt =====
-- ni-media: PCM sample formats and audio file streams.
--
-- The repository has two libraries. `pcm` describes sample formats (a number type, a width and a byte
-- order) and converts samples; `audiostream` opens audio files: a device (a file, a container in memory
-- or a callback) carries a window (`subview`), on which the source of a file format reads a header and
-- then the samples, with the positions counted from the start of the data.
--
-- Parts and files:
--   Common    names and lemmas that all share: tests, lists, integers, bits, bytes.
--   Boost     what the sources call of Boost, as records of operations with their documented laws.
--   Pcm       Format: pcm/inc/ni/media/pcm/description.h, compiletime_format.h, detail/tuple_find.h.
--             Runtime: runtime_format.h, with the strings in Runtime/Text. Convert: the conversions
--             between integers of converter.h. Limits: limits.h for integers.
--             Sample: `intermediate`, `read_impl` and `write_impl` of converter.h.
--             Dispatch: the choice by a runtime format, of converter.h. Iterator: iterator.h over bytes.
--   Iostreams Positioning: audiostream/inc/ni/media/iostreams/positioning.h. Container, Subview, Fetch:
--             audiostream/src/ni/media/iostreams, device/container.h, device/subview.h, fetch.h and
--             write_obj.h. Device and File: what the templates ask of a device, and of a source that
--             behaves as a file; a window on the whole of a container is one.
--   Audio     Info: stream_info.cpp and ifstream_info.cpp of audiostream/src/ni/media/audio. Wav/Chunks:
--             wav/wav_chunks.h, wav/wav_format.h, fourcc.h. Wav/Header: `readWavHeader` of
--             wav/wav_source.h. Wav/Source: the class `wav_source`. Wav/Sink: wav/wav_sink.h.
--             Wav/RoundTrip: what the sink wrote, read by the source. Reader: readers that throw, with
--             Reader/Safe for those that always answer. Ieee80: the 80-bit rates of AIFF, a parameter.
--             Aiff/Chunks: aiff/aiff_chunks.h and aiff_specific_info.h. Aiff/Header: `readAiffHeader` of
--             aiff/aiff_source.h. Aiff/Source: the class `aiff_source`. Aiff/Sink: aiff/aiff_sink.h.
--             Aiff/Layout: an AIFF file as a sequence of chunks. Aiff/RoundTrip: what the sink wrote, read by the
--             source.
--             Flac: flac/flac_source.h, with libFLAC's decoder in Flac/Decoder, the loops of the write callback in
--             Flac/Interleave, and what the decoder is relied on for in Flac/Decoding. Ogg: ogg/ogg_source.h, with
--             libvorbisfile in Ogg/Vorbis. CoreAudio: os/mac/core_audio_source.h, with the system in
--             CoreAudio/System and what the source says of a file in CoreAudio/Describe.
--             Info/Equality: the comparisons of informations, with ofstream_info.cpp and fstream_info.cpp.
--             Tools: iotools.cpp. Ifstream: how ifstream.cpp and ifvectorstream.cpp open a source, and the size of
--             the buffer of iostreams/stream_buffer.h.
--             Istream: positions in samples and frames of istream.cpp, over std::istream.
--   Tests     the theorems at concrete inputs.
--
-- State is passed explicitly: an operation on a device takes it and returns its result with the new
-- device. An exception is a result. An access out of range and an overflow of a signed integer are
-- results of their own. A `size_t` has 64 bits, and a `uint32_t` wraps where the source computes in it.
-- Stream positions are integers without bounds; an overflow of the sum that a seek forms is undefined in the source, and
-- is excluded by a hypothesis where a theorem is about seeking by any offset. The cast of a sample rate that no `size_t`
-- holds is undefined and a result of its own.
--
-- The header's readers run on any source that is a file: its seeks are known within the file, and what one behind
-- the end does is only known of sources that stop there, as a container does and a file descriptor does not.
--
-- The loops over the chunks of WAV and AIFF files have fuel, as some files keep them in the loop for ever.
-- One turn for each chunk, and in AIFF files one more, is enough for files whose chunks are padded and lie
-- below 4 GiB.
--
-- The loops of the FLAC and the Ogg source have fuel, as the decoder's answers end them: two turns more than the
-- blocks to come, and a turn more than the frames that are asked for, are enough.
--
-- Structures are read from a file as they lie in memory, so the WAV reader is that of a little-endian
-- host; samples and formats are modelled for either byte order.
--
-- Not modelled: samples of floating point, the input iterators and the algorithms over samples, the output
-- streams; the conversion of 80-bit floating point, which is a copy of another project's code; the sources on
-- Windows and iOS, which call the systems' decoders. libFLAC, libvorbisfile and AudioToolbox are parameters, and so is
-- the buffer of a stream, which is Boost's.
pub mod Common
pub mod Boost
pub mod Pcm
pub mod Iostreams
pub mod Audio
pub mod Tests
