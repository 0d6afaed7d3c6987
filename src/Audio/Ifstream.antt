-- ===== src/Audio/Ifstream.antt =====
-- How an input stream is opened (ifstream.cpp): the choice of a source by the container, and its buffer
-- (stream_buffer.h). The sources are parameters here: each opens or fails with an error of its own.
pub mod Laws
use ni_media.Common.{
  ℕ, ◌*◌, ◌%◌, ◌^◌, Bool, true, false, not, ◌&&◌, Option, none, some, List, ◌==◌, if◌then◌else◌,
}
use ni_media.Audio.Info.{ContainerType, IfstreamInfo, size_t, bytes_per_frame}
use ni_media.Audio.Reader.{Outcome, done, thrown, undefined, out_of_fuel}
use ni_media.Audio.Tools.{Features, FileNames, is_itunes_url, ifstream_container}

-- The `std::runtime_error`s of this file, and those of a source.
pub data IfstreamError (E : Type 0) : Type 0 where
  unsupported_extension unsupported_stream_index unsupported_container : IfstreamError E
  of_source : E → IfstreamError E

-- A `stream_buffer` on a source: the device, the bytes of its buffer and the characters that can be put back.
pub record StreamBuffer (D : Type 0) : Type 0 where
  pub device : D
  pub buffer_size : ℕ
  pub pback_size : ℕ

pub record Ifstream (D : Type 0) : Type 0 where
  pub streambuf : StreamBuffer D
  pub info : IfstreamInfo

-- The sources for files. That of MP4 takes the number of a stream, and so does that of iTunes.
pub record FileSources (E D : Type 0) : Type 0 where
  pub aiff : List ℕ → Outcome E D
  pub flac : List ℕ → Outcome E D
  pub mp3 : List ℕ → Outcome E D
  pub mp4 : List ℕ → ℕ → Outcome E D
  pub ogg : List ℕ → Outcome E D
  pub wav : List ℕ → Outcome E D
  pub wma : List ℕ → Outcome E D
  pub avassetreader : List ℕ → ℕ → Outcome E D

-- The sources on a backend `B` of the caller.
pub record CustomSources (B E D : Type 0) : Type 0 where
  pub aiff : B → Outcome E D
  pub flac : B → Outcome E D
  pub mp3 : B → ContainerType → ℕ → Outcome E D
  pub mp4 : B → ContainerType → ℕ → Outcome E D
  pub ogg : B → Outcome E D
  pub wav : B → Outcome E D
  pub wma : B → ContainerType → ℕ → Outcome E D

-- The sources on bytes in memory (ifvectorstream.cpp).
pub record VectorSources (E D : Type 0) : Type 0 where
  pub aiff : List ℕ → Outcome E D
  pub flac : List ℕ → Outcome E D
  pub mp3 : List ℕ → Outcome E D
  pub mp4 : List ℕ → Outcome E D
  pub ogg : List ℕ → Outcome E D
  pub wav : List ℕ → Outcome E D
  pub wma : List ℕ → Outcome E D

abbrev pub is_mp4 : ContainerType → Bool
is_mp4 ContainerType.mp4 = true
is_mp4 _ = false

abbrev pub make_stream_buffer : {D : Type 0} → (D → IfstreamInfo) → D → ℕ → StreamBuffer D
make_stream_buffer info device frames_per_buffer = record {
  device = device;
  buffer_size = size_t (frames_per_buffer * bytes_per_frame (info device).stream);
  pback_size = 4;
}

module _ {E D : Type 0} (info : D → IfstreamInfo) where
  abbrev pub make_ifstream : Outcome E D → Outcome (IfstreamError E) (Ifstream D)
  make_ifstream (done device) =
      done (record { streambuf = make_stream_buffer info device 4096; info = info device })
  make_ifstream (thrown e) = thrown (of_source e)
  make_ifstream undefined = undefined
  make_ifstream out_of_fuel = out_of_fuel

  -- A case of the switch, if its format is enabled.
  abbrev pub case_of : Bool → Outcome E D → Outcome (IfstreamError E) (Ifstream D)
  case_of true source = make_ifstream source
  case_of false source = thrown unsupported_container

  module _ (f : Features) where
    unfoldable pub open_file :
        FileSources E D → List ℕ → ContainerType → ℕ → Outcome (IfstreamError E) (Ifstream D)
    open_file sources file container stream_index =
        if not (is_mp4 container) && not (stream_index == 0)
        then thrown unsupported_stream_index
        else elim container [
          | ContainerType.aiff ↦ case_of f.aiff (sources.aiff file)
          | ContainerType.flac ↦ case_of f.flac (sources.flac file)
          | ContainerType.mp3 ↦ case_of f.mp3 (sources.mp3 file)
          | ContainerType.mp4 ↦ case_of f.mp4 (sources.mp4 file stream_index)
          | ContainerType.ogg ↦ case_of f.ogg (sources.ogg file)
          | ContainerType.wav ↦ case_of f.wav (sources.wav file)
          | ContainerType.wma ↦ case_of f.wma (sources.wma file)
        ]

    unfoldable pub open_backend :
        {B : Type 0}
        → CustomSources B E D
        → B
        → ContainerType
        → ℕ
        → Outcome (IfstreamError E) (Ifstream D)
    open_backend sources source container stream_index =
        if not (is_mp4 container) && not (stream_index == 0)
        then thrown unsupported_stream_index
        else elim container [
          | ContainerType.aiff ↦ case_of f.aiff (sources.aiff source)
          | ContainerType.flac ↦ case_of f.flac (sources.flac source)
          | ContainerType.mp3 ↦ case_of f.mp3 (sources.mp3 source ContainerType.mp3 stream_index)
          | ContainerType.mp4 ↦ case_of f.mp4 (sources.mp4 source ContainerType.mp4 stream_index)
          | ContainerType.ogg ↦ case_of f.ogg (sources.ogg source)
          | ContainerType.wav ↦ case_of f.wav (sources.wav source)
          | ContainerType.wma ↦ case_of f.wma (sources.wma source ContainerType.wma stream_index)
        ]

    unfoldable pub open_vector :
        VectorSources E D → List ℕ → ContainerType → Outcome (IfstreamError E) (Ifstream D)
    open_vector sources vec container = elim container [
      | ContainerType.aiff ↦ case_of f.aiff (sources.aiff vec)
      | ContainerType.flac ↦ case_of f.flac (sources.flac vec)
      | ContainerType.mp3 ↦ case_of f.mp3 (sources.mp3 vec)
      | ContainerType.mp4 ↦ case_of f.mp4 (sources.mp4 vec)
      | ContainerType.ogg ↦ case_of f.ogg (sources.ogg vec)
      | ContainerType.wav ↦ case_of f.wav (sources.wav vec)
      | ContainerType.wma ↦ case_of f.wma (sources.wma vec)
    ]

    -- From a name alone.
    unfoldable pub open_url :
        FileNames → FileSources E D → List ℕ → Outcome (IfstreamError E) (Ifstream D)
    open_url names sources file =
        if f.itunes && is_itunes_url names file
        then make_ifstream (sources.avassetreader file 0)
        else elim (ifstream_container names f file) [
          | none ↦ thrown unsupported_extension
          | some container ↦ open_file sources file container 0
        ]
