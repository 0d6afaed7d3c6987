-- ===== src/Audio/Wav/Source.antt =====
-- The source of a WAV file's samples (wav_source.h): a window on the data, read in whole frames. The
-- assertion on the size of a read is not modelled.
pub mod Laws
use ni_media.Common.{ℕ, ◌-◌, ◌%◌, List, length, take}
use ni_media.Common.Int.{ℤ, pos, ◌+ℤ◌}
use ni_media.Boost.{Algorithms, FindIf}
use ni_media.Iostreams.Positioning.{SeekDir, cur}
use ni_media.Iostreams.Device.{Read, got, eof, Source}
use ni_media.Iostreams.Subview
use ni_media.Iostreams.Subview.{Subview, set_view}
use ni_media.Pcm.Format.{EndianType}
use ni_media.Pcm.Runtime.{RuntimeFormat}
use ni_media.Audio.Info.{bytes_per_frame, num_bytes}
use ni_media.Audio.Wav.Chunks.{WavInfo}
use ni_media.Audio.Wav.Reader.{done, Reader, ◌>>=◌}
use ni_media.Audio.Wav.Header.{read_wav_header, wav_info}

-- `r < 0 ? r : r - r % m_info.bytes_per_frame()`, with the bytes that are left out.
abbrev pub whole_frames : ℕ → Read → Read
whole_frames frame (got bs) = got (take (length bs - length bs % frame) bs)
whole_frames frame eof = eof
whole_frames frame Read.fault = Read.fault

module _ ⦃boost : Algorithms⦄ {S : Type 0} (src : Source S) where
  -- `wav_source::read` with `m_info`.
  unfoldable pub read : WavInfo → ℕ → Subview S → Read × Subview S
  read i n v =
      let (r, v') = Subview.read src n v in (whole_frames (bytes_per_frame i.info.stream) r, v')

  abbrev pub wav_source : WavInfo → Source (Subview S)
  wav_source i = record { read = read i; seek = Subview.seek src.seek }

  -- The view is set to the data, which starts where the header's reader stopped.
  unfoldable pub view_data : WavInfo → Reader (Subview S) WavInfo
  view_data i v =
      let (start, v') = Subview.seek src.seek (pos 0) cur v in
      (done i, set_view start (start +ℤ pos (num_bytes i.info)) v')

  -- The constructor: the header is read through the source itself, whose information is new then.
  unfoldable pub open_wav :
      ⦃range : FindIf RuntimeFormat⦄ → EndianType → ℕ → Reader (Subview S) WavInfo
  open_wav native_endian fuel =
      read_wav_header native_endian (wav_source (wav_info native_endian)) fuel >>= view_data
