-- ===== src/Audio/Aiff/Source.antt =====
-- The source of an AIFF file's samples (aiff_source.h): a window on the sound data, read in whole frames.
pub mod Laws
use ni_media.Common.{ℕ}
use ni_media.Common.Int.{pos, ◌+ℤ◌}
use ni_media.Boost.{Algorithms, FindIf, BigEndian}
use ni_media.Iostreams.Positioning.{cur}
use ni_media.Iostreams.Device.{Read, Source}
use ni_media.Iostreams.Subview
use ni_media.Iostreams.Subview.{Subview, set_view}
use ni_media.Pcm.Format.{EndianType}
use ni_media.Pcm.Runtime.{RuntimeFormat}
use ni_media.Audio.Info.{bytes_per_frame, num_bytes}
use ni_media.Audio.Ieee80.{Ieee80}
use ni_media.Audio.Reader.{done, ◌>>=◌}
use ni_media.Audio.Wav.Source.{whole_frames}
use ni_media.Audio.Aiff.Chunks.{AiffInfo}
use ni_media.Audio.Aiff.Header.{Reader, aiff_info, read_aiff_header}

module _ ⦃boost : Algorithms⦄ {S : Type 0} (src : Source S) where
  -- `aiff_source::read` with `m_info`.
  unfoldable pub read : AiffInfo → ℕ → Subview S → Read × Subview S
  read i n v =
      let (r, v') = Subview.read src n v in (whole_frames (bytes_per_frame i.info.stream) r, v')

  abbrev pub aiff_source : AiffInfo → Source (Subview S)
  aiff_source i = record { read = read i; seek = Subview.seek src.seek }

  -- The view is set to as many bytes as the frames take, from where the header's reader stopped.
  unfoldable pub view_data : AiffInfo → Reader (Subview S) AiffInfo
  view_data i v =
      let (start, v') = Subview.seek src.seek (pos 0) cur v in
      (done i, set_view start (start +ℤ pos (num_bytes i.info)) v')

  -- The constructor: the header is read through the source itself, whose information is new then.
  unfoldable pub open_aiff :
      ⦃range : FindIf RuntimeFormat⦄ ⦃big : BigEndian⦄ ⦃ieee : Ieee80⦄
      → EndianType
      → ℕ
      → Reader (Subview S) AiffInfo
  open_aiff native_endian fuel =
      read_aiff_header (aiff_source (aiff_info native_endian)) native_endian fuel >>= view_data
