-- ===== src/Audio/CoreAudio/Source/Inside.antt =====
-- The position of a source stays within the samples, whatever is read and sought.
use ni_media.Common.{ℕ, ◌*◌, ◌≤◌, ◌<◌, ◌≡◌, Bool, Option, none, some, List, length}
use ni_media.Common.Int.{ℤ, pos}
use ni_media.Boost.{Algorithms}
use ni_media.Iostreams.Positioning.{SeekDir}
use ni_media.Iostreams.Device.{Source}
use ni_media.Audio.Info.{IfstreamInfo, bytes_per_frame, num_bytes}
use ni_media.Audio.Reader.{done}
use ni_media.Audio.CoreAudio.System.{Constants, AudioToolbox}
use ni_media.Audio.CoreAudio.Source.{ClientData, CoreAudioSource, audio_file_read_proc, seek, read}

-- Frames that were read, if any, are no more than those that were asked for.
abbrev pub IsFew : ℕ → ℕ → Option (List ℕ) → Type 0
IsFew frame n none = Unit
IsFew frame n (some bs) = length bs ≤ n * frame

-- What the system's documentation says: a call comes to an end, and a read gives no more frames than its buffer
-- is said to hold.
pub record IsAudioToolbox {S M F : Type 0} (src : Source S)
    (system : AudioToolbox (ClientData S) M F) (frame : ℕ) : Type 0 where
  pub read_few :
      (n : ℕ) (m : M) (c : ClientData S)
      → (r : Option (List ℕ)) × (m' : M) × (c' : ClientData S) × (system.read
            (audio_file_read_proc src)
            n
            m
            c
          ≡ (done (r, m'), c'))
        × IsFew frame n r
  pub seek_ends :
      (n : ℕ) (m : M) (c : ClientData S)
      → (moved : Bool) × (m' : M) × (c' : ClientData S) × (system.seek
            (audio_file_read_proc src)
            n
            m
            c
          ≡ (done (moved, m'), c'))

-- A position in the samples.
pub record IsInside {S M : Type 0} (info : IfstreamInfo) (st : CoreAudioSource S M) : Type 0 where
  pub place : ℕ
  pub same_pos : st.pos ≡ pos place
  pub inside : place ≤ num_bytes info
  pub same_info : st.info ≡ info

module _ {S M F : Type 0} (src : Source S) (k : Constants)
    (system : AudioToolbox (ClientData S) M F) (info : IfstreamInfo)
    (some_bytes : 0 < bytes_per_frame info.stream)
    (toolbox : IsAudioToolbox src system (bytes_per_frame info.stream)) where
  -- What a caller may do.
  pub data Step ⦃boost : Algorithms⦄ (st : CoreAudioSource S M) : CoreAudioSource S M → Type 0 where
    reads : (size : ℕ) → Step st (read src k system size st).1
    seeks : (off : ℤ) (way : SeekDir) → Step st (seek src k system off way st).1

  pub data Reach ⦃boost : Algorithms⦄ (st : CoreAudioSource S M)
      : CoreAudioSource S M → Type 0 where
    here : Reach st st
    after : {st' st'' : CoreAudioSource S M} → Reach st st' → Step st' st'' → Reach st st''
