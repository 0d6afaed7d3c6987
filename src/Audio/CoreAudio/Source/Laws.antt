-- ===== src/Audio/CoreAudio/Source/Laws.antt =====
-- The read callback over a file: it keeps its own position, and gives what lies at any position.
use ni_media.Common.{ℕ, ◌≡◌, List, length, min}
use ni_media.Common.Int.{pos}
use ni_media.Iostreams.Device.{Source}
use ni_media.Audio.CoreAudio.Source.{ClientData}

-- The client's position is `p`, and its source stands there, or at the end of the file if that comes first.
pub record IsClient {S : Type 0} (at : List ℕ → ℕ → S) (bytes : List ℕ) (p : ℕ) (c : ClientData S)
    : Type 0 where
  pub there : c.source ≡ at bytes (min p (length bytes))
  pub same_pos : c.position ≡ pos p
