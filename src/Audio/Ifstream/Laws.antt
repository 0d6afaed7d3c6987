-- ===== src/Audio/Ifstream/Laws.antt =====
-- Which names open, and with which source.
use ni_media.Common.{ℕ, ◌≡◌, refl, true, false, ◌&&◌, some, List, Option-cases, inl, inr, ◌⊎◌}
use ni_media.Audio.Info.{ContainerType, IfstreamInfo}
use ni_media.Audio.Reader.{Outcome, thrown}
use ni_media.Audio.Tools.{Features, FileNames, is_itunes_url, ifstream_container, can_read_file}
use ni_media.Audio.Tools.Laws.{enabled, ifstream_container-enabled}
use ni_media.Audio.Ifstream.{unsupported_extension, FileSources, make_ifstream, open_file, open_url}

module _ {E D : Type 0} (info : D → IfstreamInfo) (f : Features) (sources : FileSources E D) where
  -- The source for a container.
  abbrev pub source_of : ContainerType → List ℕ → ℕ → Outcome E D
  source_of ContainerType.aiff file n = sources.aiff file
  source_of ContainerType.flac file n = sources.flac file
  source_of ContainerType.mp3 file n = sources.mp3 file
  source_of ContainerType.mp4 file n = sources.mp4 file n
  source_of ContainerType.ogg file n = sources.ogg file
  source_of ContainerType.wav file n = sources.wav file
  source_of ContainerType.wma file n = sources.wma file

  open_file-enabled :
      (c : ContainerType) (file : List ℕ)
      → enabled f c ≡ true
      → open_file info f sources file c 0 ≡ make_ifstream info (source_of c file 0)
  unfolding open_file
  open_file-enabled ContainerType.aiff file e = rw e refl
  open_file-enabled ContainerType.flac file e = rw e refl
  open_file-enabled ContainerType.mp3 file e = rw e refl
  open_file-enabled ContainerType.mp4 file e = rw e refl
  open_file-enabled ContainerType.ogg file e = rw e refl
  open_file-enabled ContainerType.wav file e = rw e refl
  open_file-enabled ContainerType.wma file e = rw e refl

  -- For a name that is no iTunes address, either can_read_file holds, and opening a stream by the
  -- name comes to what the source of the name's container gives; or it does not hold, and opening
  -- is refused for the extension.
  pub open_url-can_read_file :
      (names : FileNames) (url : List ℕ)
      → (f.itunes && is_itunes_url names url) ≡ false
      → ((can_read_file names f url ≡ true)
          × (c : ContainerType) × (ifstream_container names f url ≡ some c)
          × (open_url info f names sources url ≡ make_ifstream info (source_of c url 0)))
        ⊎ ((can_read_file names f url ≡ false)
            × (open_url info f names sources url ≡ thrown unsupported_extension))
  unfolding open_url can_read_file
  open_url-can_read_file names url no_itunes =
      elim (Option-cases (ifstream_container names f url)) [
        | inl unknown ↦ inr (rw (can_read_file, unknown) refl, rw (no_itunes, unknown) refl)
        | inr (c, known) ↦ inl (
          rw (can_read_file, known) refl,
          c,
          known,
          rw (no_itunes, known)
              (open_file-enabled c url (ifstream_container-enabled names f url known)),
        )
      ]
