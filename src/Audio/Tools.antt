-- ===== src/Audio/Tools.antt =====
-- Which container a file's name stands for (iotools.cpp). The macros that enable the formats, the file system
-- and Boost's string algorithms are parameters. A string is its list of character codes.
pub mod Laws
use ni_media.Common.{
  ℕ, Bool, true, false, not, ◌&&◌, ◌||◌, Option, none, some, List, [], ◌∷◌, ◌++◌, length, ◌==◌,
  if◌then◌else◌,
}
use ni_media.Boost.{same}
use ni_media.Audio.Info.{ContainerType, OutContainerType}

-- `NIMEDIA_ENABLE_..._DECODING` and `NIMEDIA_ENABLE_WAV_ENCODING`.
pub record Features : Type 0 where
  pub aiff : Bool
  pub flac : Bool
  pub mp3 : Bool
  pub mp4 : Bool
  pub ogg : Bool
  pub wav : Bool
  pub wma : Bool
  pub itunes : Bool
  pub wav_encoding : Bool

-- boost::filesystem and boost::algorithm.
pub record FileNames : Type 0 where
  pub is_regular_file : List ℕ → Bool
  pub has_extension : List ℕ → Bool
  pub extension : List ℕ → List ℕ
  pub to_lower_copy : List ℕ → List ℕ
  pub starts_with : List ℕ → List ℕ → Bool

abbrev pub when {ℓ} : {A : Type ℓ} → Bool → List A → List A
when true xs = xs
when false xs = []

abbrev pub ifstream_supported_formats : Features → List (List ℕ × ContainerType)
ifstream_supported_formats f =
    when f.aiff (
      (b'.' ∷ b'a' ∷ b'i' ∷ b'f' ∷ [], ContainerType.aiff)
      ∷ (b'.' ∷ b'a' ∷ b'i' ∷ b'f' ∷ b'f' ∷ [], ContainerType.aiff)
      ∷ (b'.' ∷ b'a' ∷ b'i' ∷ b'f' ∷ b'c' ∷ [], ContainerType.aiff)
      ∷ [])
    ++ (when f.flac ((b'.' ∷ b'f' ∷ b'l' ∷ b'a' ∷ b'c' ∷ [], ContainerType.flac) ∷ [])
        ++ (when f.mp3 ((b'.' ∷ b'm' ∷ b'p' ∷ b'3' ∷ [], ContainerType.mp3) ∷ [])
            ++ (when f.mp4 (
                  (b'.' ∷ b'm' ∷ b'p' ∷ b'4' ∷ [], ContainerType.mp4)
                  ∷ (b'.' ∷ b'm' ∷ b'4' ∷ b'a' ∷ [], ContainerType.mp4)
                  ∷ [])
                ++ (when f.ogg ((b'.' ∷ b'o' ∷ b'g' ∷ b'g' ∷ [], ContainerType.ogg) ∷ [])
                    ++ (when f.wav (
                          (b'.' ∷ b'w' ∷ b'a' ∷ b'v' ∷ [], ContainerType.wav)
                          ∷ (b'.' ∷ b'w' ∷ b'a' ∷ b'v' ∷ b'e' ∷ [], ContainerType.wav)
                          ∷ [])
                        ++ when f.wma
                            ((b'.' ∷ b'w' ∷ b'm' ∷ b'a' ∷ [], ContainerType.wma) ∷ []))))))

abbrev pub ofstream_map : Features → List (List ℕ × OutContainerType)
ofstream_map f = when f.wav_encoding (
    (b'.' ∷ b'w' ∷ b'a' ∷ b'v' ∷ [], OutContainerType.wav)
    ∷ (b'.' ∷ b'w' ∷ b'a' ∷ b'v' ∷ b'e' ∷ [], OutContainerType.wav)
    ∷ [])

-- `std::map::find`: the keys are all different.
unfoldable pub find {ℓ} : {A : Type ℓ} → List ℕ → List (List ℕ × A) → Option A
find key [] = none
find key ((k, a) ∷ rest) = let found = find key rest in if same k key then some a else found

module _ (names : FileNames) where
  -- "ipod-library://"
  unfoldable pub is_itunes_url : List ℕ → Bool
  is_itunes_url url = names.starts_with url (
      b'i' ∷ b'p' ∷ b'o' ∷ b'd' ∷ b'-' ∷ b'l' ∷ b'i' ∷ b'b' ∷ b'r' ∷ b'a' ∷ b'r' ∷ b'y' ∷ b':'
      ∷ b'/' ∷ b'/' ∷ [])

  unfoldable pub extension_from_url : Features → List ℕ → List ℕ
  extension_from_url f url =
      if f.itunes && is_itunes_url url
      then []
      else if names.is_regular_file url && names.has_extension url
      then names.extension url
      else []

  unfoldable pub container_of {ℓ} : {A : Type ℓ} → Features → List ℕ → List (List ℕ × A) → Option A
  container_of f url map =
      let extension = extension_from_url f url in
      if length extension == 0 then none else find (names.to_lower_copy extension) map

  unfoldable pub ifstream_container : Features → List ℕ → Option ContainerType
  ifstream_container f url = container_of f url (ifstream_supported_formats f)

  unfoldable pub ofstream_container : Features → List ℕ → Option OutContainerType
  ofstream_container f url = container_of f url (ofstream_map f)

  unfoldable pub can_read_file : Features → List ℕ → Bool
  can_read_file f url = elim (ifstream_container f url) [ none ↦ false | some c ↦ true ]

  -- With the set of the supported containers, as a test.
  unfoldable pub can_read_file_of : Features → List ℕ → (ContainerType → Bool) → Bool
  can_read_file_of f url supported = elim (ifstream_container f url) [
    | none ↦ false
    | some c ↦ supported c
  ]
