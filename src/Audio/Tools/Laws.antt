-- ===== src/Audio/Tools/Laws.antt =====
-- The containers that a name can stand for are those of the formats that are enabled.
use ni_media.Common.{
  ◌∙◌, ℕ, ◌≡◌, refl, Bool, true, false, none, some, List, [], ◌∷◌, ◌++◌, length, ◌==◌, ◌↔◌,
  Bool-cases, inl, inr,
}
use ni_media.Boost.{same}
use ni_media.Audio.Info.{ContainerType}
use ni_media.Audio.Tools.{
  Features, FileNames, when, find, ifstream_supported_formats, container_of, ifstream_container,
  extension_from_url,
}

abbrev pub enabled : Features → ContainerType → Bool
enabled f ContainerType.aiff = f.aiff
enabled f ContainerType.flac = f.flac
enabled f ContainerType.mp3 = f.mp3
enabled f ContainerType.mp4 = f.mp4
enabled f ContainerType.ogg = f.ogg
enabled f ContainerType.wav = f.wav
enabled f ContainerType.wma = f.wma

abbrev AllEnabled : Features → List (List ℕ × ContainerType) → Type 0
AllEnabled f [] = Unit
AllEnabled f ((k, c) ∷ rest) = (enabled f c ≡ true) × AllEnabled f rest

AllEnabled-append :
    (f : Features) (xs ys : List (List ℕ × ContainerType))
    → AllEnabled f xs
    → AllEnabled f ys
    → AllEnabled f (xs ++ ys)
AllEnabled-append f [] ys h h' = h'
AllEnabled-append f ((k, c) ∷ xs) ys h h' = (h.0, AllEnabled-append f xs ys h.1 h')

find-enabled :
    (f : Features) (key : List ℕ) (map : List (List ℕ × ContainerType)) {c : ContainerType}
    → AllEnabled f map
    → find key map ≡ some c
    → enabled f c ≡ true
unfolding find
find-enabled f key [] h e = absurd cc
find-enabled f key ((k, d) ∷ rest) {c} h e = elim (Bool-cases (same k key)) [
  | inl here ↦
      let first : some d ≡ some c = rw here at e in
      let same_container : d ≡ c = cc in rw (← same_container) h.0
  | inr there ↦ find-enabled f key rest h.1 (rw there at e)
]

when-AllEnabled :
    (f : Features) (b : Bool) (xs : List (List ℕ × ContainerType))
    → (b ≡ true → AllEnabled f xs)
    → AllEnabled f (when b xs)
when-AllEnabled f true xs h = h refl
when-AllEnabled f false xs h = tt

supported-AllEnabled : (f : Features) → AllEnabled f (ifstream_supported_formats f)
supported-AllEnabled f =
    AllEnabled-append f _ _ (when-AllEnabled f f.aiff _ (λ e. (e, (e, (e, tt))))) (
      AllEnabled-append f _ _ (when-AllEnabled f f.flac _ (λ e. (e, tt))) (
        AllEnabled-append f _ _ (when-AllEnabled f f.mp3 _ (λ e. (e, tt))) (
          AllEnabled-append f _ _ (when-AllEnabled f f.mp4 _ (λ e. (e, (e, tt)))) (
            AllEnabled-append f _ _ (when-AllEnabled f f.ogg _ (λ e. (e, tt))) (
              AllEnabled-append f _ _ (when-AllEnabled f f.wav _ (λ e. (e, (e, tt))))
                (when-AllEnabled f f.wma _ (λ e. (e, tt))))))))

-- Names of other formats are passed over.
find-append_none :
    (key : List ℕ) (xs ys : List (List ℕ × ContainerType))
    → find key xs ≡ none
    → find key (xs ++ ys) ≡ find key ys
unfolding find
find-append_none key [] ys h = refl
find-append_none key ((k, c) ∷ xs) ys h = elim (Bool-cases (same k key)) [
  | inl here ↦ let found : some c ≡ none = rw here at h in absurd cc
  | inr there ↦ rw there (find-append_none key xs ys (rw there at h))
]

find-when :
    (key : List ℕ) (b : Bool) (xs ys : List (List ℕ × ContainerType))
    → find key xs ≡ none
    → find key (when b xs ++ ys) ≡ find key ys
find-when key true xs ys h = find-append_none key xs ys h
find-when key false xs ys h = refl

abbrev usual_name : ContainerType → List ℕ
usual_name ContainerType.aiff = b'.' ∷ b'a' ∷ b'i' ∷ b'f' ∷ []
usual_name ContainerType.flac = b'.' ∷ b'f' ∷ b'l' ∷ b'a' ∷ b'c' ∷ []
usual_name ContainerType.mp3 = b'.' ∷ b'm' ∷ b'p' ∷ b'3' ∷ []
usual_name ContainerType.mp4 = b'.' ∷ b'm' ∷ b'p' ∷ b'4' ∷ []
usual_name ContainerType.ogg = b'.' ∷ b'o' ∷ b'g' ∷ b'g' ∷ []
usual_name ContainerType.wav = b'.' ∷ b'w' ∷ b'a' ∷ b'v' ∷ []
usual_name ContainerType.wma = b'.' ∷ b'w' ∷ b'm' ∷ b'a' ∷ []

-- The lookup of a usual name, if its format is enabled.
find-usual_name :
    (f : Features) (c : ContainerType)
    → enabled f c ≡ true
    → find (usual_name c) (ifstream_supported_formats f) ≡ some c
unfolding find
find-usual_name f ContainerType.aiff e = rw e refl
find-usual_name f ContainerType.flac e =
    find-when (usual_name ContainerType.flac) f.aiff _ _ refl ∙ rw e refl
find-usual_name f ContainerType.mp3 e =
    let key = usual_name ContainerType.mp3 in
    find-when key f.aiff _ _ refl ∙ find-when key f.flac _ _ refl ∙ rw e refl
find-usual_name f ContainerType.mp4 e =
    let key = usual_name ContainerType.mp4 in
    find-when key f.aiff _ _ refl
    ∙ find-when key f.flac _ _ refl
    ∙ find-when key f.mp3 _ _ refl
    ∙ rw e refl
find-usual_name f ContainerType.ogg e =
    let key = usual_name ContainerType.ogg in
    find-when key f.aiff _ _ refl
    ∙ find-when key f.flac _ _ refl
    ∙ find-when key f.mp3 _ _ refl
    ∙ find-when key f.mp4 _ _ refl
    ∙ rw e refl
find-usual_name f ContainerType.wav e =
    let key = usual_name ContainerType.wav in
    find-when key f.aiff _ _ refl
    ∙ find-when key f.flac _ _ refl
    ∙ find-when key f.mp3 _ _ refl
    ∙ find-when key f.mp4 _ _ refl
    ∙ find-when key f.ogg _ _ refl
    ∙ rw e refl
find-usual_name f ContainerType.wma e =
    let key = usual_name ContainerType.wma in
    find-when key f.aiff _ _ refl
    ∙ find-when key f.flac _ _ refl
    ∙ find-when key f.mp3 _ _ refl
    ∙ find-when key f.mp4 _ _ refl
    ∙ find-when key f.ogg _ _ refl
    ∙ find-when key f.wav _ _ refl
    ∙ rw e refl

-- x
pub find-supported_iff :
    (f : Features) (c : ContainerType)
    → (enabled f c ≡ true) ↔ ((key : List ℕ) × (find key (ifstream_supported_formats f) ≡ some c))
find-supported_iff f c = (
  λ e. (usual_name c, find-usual_name f c e),
  λ (key, e). find-enabled f key (ifstream_supported_formats f) (supported-AllEnabled f) e,
)

pub ifstream_container-enabled :
    (names : FileNames) (f : Features) (url : List ℕ) {c : ContainerType}
    → ifstream_container names f url ≡ some c
    → enabled f c ≡ true
unfolding ifstream_container container_of
ifstream_container-enabled names f url {c} e =
    elim (Bool-cases (length (extension_from_url names f url) == 0)) [
      | inl nothing ↦ let refused : none ≡ some c = rw nothing at e in absurd cc
      | inr some_ ↦
          find-enabled f (names.to_lower_copy (extension_from_url names f url))
            (ifstream_supported_formats f) (supported-AllEnabled f) (rw some_ at e)
    ]
