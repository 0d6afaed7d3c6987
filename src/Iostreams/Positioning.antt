-- ===== src/Iostreams/Positioning.antt =====
-- `absolute_position` (positioning.h). Stream positions and offsets are integers; that they fit 64
-- bits is the caller's business, as an overflow is undefined.
use ni_media.Common.{ℕ, ◌+◌, ◌^◌, ◌<◌, ◌≤◌, min, ◌≡◌, ap, ◌∙◌, arith}
use ni_media.Common.Int.{ℤ, pos, pos_part, neg_part, ◌+ℤ◌, ◌≤ℤ◌, int_laws}
use ni_media.Boost.{Algorithms}

-- `std::ios_base::seekdir`; the default of the source's switch is for no value of it.
pub data SeekDir : Type 0 where
  beg end cur : SeekDir

-- What a `std::streamoff` of 64 bits holds.
abbrev pub IsStreamoff : ℤ → Type 0
IsStreamoff z = (pos_part z < 2 ^ 63) × (neg_part z ≤ 2 ^ 63)

module _ ⦃boost : Algorithms⦄ where
  -- The sum that the code forms; it is defined where it is an `IsStreamoff`.
  abbrev pub target : ℤ → ℤ → ℤ → ℤ → SeekDir → ℤ
  target here first last off beg = first +ℤ boost.offset_to_position off
  target here first last off end = last +ℤ boost.offset_to_position off
  target here first last off cur = here +ℤ boost.offset_to_position off

  -- From the current position `here` in a stream from `first` to `last`.
  unfoldable pub absolute_position : ℤ → ℤ → ℤ → ℤ → SeekDir → ℤ
  absolute_position here first last off way =
      boost.clamp (target here first last off way) first last

  -- The new position of a seek lies between the beginning and the end, whatever the offset and the
  -- base are, if the beginning is not behind the end.
  pub absolute_position_bounds :
      (here first last off : ℤ) (way : SeekDir)
      → first ≤ℤ last
      → (first ≤ℤ absolute_position here first last off way)
        × (absolute_position here first last off way ≤ℤ last)
  unfolding absolute_position
  absolute_position_bounds here first last off way h =
      rw (boost.clamp_lem (target here first last off way) first last h) (ground arith)

  -- A target within the stream is the new position.
  pub absolute_position-inside :
      (here first last off : ℤ) (way : SeekDir) {t : ℤ}
      → target here first last off way ≡ t
      → first ≤ℤ t
      → t ≤ℤ last
      → absolute_position here first last off way ≡ t
  unfolding absolute_position
  absolute_position-inside here first last off way {t} e lo hi =
      ap (λ t. boost.clamp t first last) e
      ∙ boost.clamp_lem t first last (omega arith)
      ∙ ground arith

  -- From the beginning of a stream a target behind the end goes to the end.
  pub absolute_position-min :
      (here : ℤ) (n q : ℕ) → absolute_position here (pos 0) (pos n) (pos q) beg ≡ pos (min q n)
  unfolding absolute_position
  absolute_position-min here n q =
      let e : pos 0 +ℤ boost.offset_to_position (pos q) ≡ pos q =
        rw (boost.offset_to_position_lem (pos q)) (omega int_laws) in
      ap (λ t. boost.clamp t (pos 0) (pos n)) e
      ∙ boost.clamp_lem (pos q) (pos 0) (pos n) (omega arith)
      ∙ ground arith

  -- So does a step from a position in the stream.
  pub absolute_position-step :
      (p n q : ℕ) → absolute_position (pos p) (pos 0) (pos n) (pos q) cur ≡ pos (min (p + q) n)
  unfolding absolute_position
  absolute_position-step p n q =
      let e : pos p +ℤ boost.offset_to_position (pos q) ≡ pos (p + q) =
        rw (boost.offset_to_position_lem (pos q)) (omega int_laws) in
      ap (λ t. boost.clamp t (pos 0) (pos n)) e
      ∙ boost.clamp_lem (pos (p + q)) (pos 0) (pos n) (omega arith)
      ∙ ground arith
