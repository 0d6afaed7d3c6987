-- ===== src/Audio/Flac/Source/Reading.antt =====
-- What libFLAC gets from the callbacks of a FLAC source over a file.
use ni_media.Common.{
  ℕ, ◌+◌, ◌-◌, ◌<◌, ◌≡◌, refl, ap, ◌∙◌, arith, true, false, List, [], length, take, drop, take-min,
  min, length-take, length-drop, ltb, ◌==◌, some, sym, Bool-cases, inl, inr,
}
use ni_media.Iostreams.Device.{Source}
use ni_media.Iostreams.File.Laws.{read_end}
use ni_media.Iostreams.File.{IsFile, IsFileSize}
use ni_media.Audio.Reader.{done}
use ni_media.Audio.Flac.Decoder.{read_continue, read_abort}
use ni_media.Audio.Flac.Metadata.{FlacSource}
use ni_media.Audio.Flac.Source.{read_callback, tell_callback, eof_callback}

module _ {S D : Type 0} {src : Source S} {at : List ℕ → ℕ → S} (file : IsFile src at) where
  -- The source over a position in a file.
  abbrev pub over_file : List ℕ → ℕ → FlacSource S D → FlacSource S D
  over_file bytes p st = record st { source = at bytes p }

  -- x
  pub read_callback-file :
      (bytes : List ℕ) (p n : ℕ) (st : FlacSource S D)
      → IsFileSize bytes
      → p < length bytes
      → 0 < n
      → (read_callback src n (over_file bytes p st) ≡ (
        done (read_continue, take n (drop p bytes)),
        over_file bytes (p + min n (length bytes - p)) st,
      ))
        × (tell_callback src (over_file bytes p st) ≡ (done (some p), over_file bytes p st))
  unfolding read_callback tell_callback
  read_callback-file bytes p n st size inside some_bytes =
      let asked : ltb 0 n ≡ true = ground arith in
      let count = min n (length bytes - p) in
      let some_left : (count == 0) ≡ false = ground arith in
      let part : take count (drop p bytes) ≡ take n (drop p bytes) =
        ap (λ (k : ℕ). take (min n k) (drop p bytes)) (sym (length-drop p bytes))
        ∙ take-min n (drop p bytes) in
      let len = length-take n (drop p bytes) in
      let rest = length-drop p bytes in
      let not_empty : (length (take n (drop p bytes)) == 0) ≡ false = ground arith in
      (
        rw (asked, file.read_at bytes p n size (omega arith), some_left, part, not_empty) refl,
        rw (file.tell_at bytes p size (omega arith)) refl,
      )

  -- At the end of a file libFLAC is told that its read was aborted, whatever it asked for, and that
  -- the end is not reached; the source is as before.
  pub read_callback-end :
      (bytes : List ℕ) (n : ℕ) (st : FlacSource S D)
      → IsFileSize bytes
      → (read_callback src n (over_file bytes (length bytes) st)
          ≡ (done (read_abort, []), over_file bytes (length bytes) st))
        × (eof_callback src (over_file bytes (length bytes) st)
            ≡ (done false, over_file bytes (length bytes) st))
  unfolding read_callback eof_callback
  read_callback-end bytes n st size = (
    elim (Bool-cases (ltb 0 n)) [
      | inl asked ↦ rw (asked, read_end file bytes n size) refl
      | inr none_ ↦ rw none_ refl
    ],
    rw (file.tell_at bytes (length bytes) size (omega arith)) refl,
  )
