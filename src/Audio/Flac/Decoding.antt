-- ===== src/Audio/Flac/Decoding.antt =====
-- What the source relies on in libFLAC's decoder: which blocks it hands to the write callback.
use ni_media.Common.{
  ℕ, ◌≤◌, ◌<◌, ◌≡◌, Bool, true, false, not, ◌&&◌, List, [], ◌∷◌, ◌++◌, length, drop,
}
use ni_media.Common.Int.{ℤ}
use ni_media.Boost.{FindIf}
use ni_media.Iostreams.Device.{Source}
use ni_media.Pcm.Runtime.{RuntimeFormat}
use ni_media.Audio.Reader.{done, ◌>>=◌, give}
use ni_media.Audio.Flac.Decoder.{Reader, StreamDecoder, Frame}
use ni_media.Audio.Flac.Interleave.Laws.{IsFrame}
use ni_media.Audio.Flac.Metadata.{FlacSource}
use ni_media.Audio.Flac.Source.{callbacks, at_end_of_stream}
use mathlib.Core.List.{flatten}

abbrev pub Rows : Type 0
Rows = List (List ℤ)

module _ {S D : Type 0} ⦃range : FindIf RuntimeFormat⦄ (src : Source S)
    (lib : StreamDecoder (FlacSource S D) D) where
  -- A call of the decoder that hands a block to the write callback, once it has read what it needs.
  pub record Delivers (call : D → Reader (FlacSource S D) (Bool × D)) (channels : ℕ) (d : D) (s : S)
      (rows : Rows) (d' : D) (s' : S) : Type 0 where
    pub frame : Frame
    pub is_frame : IsFrame channels frame rows
    pub size : length rows ≤ 65535
    pub state : at_end_of_stream (lib.get_state d') ≡ false
    pub effect :
        (st : FlacSource S D)
        → st.source ≡ s
        → call d st
          ≡ ((callbacks src).write frame >>= λ _. give (done (true, d')))
              (record st { source = s' })

  -- A call that finds the end of the stream.
  pub record Ends (call : D → Reader (FlacSource S D) (Bool × D)) (d : D) (s : S) (d' : D) (s' : S)
      : Type 0 where
    pub ok : Bool
    pub over : (ok && not (at_end_of_stream (lib.get_state d'))) ≡ false
    pub effect :
        (st : FlacSource S D)
        → st.source ≡ s
        → call d st ≡ (done (ok, d'), record st { source = s' })

  -- What libFLAC says of a decoder that has read the metadata of a stream with the samples `all`, of which
  -- `left` gives the blocks that are still to be decoded: a block for each call, and after a seek to
  -- a sample of the stream a block that starts there.
  pub record IsDecoder (channels : ℕ) (all : Rows) (IsReady : D → S → Type 0)
      (left : D → S → List Rows) : Type 0 where
    pub next :
        (d : D) (s : S) (rows : Rows) (blocks : List Rows)
        → IsReady d s
        → left d s ≡ rows ∷ blocks
        → (d' : D) × (s' : S) × Delivers
            (lib.process_single (callbacks src))
            channels
            d
            s
            rows
            d'
            s'
          × IsReady d' s'
          × (left d' s' ≡ blocks)
    pub finish :
        (d : D) (s : S)
        → IsReady d s
        → left d s ≡ []
        → (d' : D) × (s' : S) × Ends (lib.process_single (callbacks src)) d s d' s'
          × IsReady d' s'
          × (left d' s' ≡ [])
    pub sought :
        (d : D) (s : S) (n : ℕ)
        → IsReady d s
        → n < length all
        → (rows : Rows) × (d' : D) × (s' : S) × (0 < length rows)
          × Delivers (lib.seek_absolute (callbacks src) n) channels d s rows d' s'
          × IsReady d' s'
          × (rows ++ flatten (left d' s') ≡ drop n all)
