-- ===== src/Audio/Aiff/Sink/Close.antt =====
-- What an AIFF sink on a container has written when it is closed.
use ni_media.Common.{
  ℕ, ◌+◌, ◌-◌, ◌/◌, ◌%◌, ◌^◌, ◌≤◌, ◌<◌, ◌≡◌, refl, ap, sym, ◌∙◌, arith, false, some, List, [], ◌++◌,
  append_assoc, append-nil, length, length-append, replicate, min, ◌==◌,
}
use ni_media.Common.Int.{pos}
use ni_media.Boost.{Algorithms, BigEndian, length-object}
use ni_media.Iostreams.Container.{Container, container_sink}
use ni_media.Iostreams.Subview
use ni_media.Iostreams.Subview.{Subview, set_view}
use ni_media.Iostreams.Fetch.{write_obj}
use ni_media.Iostreams.File.Laws.{container_file, container_file-IsFile, container_file-StopsAtEnd}
use ni_media.Pcm.Format.{EndianType}
use ni_media.Audio.Info.{StreamInfo}
use ni_media.Audio.Ieee80.{Ieee80}
use ni_media.Audio.Reader.{done}
use ni_media.Audio.Wav.Sink.Laws.{at_end, write-at_end}
use ni_media.Audio.Wav.Sink.Close.{write-file}
use ni_media.Audio.Aiff.Chunks.{form}
use ni_media.Audio.Aiff.Sink.{
  AiffOutInfo, AiffSink, format_to_tag, frame_size, put, told, sought, fill_in, close_aiff, close,
  write, open_aiff_sink, aiff_out_info,
}
use ni_media.Audio.Aiff.Sink.Layout.{
  form_and_channels, length-form_and_channels, format_and_ssnd, length-format_and_ssnd, sink_file,
  length-sink_file,
}
use ni_media.Audio.Aiff.Sink.Laws.{opened, open_aiff_sink-empty}

module _ ⦃boost : Algorithms⦄ where
  -- A sink on a whole container, at a position.
  abbrev sink_in : AiffSink Container → List ℕ → ℕ → AiffSink Container
  sink_in k bytes p = record k { view = container_file bytes p }

  sought-sink_in :
      (k : AiffSink Container) (bytes : List ℕ) (p q : ℕ)
      → p ≤ length bytes
      → q ≤ length bytes
      → length bytes < 2 ^ 63
      → sought container_sink (pos q) (sink_in k bytes p) ≡ (done tt, sink_in k bytes q)
  unfolding sought
  sought-sink_in k bytes p q h h' fits =
      let e : min q (length bytes) ≡ q = omega arith in
      rw (container_file-StopsAtEnd.seek_at bytes p q fits h (omega arith), e) refl

  told-sink_in :
      (k : AiffSink Container) (bytes : List ℕ) (p : ℕ)
      → p ≤ length bytes
      → length bytes < 2 ^ 63
      → told container_sink (sink_in k bytes p) ≡ (done (pos p), sink_in k bytes p)
  unfolding told Subview.tell
  told-sink_in k bytes p h fits = rw (container_file-IsFile.tell_at bytes p fits h) refl

  module _ ⦃big : BigEndian⦄ where
    -- A size that is filled in.
    put-sink_in :
        (k : AiffSink Container) (bytes before after : List ℕ) (old v p : ℕ)
        → bytes ≡ before ++ (big.object 4 old ++ after)
        → p ≡ length before
        → length bytes < 2 ^ 63
        → put container_sink (big.object 4 v) (sink_in k bytes p)
          ≡ (done tt, sink_in k (before ++ (big.object 4 v ++ after)) (p + 4))
    unfolding put write_obj
    put-sink_in k bytes before after old v p e ep fits =
        let l = length-object 4 v in
        let l' = length-object 4 old in
        rw
          (
            e,
            ep,
            write-file before (big.object 4 old) after (big.object 4 v) (omega arith)
                (rw e at fits),
            l,
          )
          refl

  module _ ⦃big : BigEndian⦄ ⦃ieee : Ieee80⦄ where
    -- What lies before the second size, and before the third.
    abbrev to_frames : StreamInfo → ℕ → List ℕ
    to_frames i a = big.object 4 form ++ (big.object 4 a ++ form_and_channels i)

    abbrev to_sound : StreamInfo → ℕ → ℕ → ℕ → List ℕ
    to_sound i tag a b = to_frames i a ++ (big.object 4 b ++ format_and_ssnd i tag)

    length-to_frames : (i : StreamInfo) (a : ℕ) → length (to_frames i a) ≡ 22
    length-to_frames i a = omega (
      arith,
      length-append (big.object 4 form) (big.object 4 a ++ form_and_channels i),
      length-append (big.object 4 a) (form_and_channels i),
      length-object 4 form,
      length-object 4 a,
      length-form_and_channels i,
    )

    length-to_sound : (i : StreamInfo) (tag a b : ℕ) → length (to_sound i tag a b) ≡ 46
    length-to_sound i tag a b = omega (
      arith,
      length-append (to_frames i a) (big.object 4 b ++ format_and_ssnd i tag),
      length-append (big.object 4 b) (format_and_ssnd i tag),
      length-object 4 b,
      length-to_frames i a,
      length-format_and_ssnd i tag,
    )

    -- The three sizes are filled in.
    fill_in-file :
        (info : AiffOutInfo) (tag : ℕ) (samples : List ℕ) (n : ℕ)
        → n ≡ 58 + length samples
        → n < 2 ^ 32
        → (frame_size info.stream == 0) ≡ false
        → let k = sink_in (opened info tag samples) (sink_file info.stream tag 0 0 0 samples) n in
          fill_in container_sink k k ≡ (
            done tt,
            sink_in
                (opened info tag samples)
                (sink_file info.stream tag
                  (50 + length samples)
                  (length samples / frame_size info.stream % 2 ^ 32)
                  (8 + length samples)
                  samples)
                50,
          )
    unfolding fill_in
    fill_in-file info tag samples n e small some_frame =
        let i = info.stream in
        let k = opened info tag samples in
        let a = 50 + length samples in
        let b = length samples / frame_size i % 2 ^ 32 in
        let c = 8 + length samples in
        let tail = replicate 8 0 ++ samples in
        let r0 =
          form_and_channels i
          ++ (big.object 4 0 ++ (format_and_ssnd i tag ++ (big.object 4 0 ++ tail))) in
        let r1 = format_and_ssnd i tag ++ (big.object 4 0 ++ tail) in
        let bytes0 = sink_file i tag 0 0 0 samples in
        let bytes1 = sink_file i tag a 0 0 samples in
        let l0 : length bytes0 ≡ n = length-sink_file i tag 0 0 0 samples ∙ sym e in
        let l1 : length bytes1 ≡ n = length-sink_file i tag a 0 0 samples ∙ sym e in
        let same1 : bytes1 ≡ to_frames i a ++ (big.object 4 0 ++ r1) = simp append_assoc refl in
        let bytes2 = to_frames i a ++ (big.object 4 b ++ r1) in
        let same2 : bytes2 ≡ to_sound i tag a b ++ (big.object 4 0 ++ tail) =
          simp append_assoc refl in
        let l2 : length bytes2 ≡ n =
          ap (λ (t : List ℕ). length t) {x = bytes2} {y = sink_file i tag a b 0 samples}
            (simp append_assoc refl)
          ∙ length-sink_file i tag a b 0 samples
          ∙ sym e in
        let same3 : to_sound i tag a b ++ (big.object 4 c ++ tail) ≡ sink_file i tag a b c samples =
          simp append_assoc refl in
        let size : (n % 2 ^ 32 + (2 ^ 32 - 8)) % 2 ^ 32 ≡ a = omega arith in
        let size' : (n % 2 ^ 32 + (2 ^ 32 - 58)) % 2 ^ 32 ≡ length samples = omega arith in
        let size'' : (length samples + 8) % 2 ^ 32 ≡ c = omega arith in
        rw
          (
            told-sink_in k bytes0 n (omega arith) (omega arith),
            sought-sink_in k bytes0 n 4 (omega arith) (omega arith) (omega arith),
            size,
            put-sink_in k bytes0 (big.object 4 form) r0 0 a 4 refl (sym (length-object 4 form))
                (omega arith),
            sought-sink_in k bytes1 8 22 (omega arith) (omega arith) (omega arith),
            size',
            some_frame,
            put-sink_in k bytes1 (to_frames i a) r1 0 b 22 same1 (sym (length-to_frames i a))
                (omega arith),
            sought-sink_in k bytes2 26 46 (omega arith) (omega arith) (omega arith),
            size'',
            put-sink_in k bytes2 (to_sound i tag a b) tail 0 c 46 same2
                (sym (length-to_sound i tag a b)) (omega arith),
            same3,
          )
          refl

    -- A new sink on an empty container, after a write of samples.
    abbrev pub written : AiffOutInfo → List ℕ → AiffSink Container
    written info samples =
        (write container_sink samples (open_aiff_sink container_sink info (at_end [] 0)).1).1

    written_lem :
        (info : AiffOutInfo) (samples : List ℕ) {tag : ℕ}
        → 0 < info.stream.num_channels
        → format_to_tag info.stream.format ≡ some tag
        → 58 + length samples < 2 ^ 32
        → written info samples ≡ opened info tag samples
    unfolding write
    written_lem info samples {tag} some_channels tagged small =
        let h = sink_file info.stream tag 0 0 0 [] in
        let l : length h ≡ 58 = omega (arith, length-sink_file info.stream tag 0 0 0 []) in
        let e : h ++ samples ≡ sink_file info.stream tag 0 0 0 samples =
          simp (append_assoc, append-nil) refl in
        rw
          (
            open_aiff_sink-empty info some_channels tagged,
            write-at_end h samples 58 (omega arith) (omega arith),
            e,
          )
          refl

    -- When an AIFF sink on an empty container was given samples in one write and is closed, the
    -- container holds the header for its information and the samples, with the size of the file
    -- less 8, the number of frames and the size of the sound data filled in; the sink has a new
    -- information. There is a channel or more, a format that the sink has a tag for and whose
    -- frames are not empty, and the file is shorter than 4 GiB.
    pub close_aiff-written :
        (native_endian : EndianType) (info : AiffOutInfo) (samples : List ℕ) {tag : ℕ}
        → 0 < info.stream.num_channels
        → format_to_tag info.stream.format ≡ some tag
        → (frame_size info.stream == 0) ≡ false
        → 58 + length samples < 2 ^ 32
        → close container_sink native_endian (written info samples) ≡ (
          done tt,
          record (opened info tag samples) {
            view =
                container_file
                  (sink_file info.stream tag
                    (50 + length samples)
                    (length samples / frame_size info.stream % 2 ^ 32)
                    (8 + length samples)
                    samples)
                  50;
            info = aiff_out_info native_endian;
          },
        )
    unfolding close close_aiff set_view
    close_aiff-written native_endian info samples {tag} some_channels tagged some_frame small =
        let bytes = sink_file info.stream tag 0 0 0 samples in
        let l = length-sink_file info.stream tag 0 0 0 samples in
        rw
          (
            written_lem info samples some_channels tagged small,
            fill_in-file info tag samples (length bytes) l (omega arith) some_frame,
          )
          refl
