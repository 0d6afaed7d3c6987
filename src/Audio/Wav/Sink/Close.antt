-- ===== src/Audio/Wav/Sink/Close.antt =====
-- What a WAV sink on a container has written when it is closed.
use ni_media.Common.{
  ℕ, ◌+◌, ◌-◌, ◌%◌, ◌^◌, ◌≤◌, ◌<◌, ◌≡◌, refl, ap, sym, ◌∙◌, arith, false, List, [], ◌++◌,
  append_assoc, length, length-append, min, take, take_all, take-append, drop-append_add,
  drop-append, ltb, inr,
}
use ni_media.Common.Int.{pos, ◌-ℤ◌, int_laws}
use ni_media.Common.Bytes.{le_bytes, length-le_bytes}
use ni_media.Boost.{Algorithms}
use ni_media.Iostreams.Device.{wrote}
use ni_media.Iostreams.Container.{Container, container_sink, overwrite}
use ni_media.Iostreams.Container.Laws.{write_splices}
use ni_media.Iostreams.Subview
use ni_media.Iostreams.Subview.{Subview, set_view, max_pos}
use ni_media.Iostreams.Fetch.{write_obj}
use ni_media.Iostreams.File.Laws.{container_file, container_file-IsFile, container_file-StopsAtEnd}
use ni_media.Pcm.Format.{EndianType}
use ni_media.Audio.Info.{StreamInfo}
use ni_media.Audio.Wav.Chunks.{FmtChunk, riff, wave, fmt_, data_}
use ni_media.Audio.Wav.Header.Laws.{chunk, length-chunk}
use ni_media.Audio.Wav.Header.Turns.{fmt_bytes, length-fmt_bytes}
use ni_media.Audio.Wav.Header.Whole.{wav_file}
use ni_media.Audio.Wav.Source.Laws.{header_bytes, header_bytes-append, length-header_bytes}
use ni_media.Audio.Wav.Sink.{
  WavSink, WavOutInfo, put, told, sought, fill_in, close_wav, close, write, open_wav_sink,
}
use ni_media.Audio.Wav.Sink.Laws.{at_end, format_chunk, write-at_end, open_wav_sink-empty}

-- Writing over bytes between others.
overwrite-between :
    (before old after s : List ℕ)
    → length old ≡ length s
    → overwrite (before ++ (old ++ after)) (length before) s ≡ before ++ (s ++ after)
overwrite-between before old after s e =
    let t = take-append (length before) before (old ++ after) refl in
    let d = drop-append_add (length before + length s) (length s) before (old ++ after) refl in
    let d' = drop-append (length s) old after (sym e) in rw (t, d, d') refl

pub length-sized :
    (riff_size size : ℕ) (c : FmtChunk) (samples : List ℕ)
    → length (wav_file riff_size [] c [] size samples) ≡ 44 + length samples
length-sized riff_size size c samples =
    ap length (header_bytes-append riff_size [] [] c size samples)
    ∙ length-append (header_bytes riff_size [] c [] size) samples
    ∙ ap (λ (n : ℕ). n + length samples) (length-header_bytes riff_size [] [] c size)

module _ ⦃boost : Algorithms⦄ where
  pub write-file :
      (before old after s : List ℕ)
      → length old ≡ length s
      → length (before ++ (old ++ after)) < 2 ^ 63
      → Subview.write container_sink s (container_file (before ++ (old ++ after)) (length before))
        ≡ (wrote (length s), container_file (before ++ (s ++ after)) (length before + length s))
  unfolding Subview.write Subview.tell
  write-file before old after s e fits =
      let bytes = before ++ (old ++ after) in
      let n = length before in
      let sizes : length bytes ≡ n + (length s + length after) =
        omega (arith, length-append before (old ++ after), length-append old after) in
      let width : max_pos -ℤ pos 0 ≡ max_pos = omega int_laws in
      let rest : max_pos -ℤ pos n ≡ pos (2 ^ 63 - 1 - n) = omega int_laws in
      let room : min (length s) (2 ^ 63 - 1 - n) ≡ length s = omega arith in
      let all : take (length s) s ≡ s = take_all (length s) s (omega arith) in
      let not_outside : ltb (2 ^ 63 - 1 + 0) (n + 0) ≡ false = ground arith in
      rw
        (
          container_file-IsFile.tell_at bytes n fits (omega arith),
          width,
          rest,
          room,
          all,
          write_splices s (record { bytes = bytes; position = n }) (record { inside = omega arith })
              (inr (omega arith)),
          overwrite-between before old after s e,
          not_outside,
        )
        refl

  -- A sink on a whole container, at a position.
  abbrev sink_in : WavSink Container → List ℕ → ℕ → WavSink Container
  sink_in k bytes p = record k { view = container_file bytes p }

  -- A size that is filled in.
  put-sink_in :
      (k : WavSink Container) (before after : List ℕ) (old v p : ℕ)
      → p ≡ length before
      → length (before ++ (le_bytes 4 old ++ after)) < 2 ^ 63
      → put container_sink 4 v (sink_in k (before ++ (le_bytes 4 old ++ after)) p)
        ≡ (tt, sink_in k (before ++ (le_bytes 4 v ++ after)) (p + 4))
  unfolding put write_obj
  put-sink_in k before after old v p e fits =
      let l = length-le_bytes 4 v in
      let l' = length-le_bytes 4 old in
      rw (e, write-file before (le_bytes 4 old) after (le_bytes 4 v) (omega arith) fits, l) refl

  sought-sink_in :
      (k : WavSink Container) (bytes : List ℕ) (p q : ℕ)
      → p ≤ length bytes
      → q ≤ length bytes
      → length bytes < 2 ^ 63
      → sought container_sink (pos q) (sink_in k bytes p) ≡ (tt, sink_in k bytes q)
  unfolding sought
  sought-sink_in k bytes p q h h' fits =
      let e : min q (length bytes) ≡ q = omega arith in
      rw (container_file-StopsAtEnd.seek_at bytes p q fits h (omega arith), e) refl

  told-sink_in :
      (k : WavSink Container) (bytes : List ℕ) (p : ℕ)
      → p ≤ length bytes
      → length bytes < 2 ^ 63
      → told container_sink (sink_in k bytes p) ≡ (pos p, sink_in k bytes p)
  unfolding told Subview.tell
  told-sink_in k bytes p h fits = rw (container_file-IsFile.tell_at bytes p fits h) refl

  -- The sizes are filled in: that of the whole file but for 8 bytes, and that of the data.
  fill_in-file :
      (k : WavSink Container) (i : StreamInfo) (samples : List ℕ) (n : ℕ)
      → n ≡ 44 + length samples
      → n < 2 ^ 32
      → (fill_in container_sink
          (pos 4)
          (pos 40)
          (pos 44)
          (sink_in k (wav_file 0 [] (format_chunk i) [] 0 samples) n)).1
        ≡ sink_in k
            (wav_file (36 + length samples) [] (format_chunk i) [] (length samples) samples)
            44
  unfolding fill_in
  fill_in-file k i samples n e small =
      let f = chunk fmt_ 16 (fmt_bytes (format_chunk i)) in
      let v1 = 36 + length samples in
      let v2 = length samples in
      let r0 = le_bytes 4 wave ++ (f ++ (le_bytes 4 data_ ++ (le_bytes 4 0 ++ samples))) in
      let bytes0 = le_bytes 4 riff ++ (le_bytes 4 0 ++ r0) in
      let bytes1 = le_bytes 4 riff ++ (le_bytes 4 v1 ++ r0) in
      let before =
        le_bytes 4 riff ++ (le_bytes 4 v1 ++ (le_bytes 4 wave ++ (f ++ le_bytes 4 data_))) in
      let bytes2 = before ++ (le_bytes 4 v2 ++ samples) in
      let same1 : bytes1 ≡ before ++ (le_bytes 4 0 ++ samples) = simp append_assoc refl in
      let same2 : bytes2 ≡ wav_file v1 [] (format_chunk i) [] v2 samples = simp append_assoc refl in
      let lf : length f ≡ 24 =
        length-chunk fmt_ 16 (fmt_bytes (format_chunk i))
        ∙ ap (λ (m : ℕ). 8 + m) (length-fmt_bytes (format_chunk i)) in
      let l0 : length bytes0 ≡ n = length-sized 0 0 (format_chunk i) samples ∙ sym e in
      let l1 : length bytes1 ≡ n = length-sized v1 0 (format_chunk i) samples ∙ sym e in
      let l1' : length (before ++ (le_bytes 4 0 ++ samples)) ≡ n = sym (ap length same1) ∙ l1 in
      let l40 : 40 ≡ length before = omega (
        arith,
        l1',
        length-append before (le_bytes 4 0 ++ samples),
        length-append (le_bytes 4 0) samples,
        length-le_bytes 4 0,
      ) in
      let size : (n % 2 ^ 32 + (2 ^ 32 - 8)) % 2 ^ 32 ≡ v1 = omega arith in
      let size' : (n % 2 ^ 32 + (2 ^ 32 - 44)) % 2 ^ 32 ≡ v2 = omega arith in
      rw
        (
          told-sink_in k bytes0 n (omega arith) (omega arith),
          sought-sink_in k bytes0 n 4 (omega arith) (omega arith) (omega arith),
          size,
          put-sink_in k (le_bytes 4 riff) r0 0 v1 4 (sym (length-le_bytes 4 riff)) (omega arith),
          sought-sink_in k bytes1 8 40 (omega arith) (omega arith) (omega arith),
          size',
        )
        (rw same1 (
          ap (λ (r : Unit × WavSink Container). r.1)
            (put-sink_in k before samples 0 v2 40 l40 (omega arith))
          ∙ ap (λ (b : List ℕ). sink_in k b 44) same2))

  -- A new sink on an empty container, after a write of samples.
  abbrev pub written : WavOutInfo → List ℕ → WavSink Container
  written info samples =
      (write container_sink samples (open_wav_sink container_sink info (at_end [] 0))).1

  written_lem :
      (info : WavOutInfo) (samples : List ℕ)
      → 44 + length samples < 2 ^ 32
      → written info samples ≡ record {
        view = at_end (wav_file 0 [] (format_chunk info.stream) [] 0 samples) 44;
        info = info;
        header_offset = pos 44;
        data_offset = pos 40;
        chunk_size_offset = pos 4;
      }
  unfolding write
  written_lem info samples small =
      let c = format_chunk info.stream in
      let h = header_bytes 0 [] c [] 0 in
      let l : length h ≡ 44 = length-header_bytes 0 [] [] c 0 in
      let e : wav_file 0 [] c [] 0 samples ≡ h ++ samples =
        header_bytes-append 0 [] [] c 0 samples in
      rw (open_wav_sink-empty info, write-at_end h samples 44 (omega arith) (omega arith), e) refl

  -- When a sink on an empty container was given samples in one write and is closed, the container
  -- holds a WAV file with the format chunk of the sink's information, the right sizes in the header
  -- and the samples; the file is shorter than 4 GiB.
  pub close-written :
      (native_endian : EndianType) (info : WavOutInfo) (samples : List ℕ)
      → 44 + length samples < 2 ^ 32
      → (close container_sink native_endian (written info samples)).view.device.bytes
        ≡ wav_file (36 + length samples) [] (format_chunk info.stream) [] (length samples) samples
  unfolding close close_wav set_view
  close-written native_endian info samples small =
      let c = format_chunk info.stream in
      let bytes = wav_file 0 [] c [] 0 samples in
      let k : WavSink Container = record {
        view = at_end bytes 44;
        info = info;
        header_offset = pos 44;
        data_offset = pos 40;
        chunk_size_offset = pos 4;
      } in
      let n : length bytes ≡ 44 + length samples = length-sized 0 0 c samples in
      let filled = fill_in-file k info.stream samples (length bytes) n (omega arith) in
      rw (written_lem info samples small)
        (ap (λ (r : WavSink Container). r.view.device.bytes) filled)
