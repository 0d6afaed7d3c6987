-- ===== src/Audio/Wav/Sink/Laws.antt =====
-- What a WAV sink on a container writes.
use ni_media.Common.{
  ℕ, ◌+◌, ◌-◌, ◌%◌, ◌^◌, ◌≤◌, ◌<◌, ◌≡◌, refl, ap, sym, ◌∙◌, arith, false, List, [], ◌++◌,
  append_assoc, append-nil, length, length-append, min, take, take_all, ltb,
}
use ni_media.Common.Int.{pos, ◌-ℤ◌, ◌+ℤ◌, int_laws}
use ni_media.Common.Bytes.{le_bytes, length-le_bytes}
use ni_media.Boost.{Algorithms}
use ni_media.Iostreams.Positioning.{cur, absolute_position-inside}
use ni_media.Iostreams.Device.{wrote}
use ni_media.Iostreams.Container
use ni_media.Iostreams.Container.{Container, IsValid, container_sink}
use ni_media.Iostreams.Container.Laws.{seek_here, seek_begin, write_append}
use ni_media.Iostreams.Subview
use ni_media.Iostreams.Fetch.{write_obj}
use ni_media.Iostreams.Subview.{Subview, set_view, max_pos, tell, seek, subview_sink}
use ni_media.Audio.Info.{StreamInfo, bits_per_sample}
use ni_media.Audio.Wav.Chunks.{FmtChunk, fmt_, riff, wave, data_}
use ni_media.Audio.Wav.Header.Laws.{chunk, length-chunk}
use ni_media.Audio.Wav.Header.Turns.{fmt_bytes, length-fmt_bytes}
use ni_media.Audio.Wav.Header.Whole.{wav_file}
use ni_media.Audio.Wav.Source.Laws.{length-header_bytes}
use ni_media.Audio.Wav.Sink
use ni_media.Audio.Wav.Sink.{
  WavOutInfo, open_wav_sink, WavSink, put, told, write_format, write_header_of, write_wav_header,
  audio_format, byte_rate,
}

-- The window from `start` on, with the position at the end of the container.
abbrev pub at_end : List ℕ → ℕ → Subview Container
at_end bytes start = record {
  device = record { bytes = bytes; position = length bytes };
  first = pos start;
  last = max_pos;
}

module _ ⦃boost : Algorithms⦄ where
  pub tell-at_end :
      (bytes : List ℕ) (start : ℕ)
      → start ≤ length bytes
      → length bytes < 2 ^ 63
      → tell Container.seek (at_end bytes start) ≡ (pos (length bytes - start), at_end bytes start)
  unfolding tell seek
  tell-at_end bytes start h fits =
      let n = length bytes in
      let here =
        seek_here (record { bytes = bytes; position = n }) (record { inside = omega arith }) in
      let e : pos n +ℤ boost.offset_to_position (pos 0) ≡ pos n =
        rw (boost.offset_to_position_lem (pos 0)) (omega int_laws) in
      let back : pos n -ℤ pos start ≡ pos (n - start) = omega int_laws in
      rw
        (
          here,
          absolute_position-inside (pos n) (pos start) max_pos (pos 0) cur e (omega arith)
              (omega arith),
          seek_begin n bytes n (omega arith),
          back,
        )
        refl

  pub write-at_end :
      (bytes s : List ℕ) (start : ℕ)
      → start ≤ length bytes
      → length bytes + length s < 2 ^ 63
      → Subview.write container_sink s (at_end bytes start)
        ≡ (wrote (length s), at_end (bytes ++ s) start)
  unfolding Subview.write
  write-at_end bytes s start h fits =
      let n = length bytes in
      let width : max_pos -ℤ pos start ≡ pos (2 ^ 63 - 1 - start) = omega int_laws in
      let rest : pos (2 ^ 63 - 1 - start) -ℤ pos (n - start) ≡ pos (2 ^ 63 - 1 - n) =
        omega int_laws in
      let room : min (length s) (2 ^ 63 - 1 - n) ≡ length s = omega arith in
      let all : take (length s) s ≡ s = take_all (length s) s (omega arith) in
      let not_outside : ltb (2 ^ 63 - 1 - start + 0) (n - start + 0) ≡ false = ground arith in
      rw
        (
          tell-at_end bytes start h (omega arith),
          width,
          rest,
          room,
          all,
          write_append s (record { bytes = bytes; position = n }) refl,
          not_outside,
        )
        (ap
          (λ (p : ℕ). (
            wrote (length s),
            record {
              device = record { bytes = bytes ++ s; position = p };
              first = pos start;
              last = max_pos;
            },
          ))
          (sym (length-append bytes s)))

  pub length-put : (b : List ℕ) (size v : ℕ) → length (b ++ le_bytes size v) ≡ length b + size
  length-put b size v =
      length-append b (le_bytes size v) ∙ ap (λ (n : ℕ). length b + n) (length-le_bytes size v)

  -- A sink on a container, with the position at the end.
  abbrev pub sink_at : WavSink Container → List ℕ → ℕ → WavSink Container
  sink_at k bytes start = record k { view = at_end bytes start }

  put-sink_at :
      (k : WavSink Container) (bytes : List ℕ) (start size v : ℕ)
      → start ≤ length bytes
      → length bytes + size < 2 ^ 63
      → put container_sink size v (sink_at k bytes start)
        ≡ (tt, sink_at k (bytes ++ le_bytes size v) start)
  unfolding put write_obj
  put-sink_at k bytes start size v h fits =
      let l = length-le_bytes size v in
      rw (write-at_end bytes (le_bytes size v) start h (omega arith)) refl

  told-sink_at :
      (k : WavSink Container) (bytes : List ℕ) (start : ℕ)
      → start ≤ length bytes
      → length bytes < 2 ^ 63
      → told container_sink (sink_at k bytes start)
        ≡ (pos (length bytes - start), sink_at k bytes start)
  unfolding told
  told-sink_at k bytes start h fits = rw (tell-at_end bytes start h fits) refl

-- The chunk of a format, as the sink writes it.
abbrev pub format_chunk : StreamInfo → FmtChunk
format_chunk i = record {
  format_tag = audio_format i;
  num_channels = Sink.num_channels i;
  sample_rate = Sink.sample_rate i;
  avg_bytes_per_sec = byte_rate i;
  block_align = Sink.block_align i;
  bits_per_sample = bits_per_sample i % 2 ^ 16;
}

module _ ⦃boost : Algorithms⦄ where
  write_format-sink_at :
      (k : WavSink Container) (b : List ℕ) (i : StreamInfo)
      → length b < 1024
      → write_format container_sink i (sink_at k b 0)
        ≡ (tt, sink_at k (b ++ chunk fmt_ 16 (fmt_bytes (format_chunk i))) 0)
  unfolding write_format
  write_format-sink_at k b i h =
      let c = format_chunk i in
      let b1 = b ++ le_bytes 4 fmt_ in
      let b2 = b1 ++ le_bytes 4 16 in
      let b3 = b2 ++ le_bytes 2 c.format_tag in
      let b4 = b3 ++ le_bytes 2 c.num_channels in
      let b5 = b4 ++ le_bytes 4 c.sample_rate in
      let b6 = b5 ++ le_bytes 4 c.avg_bytes_per_sec in
      let b7 = b6 ++ le_bytes 2 c.block_align in
      let l1 : length b1 ≡ length b + 4 = length-put b 4 fmt_ in
      let l2 : length b2 ≡ length b + 8 = omega (arith, length-put b1 4 16) in
      let l3 : length b3 ≡ length b + 10 = omega (arith, length-put b2 2 c.format_tag) in
      let l4 : length b4 ≡ length b + 12 = omega (arith, length-put b3 2 c.num_channels) in
      let l5 : length b5 ≡ length b + 16 = omega (arith, length-put b4 4 c.sample_rate) in
      let l6 : length b6 ≡ length b + 20 = omega (arith, length-put b5 4 c.avg_bytes_per_sec) in
      let l7 : length b7 ≡ length b + 22 = omega (arith, length-put b6 2 c.block_align) in
      rw
        (
          put-sink_at k b 0 4 fmt_ (omega arith) (omega arith),
          put-sink_at k b1 0 4 16 (omega arith) (omega arith),
          put-sink_at k b2 0 2 c.format_tag (omega arith) (omega arith),
          put-sink_at k b3 0 2 c.num_channels (omega arith) (omega arith),
          put-sink_at k b4 0 4 c.sample_rate (omega arith) (omega arith),
          put-sink_at k b5 0 4 c.avg_bytes_per_sec (omega arith) (omega arith),
          put-sink_at k b6 0 2 c.block_align (omega arith) (omega arith),
          put-sink_at k b7 0 2 c.bits_per_sample (omega arith) (omega arith),
        )
        (simp append_assoc refl)

  length-format_chunk :
      (b : List ℕ) (i : StreamInfo)
      → length (b ++ chunk fmt_ 16 (fmt_bytes (format_chunk i))) ≡ length b + 24
  length-format_chunk b i =
      length-append b (chunk fmt_ 16 (fmt_bytes (format_chunk i)))
      ∙ ap (λ (n : ℕ). length b + n)
          (length-chunk fmt_ 16 (fmt_bytes (format_chunk i))
            ∙ ap (λ (n : ℕ). 8 + n) (length-fmt_bytes (format_chunk i)))

  -- The header, with sizes of zero, and the offsets of the sizes and of the data.
  pub write_wav_header-empty :
      (k : WavSink Container)
      → write_wav_header container_sink (sink_at k [] 0) ≡ (
        tt,
        sink_at
            (record k { chunk_size_offset = pos 4; data_offset = pos 40; header_offset = pos 44 })
            (wav_file 0 [] (format_chunk k.info.stream) [] 0 [])
            0,
      )
  unfolding write_wav_header write_header_of
  write_wav_header-empty k =
      let i = k.info.stream in
      let k1 = record k { chunk_size_offset = pos 4 } in
      let k2 = record k1 { data_offset = pos 40 } in
      let b1 = le_bytes 4 riff in
      let b2 = b1 ++ le_bytes 4 0 in
      let b3 = b2 ++ le_bytes 4 wave in
      let b4 = b3 ++ chunk fmt_ 16 (fmt_bytes (format_chunk i)) in
      let b5 = b4 ++ le_bytes 4 data_ in
      let b6 = b5 ++ le_bytes 4 0 in
      let l1 : length b1 ≡ 4 = length-le_bytes 4 riff in
      let l2 : length b2 ≡ 8 = omega (arith, length-put b1 4 0) in
      let l3 : length b3 ≡ 12 = omega (arith, length-put b2 4 wave) in
      let l4 : length b4 ≡ 36 = omega (arith, length-format_chunk b3 i) in
      let l5 : length b5 ≡ 40 = omega (arith, length-put b4 4 data_) in
      let l6 : length b6 ≡ 44 = omega (arith, length-put b5 4 0) in
      let p1 : length b1 - 0 ≡ 4 = omega arith in
      let p5 : length b5 - 0 ≡ 40 = omega arith in
      let p6 : length b6 - 0 ≡ 44 = omega arith in
      rw
        (
          put-sink_at k [] 0 4 riff (omega arith) (omega arith),
          told-sink_at k b1 0 (omega arith) (omega arith),
          p1,
          put-sink_at k1 b1 0 4 0 (omega arith) (omega arith),
          put-sink_at k1 b2 0 4 wave (omega arith) (omega arith),
          write_format-sink_at k1 b3 i (omega arith),
          put-sink_at k1 b4 0 4 data_ (omega arith) (omega arith),
          told-sink_at k1 b5 0 (omega arith) (omega arith),
          p5,
          put-sink_at k2 b5 0 4 0 (omega arith) (omega arith),
          told-sink_at k2 b6 0 (omega arith) (omega arith),
          p6,
        )
        (simp (append_assoc, append-nil) refl)

  -- A new sink on an empty container has written a header of 44 bytes with the format chunk of its
  -- information and sizes of zero, remembers where the sizes and the data lie, and has its window
  -- behind the header.
  pub open_wav_sink-empty :
      (info : WavOutInfo)
      → open_wav_sink container_sink info (at_end [] 0) ≡ record {
        view = at_end (wav_file 0 [] (format_chunk info.stream) [] 0 []) 44;
        info = info;
        header_offset = pos 44;
        data_offset = pos 40;
        chunk_size_offset = pos 4;
      }
  unfolding open_wav_sink set_view
  open_wav_sink-empty info =
      let k : WavSink Container = record {
        view = at_end [] 0;
        info = info;
        header_offset = pos 0;
        data_offset = pos 0;
        chunk_size_offset = pos 0;
      } in
      let b = wav_file 0 [] (format_chunk info.stream) [] 0 [] in
      let l : length b ≡ 44 = length-header_bytes 0 [] [] (format_chunk info.stream) 0 in
      let p : length b - 0 ≡ 44 = omega arith in
      rw
        (
          write_wav_header-empty k,
          told-sink_at
              (record k { chunk_size_offset = pos 4; data_offset = pos 40; header_offset = pos 44 })
              b 0 (omega arith) (omega arith),
          p,
        )
        refl
