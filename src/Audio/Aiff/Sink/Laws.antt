-- ===== src/Audio/Aiff/Sink/Laws.antt =====
-- What an AIFF sink on a container writes when it is made.
use ni_media.Common.{
  ℕ, ◌+◌, ◌-◌, ◌%◌, ◌^◌, ◌<◌, ◌≡◌, refl, ap, ◌∙◌, arith, false, some, List, [], ◌++◌, append_assoc,
  append-nil, length, length-append, replicate, ◌==◌,
}
use ni_media.Common.Int.{pos}
use ni_media.Boost.{Algorithms, BigEndian, length-object}
use ni_media.Iostreams.Container.{Container, container_sink}
use ni_media.Iostreams.Subview.{set_view}
use ni_media.Iostreams.Fetch.{write_obj}
use ni_media.Pcm.Format.{bits}
use ni_media.Audio.Info.{StreamInfo}
use ni_media.Audio.Ieee80.{Ieee80}
use ni_media.Audio.Reader.{done}
use ni_media.Audio.Wav.Sink.Laws.{at_end, tell-at_end, write-at_end}
use ni_media.Audio.Aiff.Chunks.{aifc, form, comm, ssnd}
use ni_media.Audio.Aiff.Sink.Layout.{rate_bytes, sink_file, length-sink_file}
use ni_media.Audio.Aiff.Sink.{
  AiffOutInfo, AiffSink, format_to_tag, put, told, write_form, write_comm, write_ssnd,
  write_aiff_header, open_aiff_sink,
}

-- A sink on a container, with the position at the end.
abbrev pub sink_at : AiffSink Container → List ℕ → ℕ → AiffSink Container
sink_at k bytes start = record k { view = at_end bytes start }

module _ ⦃boost : Algorithms⦄ where
  put-sink_at :
      (k : AiffSink Container) (bytes bs : List ℕ) (n : ℕ)
      → length bs ≡ n
      → length bytes + n < 2 ^ 63
      → put container_sink bs (sink_at k bytes 0) ≡ (done tt, sink_at k (bytes ++ bs) 0)
  unfolding put write_obj
  put-sink_at k bytes bs n e fits = rw (write-at_end bytes bs 0 (omega arith) (omega arith)) refl

  pub told-sink_at :
      (k : AiffSink Container) (bytes : List ℕ) (n : ℕ)
      → length bytes ≡ n
      → n < 2 ^ 63
      → told container_sink (sink_at k bytes 0) ≡ (done (pos n), sink_at k bytes 0)
  unfolding told
  told-sink_at k bytes n e fits =
      let p : length bytes - 0 ≡ n = omega arith in
      rw (tell-at_end bytes 0 (omega arith) (omega arith), p) refl

module _ ⦃boost : Algorithms⦄ ⦃big : BigEndian⦄ ⦃ieee : Ieee80⦄ where
  length-put : (b bs : List ℕ) (n m : ℕ) → length b ≡ n → length bs ≡ m → length (b ++ bs) ≡ n + m
  length-put b bs n m e e' = omega (arith, length-append b bs)

  write_form-empty :
      (k : AiffSink Container)
      → write_form container_sink (sink_at k [] 0) ≡ (
        done tt,
        sink_at
            (record k { file_size_offset = pos 4 })
            ((big.object 4 form ++ big.object 4 0) ++ big.object 4 aifc)
            0,
      )
  unfolding write_form
  write_form-empty k =
      let b1 = big.object 4 form in
      let b2 = b1 ++ big.object 4 0 in
      let l1 : length b1 ≡ 4 = length-object 4 form in
      let l2 : length b2 ≡ 8 = length-put b1 (big.object 4 0) 4 4 l1 (length-object 4 0) in
      let k1 = record k { file_size_offset = pos 4 } in
      rw
        (
          put-sink_at k [] b1 4 l1 (omega arith),
          told-sink_at k b1 4 l1 (omega arith),
          put-sink_at k1 b1 (big.object 4 0) 4 (length-object 4 0) (omega arith),
          put-sink_at k1 b2 (big.object 4 aifc) 4 (length-object 4 aifc) (omega arith),
        )
        refl

  write_comm_12 :
      (k : AiffSink Container) (b : List ℕ) (i : StreamInfo) {tag : ℕ}
      → length b ≡ 12
      → format_to_tag i.format ≡ some tag
      → write_comm container_sink i (sink_at k b 0) ≡ (
        done tt,
        sink_at
            (record k { num_frames_offset = pos 22 })
            (b
              ++ (big.object 4 comm
                  ++ (big.object 4 22
                      ++ (big.object 2 (i.num_channels % 2 ^ 16)
                          ++ (big.object 4 0
                              ++ (big.object 2 (bits i.format.bitwidth)
                                  ++ (rate_bytes i ++ big.object 4 tag)))))))
            0,
      )
  unfolding write_comm
  write_comm_12 k b i {tag} l tagged =
      let c = big.object 2 (i.num_channels % 2 ^ 16) in
      let w = big.object 2 (bits i.format.bitwidth) in
      let x = rate_bytes i in
      let lc = length-object 2 (i.num_channels % 2 ^ 16) in
      let lw = length-object 2 (bits i.format.bitwidth) in
      let lx = ieee.length-of_double (ieee.of_size_t i.sample_rate) in
      let b1 = b ++ big.object 4 comm in
      let b2 = b1 ++ big.object 4 22 in
      let b3 = b2 ++ c in
      let b4 = b3 ++ big.object 4 0 in
      let b5 = b4 ++ w in
      let b6 = b5 ++ x in
      let l1 : length b1 ≡ 16 = length-put b (big.object 4 comm) 12 4 l (length-object 4 comm) in
      let l2 : length b2 ≡ 20 = length-put b1 (big.object 4 22) 16 4 l1 (length-object 4 22) in
      let l3 : length b3 ≡ 22 = length-put b2 c 20 2 l2 lc in
      let l4 : length b4 ≡ 26 = length-put b3 (big.object 4 0) 22 4 l3 (length-object 4 0) in
      let l5 : length b5 ≡ 28 = length-put b4 w 26 2 l4 lw in
      let l6 : length b6 ≡ 38 = length-put b5 x 28 10 l5 lx in
      let k1 = record k { num_frames_offset = pos 22 } in
      rw
        (
          put-sink_at k b (big.object 4 comm) 4 (length-object 4 comm) (omega arith),
          put-sink_at k b1 (big.object 4 22) 4 (length-object 4 22) (omega arith),
          put-sink_at k b2 c 2 lc (omega arith),
          told-sink_at k b3 22 l3 (omega arith),
          put-sink_at k1 b3 (big.object 4 0) 4 (length-object 4 0) (omega arith),
          put-sink_at k1 b4 w 2 lw (omega arith),
          put-sink_at k1 b5 x 10 lx (omega arith),
          tagged,
          put-sink_at k1 b6 (big.object 4 tag) 4 (length-object 4 tag) (omega arith),
        )
        (simp append_assoc refl)

  write_ssnd_42 :
      (k : AiffSink Container) (b : List ℕ)
      → length b ≡ 42
      → write_ssnd container_sink (sink_at k b 0) ≡ (
        done tt,
        sink_at
            (record k { ssnd_size_offset = pos 46; header_size = 58 })
            (b ++ (big.object 4 ssnd ++ (big.object 4 0 ++ replicate 8 0)))
            0,
      )
  unfolding write_ssnd
  write_ssnd_42 k b l =
      let b1 = b ++ big.object 4 ssnd in
      let b2 = b1 ++ big.object 4 0 in
      let b3 = b2 ++ replicate 8 0 in
      let l1 : length b1 ≡ 46 = length-put b (big.object 4 ssnd) 42 4 l (length-object 4 ssnd) in
      let l2 : length b2 ≡ 50 = length-put b1 (big.object 4 0) 46 4 l1 (length-object 4 0) in
      let l3 : length b3 ≡ 58 = length-put b2 (replicate 8 0) 50 8 l2 refl in
      let k1 = record k { ssnd_size_offset = pos 46 } in
      rw
        (
          put-sink_at k b (big.object 4 ssnd) 4 (length-object 4 ssnd) (omega arith),
          told-sink_at k b1 46 l1 (omega arith),
          put-sink_at k1 b1 (big.object 4 0) 4 (length-object 4 0) (omega arith),
          put-sink_at k1 b2 (replicate 8 0) 8 refl (omega arith),
          told-sink_at k1 b3 58 l3 (omega arith),
        )
        (simp append_assoc refl)

  -- The sink that a format has on an empty container.
  abbrev pub opened : AiffOutInfo → ℕ → List ℕ → AiffSink Container
  opened info tag samples = record {
    view = at_end (sink_file info.stream tag 0 0 0 samples) 58;
    info = info;
    file_size_offset = pos 4;
    num_frames_offset = pos 22;
    ssnd_size_offset = pos 46;
    header_size = 58;
  }

  -- A new AIFF sink on an empty container, with a channel or more and a format that the sink has a
  -- tag for, has written a header of 58 bytes with zeros for the sizes and the number of frames,
  -- remembers where these lie, and has its window behind the header.
  pub open_aiff_sink-empty :
      (info : AiffOutInfo) {tag : ℕ}
      → 0 < info.stream.num_channels
      → format_to_tag info.stream.format ≡ some tag
      → open_aiff_sink container_sink info (at_end [] 0) ≡ (done tt, opened info tag [])
  unfolding open_aiff_sink write_aiff_header set_view
  open_aiff_sink-empty info {tag} some_channels tagged =
      let i = info.stream in
      let k : AiffSink Container = record {
        view = at_end [] 0;
        info = info;
        file_size_offset = pos 0;
        num_frames_offset = pos 0;
        ssnd_size_offset = pos 0;
        header_size = 0;
      } in
      let k1 = record k { file_size_offset = pos 4 } in
      let k2 = record k1 { num_frames_offset = pos 22 } in
      let k3 = record k2 { ssnd_size_offset = pos 46; header_size = 58 } in
      let head = (big.object 4 form ++ big.object 4 0) ++ big.object 4 aifc in
      let c = big.object 2 (i.num_channels % 2 ^ 16) in
      let w = big.object 2 (bits i.format.bitwidth) in
      let rest =
        big.object 4 comm
        ++ (big.object 4 22
            ++ (c ++ (big.object 4 0 ++ (w ++ (rate_bytes i ++ big.object 4 tag))))) in
      let last = big.object 4 ssnd ++ (big.object 4 0 ++ replicate 8 0) in
      let not_zero : (i.num_channels == 0) ≡ false = ground arith in
      let same : (head ++ rest) ++ last ≡ sink_file i tag 0 0 0 [] =
        simp (append_assoc, append-nil) refl in
      let l58 = length-sink_file i tag 0 0 0 [] in
      let lh : length head ≡ 12 =
        length-put (big.object 4 form ++ big.object 4 0) (big.object 4 aifc) 8 4
          (length-put (big.object 4 form) (big.object 4 0) 4 4 (length-object 4 form)
            (length-object 4 0))
          (length-object 4 aifc) in
      let total : length ((head ++ rest) ++ last) ≡ 58 =
        ap (λ (b : List ℕ). length b) same ∙ omega (arith, l58) in
      let ll : length last ≡ 16 = omega (
        arith,
        length-append (big.object 4 ssnd) (big.object 4 0 ++ replicate 8 0),
        length-append (big.object 4 0) (replicate 8 0),
        length-object 4 ssnd,
        length-object 4 0,
      ) in
      let l42 : length (head ++ rest) ≡ 42 =
        omega (arith, total, length-append (head ++ rest) last) in
      rw
        (
          not_zero,
          write_form-empty k,
          write_comm_12 k1 head i lh tagged,
          write_ssnd_42 k2 (head ++ rest) l42,
          told-sink_at k3 ((head ++ rest) ++ last) 58 total (omega arith),
          same,
        )
        refl
