-- ===== src/Audio/Flac/Source/Laws.antt =====
-- A FLAC source as the stream of the decoded samples: what a read gives, and what it leaves.
use ni_media.Common.{
  ℕ, zero, suc, ◌+◌, ◌-◌, ◌*◌, ◌^◌, ◌≤◌, ◌<◌, ◌≡◌, refl, ap, ◌∙◌, sym, arith, true, false, List, [],
  ◌∷◌, ◌++◌, append_assoc, length, take, drop, min, length-take, length-drop, drop-drop,
  take-append-drop, ◌==◌, if◌then◌else◌, Bool-cases, inl, inr, ◌⊎◌, drop_all, take_all, ltb,
  take-append_over, drop-append_over,
}
use ni_media.Boost.{FindIf}
use ni_media.Iostreams.Device.{Source}
use ni_media.Pcm.Runtime.{RuntimeFormat}
use ni_media.Audio.Info.{IfstreamInfo, bytes_per_sample}
use ni_media.Audio.Reader.{done, next, give}
use ni_media.Audio.Flac.Decoder.{Outcome, StreamDecoder, Frame}
use ni_media.Audio.Flac.Interleave.{interleave}
use ni_media.Audio.Flac.Interleave.Laws.{IsFrame, bytes_of_rows, interleave_lem}
use ni_media.Audio.Flac.Metadata.{FlacSource}
use ni_media.Audio.Flac.Metadata.Laws.{IsFlacInfo}
use ni_media.Audio.Flac.Source.{write_callback, samples_available, copy_block, read_loop}
use ni_media.Audio.Flac.Decoding.{Rows, IsDecoder}
use native.Mathlib.Nat.{mul-le-mul}

-- The bytes of several blocks.
abbrev pub bytes_of_blocks : ℕ → List Rows → List ℕ
bytes_of_blocks n [] = []
bytes_of_blocks n (rows ∷ blocks) = bytes_of_rows n rows ++ bytes_of_blocks n blocks

-- A block of FLAC fits a `size_t`.
block_fits : (n b c : ℕ) → n ≤ 65535 → b ≤ 8 → c ≤ 8 → n * b * c < 2 ^ 64
block_fits n b c h h' h'' = let e = mul-le-mul (mul-le-mul h h') h'' in omega arith

-- The part of the buffer that was not delivered yet, and the bytes that are to come.
module _ {S D : Type 0} where
  abbrev pub buffered : FlacSource S D → List ℕ
  buffered st = if st.audio_block_available then drop st.buffer_offset st.buffer else []

  abbrev pub remaining : ℕ → (D → S → List Rows) → FlacSource S D → List ℕ
  remaining n left st = buffered st ++ bytes_of_blocks n (left st.decoder st.source)

  -- The turns of the loop that the buffer and the blocks to come take.
  abbrev pub turns : (D → S → List Rows) → FlacSource S D → ℕ
  turns left st = length (left st.decoder st.source) + (if st.audio_block_available then 1 else 0)

  -- The offset is within a block that is available, and is zero without one.
  pub record IsGood (info : IfstreamInfo) (IsReady : D → S → Type 0) (st : FlacSource S D)
      : Type 0 where
    pub same_info : st.info ≡ info
    pub inside : st.audio_block_available ≡ true → st.buffer_offset ≤ length st.buffer
    pub idle : st.audio_block_available ≡ false → st.buffer_offset ≡ 0
    pub ready : IsReady st.decoder st.source

module _ {S D : Type 0} ⦃range : FindIf RuntimeFormat⦄ (src : Source S)
    (lib : StreamDecoder (FlacSource S D) D) (info : IfstreamInfo) (flac : IsFlacInfo info)
    (all : Rows) (IsReady : D → S → Type 0) (left : D → S → List Rows)
    (decoder : IsDecoder src lib info.stream.num_channels all IsReady left) where
  -- The write callback on a block.
  pub write-block :
      (frame : Frame) (rows : Rows) (st : FlacSource S D)
      → st.info ≡ info
      → IsFrame info.stream.num_channels frame rows
      → length rows ≤ 65535
      → write_callback frame st ≡ (
        done true,
        record st {
          buffer = bytes_of_rows (bytes_per_sample info.stream) rows;
          audio_block_available = true;
        },
      )
  unfolding write_callback
  write-block frame rows st e f size =
      let n = bytes_per_sample info.stream in
      let c = info.stream.num_channels in
      let fits = block_fits (length rows) n c size (omega (arith, flac.narrow)) flac.few_channels in
      rw
        (
          ap
              (λ (i : IfstreamInfo).
                interleave frame (bytes_per_sample i.stream) i.stream.num_channels st.buffer)
              e,
          interleave_lem frame n c rows st.buffer flac.narrow f fits,
        )
        refl

  data Turn (st : FlacSource S D) : Type 0 where
    more :
        (st' : FlacSource S D)
        → samples_available src lib st ≡ (done true, st')
        → st'.audio_block_available ≡ true
        → IsGood info IsReady st'
        → remaining (bytes_per_sample info.stream) left st'
          ≡ remaining (bytes_per_sample info.stream) left st
        → turns left st' ≡ turns left st
        → st'.pos ≡ st.pos
        → Turn st
    over :
        (st' : FlacSource S D)
        → samples_available src lib st ≡ (done false, st')
        → IsGood info IsReady st'
        → remaining (bytes_per_sample info.stream) left st ≡ []
        → remaining (bytes_per_sample info.stream) left st' ≡ []
        → st'.pos ≡ st.pos
        → Turn st

  when_idle :
      (st : FlacSource S D) (blocks : List Rows)
      → IsGood info IsReady st
      → st.audio_block_available ≡ false
      → left st.decoder st.source ≡ blocks
      → Turn st
  unfolding samples_available
  when_idle st [] g e e' =
      let (d', s', ends, ready, none_left) = decoder.finish st.decoder st.source g.ready e' in
      let st' = record st { source = s'; decoder = d' } in
      let run : samples_available src lib st ≡ (done false, st') =
        simp e (rw (ends.effect st refl, ends.over, e) refl) in
      over st' run
        (record { same_info = g.same_info; inside = λ t. absurd cc; idle = g.idle; ready = ready })
        (rw (e, e') refl) (rw (e, none_left) refl) refl
  when_idle st (rows ∷ blocks) g e e' =
      let (d', s', gives, ready, rest) = decoder.next st.decoder st.source rows blocks g.ready e' in
      let n = bytes_per_sample info.stream in
      let read_on = record st { source = s' } in
      let st' = record st {
        source = s';
        decoder = d';
        buffer = bytes_of_rows n rows;
        audio_block_available = true;
      } in
      let run : samples_available src lib st ≡ (done true, st') = simp e (
        rw
          (
            gives.effect st refl,
            write-block gives.frame rows read_on g.same_info gives.is_frame gives.size,
            gives.state,
          )
          refl) in
      let start = g.idle e in
      more st' run refl
        (record {
          same_info = g.same_info;
          inside = λ t. omega arith;
          idle = λ t. absurd cc;
          ready = ready;
        })
        (rw (e, e', rest, start) refl) (rw (e, e', rest) (omega arith)) refl

  turn : (st : FlacSource S D) → IsGood info IsReady st → Turn st
  unfolding samples_available
  turn st g = elim (Bool-cases st.audio_block_available) [
    | inl e ↦ more st (simp e refl) e g refl refl refl
    | inr e ↦ when_idle st (left st.decoder st.source) g e refl
  ]

  -- One turn of the copy: what it takes, of a block that is available.
  record Copied (st : FlacSource S D) (wanted : ℕ) : Type 0 where
    good : IsGood info IsReady (copy_block src lib wanted st).1
    few : length (copy_block src lib wanted st).0 ≤ wanted
    same_pos : (copy_block src lib wanted st).1.pos ≡ st.pos
    taken :
        remaining (bytes_per_sample info.stream) left st
        ≡ (copy_block src lib wanted st).0
          ++ remaining (bytes_per_sample info.stream) left (copy_block src lib wanted st).1
    smaller :
        (turns left (copy_block src lib wanted st).1 + 1 ≡ turns left st)
        ⊎ (length (copy_block src lib wanted st).0 ≡ wanted)

  copied :
      (st : FlacSource S D) (wanted : ℕ)
      → IsGood info IsReady st
      → st.audio_block_available ≡ true
      → Copied st wanted
  unfolding copy_block
  copied st wanted g e =
      let inside = g.inside e in
      let n = min (length st.buffer - st.buffer_offset) wanted in
      let rest = drop st.buffer_offset st.buffer in
      let e1 = length-drop st.buffer_offset st.buffer in
      let e2 = length-take n rest in
      let e3 = drop-drop st.buffer_offset n st.buffer in
      let e4 = take-append-drop n rest in
      let blocks = bytes_of_blocks (bytes_per_sample info.stream) (left st.decoder st.source) in
      elim (Bool-cases (st.buffer_offset + n == length st.buffer)) [
        | inl finished ↦
            let whole : take n rest ≡ rest = take_all n rest (ground (arith, finished)) in
            record {
              good = rw finished (record {
                same_info = g.same_info;
                inside = λ t. absurd cc;
                idle = λ t. refl;
                ready = g.ready;
              });
              few = omega arith;
              same_pos = refl;
              taken = rw (finished, e) (ap (λ zs. zs ++ blocks) (sym whole));
              smaller = inl (rw (finished, e) (omega arith));
            }
        | inr left_over ↦
            let cut : rest ++ blocks
                ≡ take n rest ++ (drop (st.buffer_offset + n) st.buffer ++ blocks) =
              ap (λ zs. zs ++ blocks) (sym e4)
              ∙ append_assoc (take n rest) (drop n rest) blocks
              ∙ ap (λ zs. take n rest ++ (zs ++ blocks)) e3 in
            record {
              good = rw left_over (record {
                same_info = g.same_info;
                inside = λ t. ground (arith, left_over);
                idle = λ t. absurd cc;
                ready = g.ready;
              });
              few = omega arith;
              same_pos = refl;
              taken = rw (left_over, e) cut;
              smaller = inr (ground (arith, left_over));
            }
      ]

  -- A result of the loop: the next of the bytes that remain.
  pub record Reads (st : FlacSource S D) (wanted : ℕ) (r : Outcome (List ℕ) × FlacSource S D)
      : Type 0 where
    pub result : r.0 ≡ done (take wanted (remaining (bytes_per_sample info.stream) left st))
    pub good : IsGood info IsReady r.1
    pub rest :
        remaining (bytes_per_sample info.stream) left r.1
        ≡ drop wanted (remaining (bytes_per_sample info.stream) left st)
    pub same_pos : r.1.pos ≡ st.pos

  Reads-nothing : (st : FlacSource S D) → IsGood info IsReady st → Reads st 0 (done [], st)
  Reads-nothing st g = record { result = refl; good = g; rest = refl; same_pos = refl }

  Reads-then :
      (st st' : FlacSource S D) (wanted : ℕ) (bs : List ℕ) (r : Outcome (List ℕ) × FlacSource S D)
      → remaining (bytes_per_sample info.stream) left st
        ≡ bs ++ remaining (bytes_per_sample info.stream) left st'
      → length bs ≤ wanted
      → st'.pos ≡ st.pos
      → Reads st' (wanted - length bs) r
      → Reads st wanted (next r.0 (λ rest. give (done (bs ++ rest))) r.1)
  Reads-then st st' wanted bs r e few p reads =
      let left_over = remaining (bytes_per_sample info.stream) left st' in
      rw (reads.result) (record {
        result = rw (e, take-append_over wanted bs left_over few) refl;
        good = reads.good;
        rest = rw (e, drop-append_over wanted bs left_over few) reads.rest;
        same_pos = reads.same_pos ∙ p;
      })

  Reads-over :
      (st st' : FlacSource S D) (wanted : ℕ)
      → IsGood info IsReady st'
      → remaining (bytes_per_sample info.stream) left st ≡ []
      → remaining (bytes_per_sample info.stream) left st' ≡ []
      → st'.pos ≡ st.pos
      → Reads st wanted (done [], st')
  Reads-over st st' wanted g e e' p = record {
    result = rw (e, take_all {A = ℕ} wanted [] (omega arith)) refl;
    good = g;
    rest = rw (e, e', drop_all {A = ℕ} wanted [] (omega arith)) refl;
    same_pos = p;
  }

  pub read_loop-Reads :
      (fuel wanted : ℕ) (st : FlacSource S D)
      → IsGood info IsReady st
      → turns left st + 2 ≤ fuel
      → Reads st wanted (read_loop src lib fuel wanted st)
  unfolding read_loop
  read_loop-Reads fuel zero st g h = Reads-nothing st g
  read_loop-Reads zero (suc wanted) st g h = absurd (omega arith)
  read_loop-Reads (suc fuel) (suc wanted) st g h = elim (turn st g) [
    | over st' run g' none_left none_left' p ↦
        rw run (Reads-over st st' (suc wanted) g' none_left none_left' p)
    | more st' run e g' same t p ↦
        let c = copied st' (suc wanted) g' e in
        let (bs, st'') = copy_block src lib (suc wanted) st' in
        let inside : ltb (length st'.buffer) st'.buffer_offset ≡ false =
          ground (arith, g'.inside e) in
        rw (run, inside)
          (Reads-then st st'' (suc wanted) bs (read_loop src lib fuel (suc wanted - length bs) st'')
            (sym same ∙ c.taken) c.few (c.same_pos ∙ p)
            (elim (c.smaller) [
              | inl fewer ↦ read_loop-Reads fuel (suc wanted - length bs) st'' c.good (omega arith)
              | inr enough ↦
                  let nothing : suc wanted - length bs ≡ 0 = omega arith in
                  rw nothing (Reads-nothing st'' c.good)
            ]))
  ]
