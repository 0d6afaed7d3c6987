-- ===== src/Audio/Flac/Source/Position.antt =====
-- A FLAC source as a file of the decoded samples with a position in bytes: reads and seeks.
use ni_media.Common.{
  ℕ, zero, suc, ◌+◌, ◌-◌, ◌*◌, ◌/◌, ◌%◌, ◌^◌, ◌≤◌, ◌<◌, ◌≡◌, refl, ap, ◌∙◌, sym, arith, true, false,
  List, [], ◌∷◌, ◌++◌, append_assoc, length, take, drop, min, length-append, length-take,
  length-drop, drop-drop, drop-append_le, drop-append_over, drop-min, ◌==◌,
}
use ni_media.Common.Int.{ℤ, pos, ◌+ℤ◌, int_laws}
use ni_media.Common.Bytes.{All}
use ni_media.Boost.{FindIf, Algorithms}
use ni_media.Iostreams.Positioning.{SeekDir, absolute_position}
use ni_media.Iostreams.Device.{Source}
use ni_media.Pcm.Runtime.{RuntimeFormat}
use ni_media.Audio.Info.{IfstreamInfo, bytes_per_sample, bytes_per_frame, num_bytes, num_samples}
use ni_media.Audio.Reader.{done}
use ni_media.Audio.Flac.Decoder.{StreamDecoder}
use ni_media.Audio.Flac.Interleave.Laws.{
  bytes_of_row, bytes_of_rows, length-bytes_of_row, length-bytes_of_rows,
}
use ni_media.Audio.Flac.Metadata.{FlacSource}
use ni_media.Audio.Flac.Metadata.Laws.{IsFlacInfo}
use ni_media.Audio.Flac.Source.{read_loop, read, seek}
use ni_media.Audio.Flac.Decoding.{Rows, IsDecoder}
use ni_media.Audio.Flac.Source.Laws.{
  IsGood, read_loop-Reads, remaining, turns, bytes_of_blocks, write-block,
}
use mathlib.Core.List.{flatten}
use native.Mathlib.Nat.{
  mul-le-mul, mul-le-mul_left, mul-le-mul_right, div-lt_iff_lt-mul, div-add-mod', mod-lt,
}

bytes_of_rows-append :
    (n : ℕ) (xs ys : Rows) → bytes_of_rows n (xs ++ ys) ≡ bytes_of_rows n xs ++ bytes_of_rows n ys
bytes_of_rows-append n [] ys = refl
bytes_of_rows-append n (x ∷ xs) ys =
    ap (λ zs. bytes_of_row n x ++ zs) (bytes_of_rows-append n xs ys)
    ∙ sym (append_assoc (bytes_of_row n x) (bytes_of_rows n xs) (bytes_of_rows n ys))

bytes_of_blocks-flatten :
    (n : ℕ) (blocks : List Rows) → bytes_of_blocks n blocks ≡ bytes_of_rows n (flatten blocks)
unfolding flatten
bytes_of_blocks-flatten n [] = refl
bytes_of_blocks-flatten n (rows ∷ blocks) =
    ap (λ zs. bytes_of_rows n rows ++ zs) (bytes_of_blocks-flatten n blocks)
    ∙ sym (bytes_of_rows-append n rows (flatten blocks))

-- Frames of the same number of samples lie at multiples of their size.
bytes_of_rows-drop :
    (n c k : ℕ) (rows : Rows)
    → All (λ row. length row ≡ c) rows
    → k ≤ length rows
    → bytes_of_rows n (drop k rows) ≡ drop (k * (n * c)) (bytes_of_rows n rows)
bytes_of_rows-drop n c zero rows h le =
    ap (λ (i : ℕ). drop i (bytes_of_rows n rows)) {x = 0} {y = 0 * (n * c)} (omega arith)
bytes_of_rows-drop n c (suc k) [] h le = absurd (omega arith)
bytes_of_rows-drop n c (suc k) (row ∷ rows) h le =
    let size : length (bytes_of_row n row) ≡ n * c =
      length-bytes_of_row n row ∙ ap (λ (t : ℕ). n * t) h.0 in
    let less : suc k * (n * c) - length (bytes_of_row n row) ≡ k * (n * c) =
      rw size (omega arith) in
    bytes_of_rows-drop n c k rows h.1 (omega arith)
    ∙ ap (λ (i : ℕ). drop i (bytes_of_rows n rows)) (sym less)
    ∙ sym (
        drop-append_over (suc k * (n * c)) (bytes_of_row n row) (bytes_of_rows n rows)
          (rw size (omega arith)))

length-decoded :
    (n c : ℕ) (rows : Rows)
    → All (λ row. length row ≡ c) rows
    → length (bytes_of_rows n rows) ≡ length rows * (n * c)
length-decoded n c [] h = omega arith
length-decoded n c (row ∷ rows) h =
    let e1 = length-append (bytes_of_row n row) (bytes_of_rows n rows) in
    let e2 : length (bytes_of_row n row) ≡ n * c =
      length-bytes_of_row n row ∙ ap (λ (t : ℕ). n * t) h.0 in
    let e3 = length-decoded n c rows h.1 in omega arith

-- The stream's information fits its samples.
pub record Describes (info : IfstreamInfo) (all : Rows) : Type 0 where
  pub flac : IsFlacInfo info
  pub frames : info.num_frames ≡ length all
  pub frame_size : 0 < bytes_per_sample info.stream * info.stream.num_channels
  pub full : All (λ row. length row ≡ info.stream.num_channels) all
  pub fits : length all * (bytes_per_sample info.stream * info.stream.num_channels) < 2 ^ 63

abbrev pub decoded_bytes : IfstreamInfo → Rows → List ℕ
decoded_bytes info all = bytes_of_rows (bytes_per_sample info.stream) all

factor_positive : (m n : ℕ) → 0 < m * n → 1 ≤ m
factor_positive zero n h = absurd (omega arith)
factor_positive (suc m) n h = omega arith

module _ (info : IfstreamInfo) (all : Rows) (describes : Describes info all) where
  bytes_per_frame-described :
      bytes_per_frame info.stream ≡ bytes_per_sample info.stream * info.stream.num_channels
  unfolding bytes_per_frame
  bytes_per_frame-described =
      let narrow : bytes_per_sample info.stream ≤ 8 = omega (arith, describes.flac.narrow) in
      let small = mul-le-mul narrow describes.flac.few_channels in omega arith

  num_bytes-described : num_bytes info ≡ length (decoded_bytes info all)
  unfolding num_bytes num_samples
  num_bytes-described =
      let n = bytes_per_sample info.stream in
      let c = info.stream.num_channels in
      let fits = describes.fits in
      let count : info.num_frames * c ≡ length all * c = ap (λ (t : ℕ). t * c) describes.frames in
      let one = factor_positive n c describes.frame_size in
      let more : length all * c * 1 ≤ length all * c * n = mul-le-mul_left (length all * c) one in
      let e1 : info.num_frames * c % 2 ^ 64 ≡ length all * c = omega arith in
      let e2 = length-decoded n c all describes.full in
      ap (λ (t : ℕ). t * n % 2 ^ 64) e1 ∙ omega arith

  -- What is left of the stream behind a byte of the block that a seek has delivered.
  sought_rest :
      (k off : ℕ) (rows : Rows) (blocks : List Rows)
      → off ≤ length (bytes_of_rows (bytes_per_sample info.stream) rows)
      → k ≤ length all
      → rows ++ flatten blocks ≡ drop k all
      → drop off (bytes_of_rows (bytes_per_sample info.stream) rows)
          ++ bytes_of_blocks (bytes_per_sample info.stream) blocks
        ≡ drop
            (k * (bytes_per_sample info.stream * info.stream.num_channels) + off)
            (decoded_bytes info all)
  sought_rest k off rows blocks enough in_stream split =
      let n = bytes_per_sample info.stream in
      let c = info.stream.num_channels in
      let block = bytes_of_rows n rows in
      sym (drop-append_le off block (bytes_of_blocks n blocks) enough)
      ∙ ap (λ zs. drop off (block ++ zs)) (bytes_of_blocks-flatten n blocks)
      ∙ ap (drop off) (sym (bytes_of_rows-append n rows (flatten blocks)))
      ∙ ap (λ (zs : Rows). drop off (bytes_of_rows n zs)) split
      ∙ ap (drop off) (bytes_of_rows-drop n c k all describes.full in_stream)
      ∙ drop-drop (k * (n * c)) off (bytes_of_rows n all)

module _ {S D : Type 0} where
  -- The source stands at the byte `p` of the decoded ones.
  pub record IsAt (info : IfstreamInfo) (all : Rows) (IsReady : D → S → Type 0)
      (left : D → S → List Rows) (p : ℕ) (st : FlacSource S D) : Type 0 where
    pub good : IsGood info IsReady st
    pub inside : p ≤ length (decoded_bytes info all)
    pub rest : remaining (bytes_per_sample info.stream) left st ≡ drop p (decoded_bytes info all)
    pub same_pos : st.pos ≡ pos p

module _ {S D : Type 0} ⦃range : FindIf RuntimeFormat⦄ (src : Source S)
    (lib : StreamDecoder (FlacSource S D) D) (info : IfstreamInfo) (all : Rows)
    (describes : Describes info all) (IsReady : D → S → Type 0) (left : D → S → List Rows)
    (decoder : IsDecoder src lib info.stream.num_channels all IsReady left) where
  -- Reading from a FLAC source that stands at a byte of the decoded samples gives the next bytes of
  -- them, as many as there are, and the source stands behind them. The information of the source
  -- describes the samples, libFLAC behaves as it says, and the loop has two turns more than the
  -- blocks that are buffered or to come.
  pub read-decoded_bytes :
      (p n fuel : ℕ) (st : FlacSource S D)
      → IsAt info all IsReady left p st
      → turns left st + 2 ≤ fuel
      → (st' : FlacSource S D) × (read src lib fuel n st
          ≡ (done (take n (drop p (decoded_bytes info all))), st'))
        × IsAt info all IsReady left (min (p + n) (length (decoded_bytes info all))) st'
  unfolding read
  read-decoded_bytes p n fuel st a h =
      let r = read_loop src lib fuel n st in
      let bytes = decoded_bytes info all in
      let reads =
        read_loop-Reads src lib info describes.flac all IsReady left decoder fuel n st a.good h in
      let given = take n (drop p bytes) in
      let len : length given ≡ min n (length bytes - p) =
        length-take n (drop p bytes) ∙ ap (λ (k : ℕ). min n k) (length-drop p bytes) in
      let inside = a.inside in
      let here : p + min n (length bytes - p) ≡ min (p + n) (length bytes) = omega arith in
      let st' = record r.1 { pos = r.1.pos +ℤ pos (length given) } in
      let shorter : drop n (drop p bytes) ≡ drop (min (p + n) (length bytes)) bytes =
        drop-drop p n bytes ∙ sym (drop-min (p + n) bytes) in
      let there : pos p +ℤ pos (min n (length bytes - p)) ≡ pos (min (p + n) (length bytes)) =
        omega int_laws in
      (
        st',
        rw (reads.result, a.rest) refl,
        record {
          good = record {
            same_info = reads.good.same_info;
            inside = reads.good.inside;
            idle = reads.good.idle;
            ready = reads.good.ready;
          };
          inside = omega arith;
          rest = reads.rest ∙ ap (drop n) a.rest ∙ shorter;
          same_pos = rw (reads.same_pos, a.same_pos, len) there;
        },
      )

  -- Seeking in a FLAC source to a byte before the end of the decoded samples, from any base, gives
  -- that position, and the source stands there, whatever block was buffered. The information of the
  -- source describes the samples, and libFLAC behaves as it says.
  pub seek-decoded_bytes :
      ⦃boost : Algorithms⦄ (p q : ℕ) (off : ℤ) (way : SeekDir) (st : FlacSource S D)
      → IsAt info all IsReady left p st
      → absolute_position (pos p) (pos 0) (pos (length (decoded_bytes info all))) off way ≡ pos q
      → q < length (decoded_bytes info all)
      → (st' : FlacSource S D) × (seek src lib off way st ≡ (done (pos q), st'))
        × IsAt info all IsReady left q st'
  unfolding seek
  seek-decoded_bytes p q off way st a target inside =
      let n = bytes_per_sample info.stream in
      let c = info.stream.num_channels in
      let bytes = decoded_bytes info all in
      let size = length-decoded n c all describes.full in
      let fits = describes.fits in
      let some_bytes = describes.frame_size in
      let k = q / (n * c) in
      let off' = q % (n * c) in
      let whole = div-add-mod' q (n * c) in
      let within = mod-lt q some_bytes in
      let in_stream : k < length all =
        (div-lt_iff_lt-mul {k = n * c} {x = q} {y = length all} some_bytes).1 (omega arith) in
      let (rows, d', s', nonempty, gives, ready, split) =
        decoder.sought st.decoder st.source k a.good.ready in_stream in
      let block = bytes_of_rows n rows in
      let st' = record st {
        source = s';
        decoder = d';
        buffer = block;
        audio_block_available = true;
        pos = pos q;
        buffer_offset = off';
      } in
      let frame_e : bytes_per_frame st.info.stream ≡ n * c =
        ap (λ (i : IfstreamInfo). bytes_per_frame i.stream) a.good.same_info
        ∙ bytes_per_frame-described info all describes in
      let last_e : num_bytes st.info ≡ length bytes =
        ap (λ (i : IfstreamInfo). num_bytes i) a.good.same_info
        ∙ num_bytes-described info all describes in
      let there : absolute_position st.pos (pos 0) (pos (num_bytes st.info)) off way ≡ pos q =
        rw (a.same_pos, last_e) target in
      let no_wrap : q % 2 ^ 64 ≡ q = omega arith in
      let not_zero : (n * c == 0) ≡ false = ground arith in
      let block_size = length-bytes_of_rows gives.frame n c 0 rows gives.is_frame.samples in
      let one = mul-le-mul_right (n * c) nonempty in
      let enough : off' ≤ length block = omega arith in
      let run : seek src lib off way st ≡ (done (pos q), st') =
        rw
          (
            there,
            frame_e,
            not_zero,
            no_wrap,
            gives.effect st refl,
            write-block src lib info describes.flac all IsReady left decoder gives.frame rows
                (record st { source = s' }) a.good.same_info gives.is_frame gives.size,
          )
          refl in
      let rest =
        sought_rest info all describes k off' rows (left d' s') enough (omega arith) split in
      (
        st',
        run,
        record {
          good = record {
            same_info = a.good.same_info;
            inside = λ t. enough;
            idle = λ t. absurd cc;
            ready = ready;
          };
          inside = omega arith;
          rest = rest ∙ ap (λ (i : ℕ). drop i bytes) whole;
          same_pos = refl;
        },
      )
