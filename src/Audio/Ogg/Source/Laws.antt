-- ===== src/Audio/Ogg/Source/Laws.antt =====
-- An Ogg source as a file of the decoded bytes with a position: reads and seeks.
use ni_media.Common.{
  ℕ, zero, suc, ◌+◌, ◌-◌, ◌*◌, ◌%◌, ◌^◌, ◌≤◌, ◌<◌, ◌≡◌, refl, ap, ◌∙◌, sym, arith, Bool, true,
  false, ◌⊎◌, inl, inr, some, List, [], ◌∷◌, ◌++◌, length, take, drop, min, length-take,
  length-drop, drop-drop, take_all, drop_all, take-append_over, drop-append_over, drop-min, ltb,
  ◌==◌, Bool-cases,
}
use ni_media.Common.Int.{pos, ◌+ℤ◌, ◌-ℤ◌, int_laws}
use ni_media.Iostreams.Device.{Source}
use ni_media.Audio.Info.{bytes_per_frame, num_bytes}
use ni_media.Audio.Reader.{done, next, give}
use ni_media.Audio.Ogg.Vorbis.{Outcome, OvRead, ov_bytes, ov_error, VorbisFile}
use ni_media.Audio.Ogg.Source.{OggSource, callbacks, chunk, read_loop, read}
use native.Mathlib.Nat.{le_of_mul-le-mul_right}

no_elements : (xs : List ℕ) → length xs ≡ 0 → xs ≡ []
no_elements [] h = refl
no_elements (x ∷ xs) h = absurd (omega arith)

abbrev pub no_bytes : OvRead → Bool
no_bytes ov_error = true
no_bytes (ov_bytes bs) = length bs == 0

-- What libvorbisfile says of an open file with the decoded bytes `all`, of which `left` gives those that are still to
-- come: a read gives some of them, in whole frames, unless there is no room for a frame, and a seek goes to a frame.
-- There are no holes in the file.
pub record IsVorbis {S V : Type 0} (src : Source S) (lib : VorbisFile S V) (frame : ℕ)
    (all : List ℕ) (IsReady : V → S → Type 0) (left : V → S → List ℕ) : Type 0 where
  pub more :
      (v : V) (s : S) (n : ℕ)
      → IsReady v s
      → 0 < length (left v s)
      → frame ≤ n
      → (bs : List ℕ) × (k : ℕ) × (v' : V) × (s' : S) × (lib.ov_read (callbacks src) (pos n) v s
          ≡ (done (ov_bytes bs, v'), s'))
        × (length bs ≡ suc k * frame)
        × (length bs ≤ n)
        × IsReady v' s'
        × (left v s ≡ bs ++ left v' s')
  pub nothing :
      (v : V) (s : S) (n : ℕ)
      → IsReady v s
      → (n < frame) ⊎ (left v s ≡ [])
      → (ret : OvRead) × (v' : V) × (s' : S) × (lib.ov_read (callbacks src) (pos n) v s
          ≡ (done (ret, v'), s'))
        × (no_bytes ret ≡ true)
        × IsReady v' s'
        × (left v' s' ≡ left v s)
  pub sought :
      (v : V) (s : S) (k : ℕ)
      → IsReady v s
      → k * frame ≤ length all
      → (v' : V) × (s' : S) × (lib.ov_pcm_seek (callbacks src) k v s ≡ (done (true, v'), s'))
        × IsReady v' s'
        × (left v' s' ≡ drop (k * frame) all)

-- The source stands at the byte `p` of the decoded ones, of which its information has the number.
pub record IsAt {S V : Type 0} (frame : ℕ) (all : List ℕ) (IsReady : V → S → Type 0)
    (left : V → S → List ℕ) (p : ℕ) (st : OggSource S V) : Type 0 where
  pub file : V
  pub is_open : st.vorbis_file ≡ some file
  pub ready : IsReady file st.source
  pub inside : p ≤ length all
  pub rest : left file st.source ≡ drop p all
  pub same_pos : st.pos ≡ pos p
  pub size : num_bytes st.info ≡ length all
  pub same_frame : bytes_per_frame st.info.stream ≡ frame

module _ {S V : Type 0} (src : Source S) (lib : VorbisFile S V) (frame : ℕ) (all : List ℕ)
    (IsReady : V → S → Type 0) (left : V → S → List ℕ)
    (vorbis : IsVorbis src lib frame all IsReady left) (some_bytes : 0 < frame)
    (small : frame ≤ 4096) where
  -- What the loop gives of the bytes to come.
  record Decodes (v : V) (s : S) (n : ℕ) (r : Outcome (List ℕ × V) × S) : Type 0 where
    v' : V
    s' : S
    result : r ≡ (done (take n (left v s), v'), s')
    ready : IsReady v' s'
    rest : left v' s' ≡ drop n (left v s)

  chunk_pos : (n : ℕ) → chunk (pos n) ≡ pos (min n 4096)
  chunk_pos n = ground arith

  nothing_taken :
      (v v' : V) (s s' : S) (n : ℕ)
      → IsReady v' s'
      → (n ≡ 0) ⊎ (left v s ≡ [])
      → left v' s' ≡ left v s
      → Decodes v s n (done ([], v'), s')
  nothing_taken v v' s s' n ready (inl e) same = record {
    v' = v';
    s' = s';
    result = rw e refl;
    ready = ready;
    rest = rw e same;
  }
  nothing_taken v v' s s' n ready (inr e) same = record {
    v' = v';
    s' = s';
    result = rw (e, take_all {A = ℕ} n [] (omega arith)) refl;
    ready = ready;
    rest = rw (e, drop_all {A = ℕ} n [] (omega arith)) (same ∙ e);
  }

  no_room :
      (v : V) (s : S) (n : ℕ) → (n ≡ 0) ⊎ (left v s ≡ []) → (min n 4096 < frame) ⊎ (left v s ≡ [])
  no_room v s n (inl e) = inl (omega arith)
  no_room v s n (inr e) = inr e

  stopped :
      (fuel n : ℕ) (ret : OvRead) (v v' : V) (s s' : S)
      → lib.ov_read (callbacks src) (pos (min n 4096)) v s ≡ (done (ret, v'), s')
      → no_bytes ret ≡ true
      → read_loop src lib (suc fuel) (pos n) v s ≡ (done ([], v'), s')
  unfolding read_loop
  stopped fuel n ov_error v v' s s' run e = rw (chunk_pos n, run) refl
  stopped fuel n (ov_bytes bs) v v' s s' run e =
      let none_ : ltb 0 (length bs) ≡ false = ground arith in rw (chunk_pos n, run, none_) refl

  Decodes-nothing :
      (fuel n : ℕ) (v : V) (s : S)
      → IsReady v s
      → (n ≡ 0) ⊎ (left v s ≡ [])
      → Decodes v s n (read_loop src lib (suc fuel) (pos n) v s)
  Decodes-nothing fuel n v s ready e =
      let (ret, v', s', run, none_, ready', same) =
        vorbis.nothing v s (min n 4096) ready (no_room v s n e) in
      rw (stopped fuel n ret v v' s s' run none_) (nothing_taken v v' s s' n ready' e same)

  -- A chunk, and what the rest of the loop gives.
  Decodes-more :
      (n : ℕ) (v v' : V) (s s' : S) (bs : List ℕ) (r : Outcome (List ℕ × V) × S)
      → left v s ≡ bs ++ left v' s'
      → length bs ≤ n
      → Decodes v' s' (n - length bs) r
      → Decodes v s n (next r.0 (λ (rest, v''). give (done (bs ++ rest, v''))) r.1)
  Decodes-more n v v' s s' bs r split fits d = record {
    v' = d.v';
    s' = d.s';
    result = rw (d.result, split, take-append_over n bs (left v' s') fits) refl;
    ready = d.ready;
    rest = d.rest ∙ rw (split, drop-append_over n bs (left v' s') fits) refl;
  }

  frames_left : (n m k l : ℕ) → n ≡ m * frame → l ≡ k * frame → l ≤ n → n - l ≡ (m - k) * frame
  frames_left n m k l e e' h =
      let fewer : k ≤ m =
        le_of_mul-le-mul_right {m = k} {n = m} {k = frame} (omega arith) some_bytes in
      let split : (k + (m - k)) * frame ≡ n = ap (λ (t : ℕ). t * frame) (omega arith) ∙ sym e in
      omega arith

  read_loop-Decodes :
      (fuel m n : ℕ) (v : V) (s : S)
      → IsReady v s
      → n ≡ m * frame
      → m < fuel
      → Decodes v s n (read_loop src lib fuel (pos n) v s)
  unfolding read_loop
  read_loop-Decodes zero m n v s ready e h = absurd (omega arith)
  read_loop-Decodes (suc fuel) zero n v s ready e h =
      Decodes-nothing fuel n v s ready (inl (omega arith))
  read_loop-Decodes (suc fuel) (suc m) n v s ready e h =
      elim (Bool-cases (length (left v s) == 0)) [
        | inl over ↦
            Decodes-nothing fuel n v s ready (inr (no_elements (left v s) (ground (arith, over))))
        | inr left_over ↦
            let (bs, k, v', s', run, whole, fits, ready', split) =
              vorbis.more v s (min n 4096) ready (ground (arith, left_over)) (omega arith) in
            let some_ : ltb 0 (length bs) ≡ true = ground arith in
            let left_of = frames_left n (suc m) (suc k) (length bs) e whole (omega arith) in
            let rest : pos n -ℤ pos (length bs) ≡ pos (n - length bs) = omega int_laws in
            rw (chunk_pos n, run, some_, rest)
              (Decodes-more n v v' s s' bs (read_loop src lib fuel (pos (n - length bs)) v' s')
                split (omega arith)
                (read_loop-Decodes fuel (suc m - suc k) (n - length bs) v' s' ready' left_of
                  (omega arith)))
      ]

  -- Reading whole frames, of less than 2 GiB together, from an Ogg source that stands at a byte of
  -- the decoded samples gives the next bytes of them, as many as there are, and the source stands
  -- behind them. The file has no holes, libvorbisfile behaves as it says, and the loop has more
  -- turns than the frames that are asked for.
  pub read-vorbis_file :
      (p m fuel : ℕ) (st : OggSource S V)
      → IsAt frame all IsReady left p st
      → m * frame < 2 ^ 31
      → m < fuel
      → (st' : OggSource S V) × (read src lib fuel (m * frame) st
          ≡ (done (take (m * frame) (drop p all)), st'))
        × IsAt frame all IsReady left (min (p + m * frame) (length all)) st'
  unfolding read
  read-vorbis_file p m fuel st a fits enough =
      let n = m * frame in
      let no_wrap : n % 2 ^ 32 ≡ n = omega arith in
      let low : ltb n (2 ^ 31) ≡ true = ground arith in
      let d = read_loop-Decodes fuel m n a.file st.source a.ready refl enough in
      let given = take n (drop p all) in
      let len : length given ≡ min n (length all - p) =
        length-take n (drop p all) ∙ ap (λ (k : ℕ). min n k) (length-drop p all) in
      let inside = a.inside in
      let here : p + min n (length all - p) ≡ min (p + n) (length all) = omega arith in
      let there : pos p +ℤ pos (min n (length all - p)) ≡ pos (min (p + n) (length all)) =
        omega int_laws in
      let result = d.result ∙ ap (λ (zs : List ℕ). (done (take n zs, d.v'), d.s')) a.rest in
      let st' = record st {
        source = d.s';
        vorbis_file = some d.v';
        pos = st.pos +ℤ pos (length given);
      } in
      (
        st',
        rw (a.is_open, no_wrap, low, result) refl,
        record {
          file = d.v';
          is_open = refl;
          ready = d.ready;
          inside = omega arith;
          rest = d.rest ∙ ap (drop n) a.rest ∙ drop-drop p n all ∙ sym (drop-min (p + n) all);
          same_pos = rw (a.same_pos, len) there;
          size = a.size;
          same_frame = a.same_frame;
        },
      )
