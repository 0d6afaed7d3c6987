-- ===== src/Iostreams/File/Laws.antt =====
-- Fetching objects from a file, and the window on a container as a file.
use ni_media.Common.{
  ℕ, ◌+◌, ◌-◌, ◌≤◌, ◌<◌, ◌^◌, ◌≡◌, refl, ap, ◌∙◌, sym, arith, true, false, none, some, List, [],
  ◌∷◌, ◌++◌, append_assoc, length, length-append, min, ltb, ◌==◌, take, drop, take-append,
  drop-append, if◌then◌else◌, Bool-cases, inl, inr,
}
use ni_media.Common.Int.{pos, ◌-ℤ◌, ◌+ℤ◌, int_laws}
use ni_media.Boost.{Algorithms}
use ni_media.Iostreams.Positioning.{
  beg, cur, absolute_position-inside, absolute_position-min, absolute_position-step,
}
use ni_media.Iostreams.Device.{got, eof, Source}
use ni_media.Iostreams.Container
use ni_media.Iostreams.Container.{Container, IsValid, container_source}
use ni_media.Iostreams.Container.Laws.{seek_here, seek_min, seek_begin}
use ni_media.Iostreams.Subview.{Subview, whole, max_pos, read, seek, tell, subview_source}
use ni_media.Iostreams.Fetch.{read_each, fetch, is_complete, bytes_of}
use ni_media.Common.Bytes.{All}
use ni_media.Iostreams.File.{IsFile, StopsAtEnd, IsFileSize, portion}
use mathlib.Core.List.{map, flatten}

pub StopsAtEnd-IsFile :
    {S : Type 0} {src : Source S} {at : List ℕ → ℕ → S} → StopsAtEnd src at → IsFile src at
StopsAtEnd-IsFile stops = record {
  read_at = stops.read_at;
  tell_at = stops.tell_at;
  seek_at = λ bytes p q fits hp hq.
      let short : min q (length bytes) ≡ q = omega arith in
      rw short at (stops.seek_at bytes p q fits hp (omega arith));
  step_at = λ bytes p n fits hn.
      let short : min (p + n) (length bytes) ≡ p + n = omega arith in
      rw short at (stops.step_at bytes p n fits (omega arith) (omega arith));
}

module _ ⦃boost : Algorithms⦄ where
  -- The window on all of a container at a position.
  abbrev pub container_file : List ℕ → ℕ → Subview Container
  container_file bytes p = whole (record { bytes = bytes; position = p })

  whole_seek :
      (bytes : List ℕ) (p q : ℕ)
      → IsFileSize bytes
      → p ≤ length bytes
      → q < 2 ^ 63
      → seek Container.seek (pos q) beg (container_file bytes p)
        ≡ (pos (min q (length bytes)), container_file bytes (min q (length bytes)))
  unfolding seek
  whole_seek bytes p q size hp hq =
      let e : min q (2 ^ 63 - 1) ≡ q = omega arith in
      let back : pos (min q (length bytes)) -ℤ pos 0 ≡ pos (min q (length bytes)) =
        omega int_laws in
      rw
        (
          seek_here (record { bytes = bytes; position = p }) (record { inside = hp }),
          absolute_position-min (pos p) (2 ^ 63 - 1) q,
          e,
          seek_min bytes p q,
          back,
        )
        refl

  whole_tell :
      (bytes : List ℕ) (p : ℕ)
      → IsFileSize bytes
      → p ≤ length bytes
      → seek Container.seek (pos 0) cur (container_file bytes p) ≡ (pos p, container_file bytes p)
  unfolding seek
  whole_tell bytes p size hp =
      let here = seek_here (record { bytes = bytes; position = p }) (record { inside = hp }) in
      let e : pos p +ℤ boost.offset_to_position (pos 0) ≡ pos p =
        rw (boost.offset_to_position_lem (pos 0)) (omega int_laws) in
      let back : pos p -ℤ pos 0 ≡ pos p = omega int_laws in
      rw
        (
          here,
          absolute_position-inside (pos p) (pos 0) max_pos (pos 0) cur e (omega arith)
              (omega arith),
          seek_begin p bytes p hp,
          back,
        )
        refl

  whole_step :
      (bytes : List ℕ) (p n : ℕ)
      → IsFileSize bytes
      → p ≤ length bytes
      → p + n < 2 ^ 63
      → seek Container.seek (pos n) cur (container_file bytes p)
        ≡ (pos (min (p + n) (length bytes)), container_file bytes (min (p + n) (length bytes)))
  unfolding seek
  whole_step bytes p n size hp hn =
      let e : min (p + n) (2 ^ 63 - 1) ≡ p + n = omega arith in
      let back : pos (min (p + n) (length bytes)) -ℤ pos 0 ≡ pos (min (p + n) (length bytes)) =
        omega int_laws in
      rw
        (
          seek_here (record { bytes = bytes; position = p }) (record { inside = hp }),
          absolute_position-step p (2 ^ 63 - 1) n,
          e,
          seek_min bytes p (p + n),
          back,
        )
        refl

  whole_read :
      (bytes : List ℕ) (p n : ℕ)
      → IsFileSize bytes
      → p ≤ length bytes
      → read container_source n (container_file bytes p)
        ≡ (portion n bytes p, container_file bytes (p + min n (length bytes - p)))
  unfolding read tell Container.read
  whole_read bytes p n size hp =
      let width : max_pos -ℤ pos 0 ≡ max_pos = omega int_laws in
      let rest : max_pos -ℤ pos p ≡ pos (2 ^ 63 - 1 - p) = omega int_laws in
      let room : min (min n (2 ^ 63 - 1 - p)) (length bytes - p) ≡ min n (length bytes - p) =
        omega arith in
      let not_behind : ltb (length bytes) p ≡ false = ground arith in
      let not_outside : ltb (2 ^ 63 - 1 + 0) (p + 0) ≡ false = ground arith in
      rw (whole_tell bytes p size hp, width, rest, room, not_behind, not_outside)
        (elim (Bool-cases (min n (length bytes - p) == 0)) [
          | inl nothing ↦
              let stay : p + min n (length bytes - p) ≡ p = ground (arith, nothing) in
              rw (nothing, stay) refl
          | inr left ↦ rw left refl
        ])

  pub container_file-StopsAtEnd : StopsAtEnd (subview_source container_source) container_file
  container_file-StopsAtEnd = record {
    read_at = whole_read;
    tell_at = whole_tell;
    seek_at = whole_seek;
    step_at = whole_step;
  }

  pub container_file-IsFile : IsFile (subview_source container_source) container_file
  container_file-IsFile = StopsAtEnd-IsFile container_file-StopsAtEnd

module _ {S : Type 0} {src : Source S} {at : List ℕ → ℕ → S} (file : IsFile src at) where
  -- A read of what lies at the position.
  read_part :
      (bytes before bs after : List ℕ) (k : ℕ)
      → bytes ≡ before ++ (bs ++ after)
      → k ≡ length before
      → 0 < length bs
      → IsFileSize bytes
      → src.read (length bs) (at bytes k) ≡ (got bs, at bytes (k + length bs))
  read_part bytes before bs after k e ek some_bytes size =
      let n = length bs in
      let sizes : length bytes ≡ k + (n + length after) =
        ap length e ∙ omega (arith, length-append before (bs ++ after), length-append bs after) in
      let all : min n (length bytes - k) ≡ n = omega arith in
      let not_none : (n == 0) ≡ false = ground arith in
      let found : take n (drop k bytes) ≡ bs =
        rw (e, drop-append k before (bs ++ after) ek) (take-append n bs after refl) in
      rw (file.read_at bytes k n size (omega arith), all, not_none, found) refl

  -- At the end there is nothing to read.
  pub read_end :
      (bytes : List ℕ) (n : ℕ)
      → IsFileSize bytes
      → src.read n (at bytes (length bytes)) ≡ (eof, at bytes (length bytes))
  read_end bytes n size =
      let nothing : min n (length bytes - length bytes) ≡ 0 = omega arith in
      let stay : length bytes + 0 ≡ length bytes = omega arith in
      rw (file.read_at bytes (length bytes) n size (omega arith), nothing, stay) refl

  -- One read for each of the objects that lie one after the other.
  read_each-file :
      (bytes before : List ℕ) (objects : List (List ℕ)) (after : List ℕ) (k : ℕ)
      → bytes ≡ before ++ (flatten objects ++ after)
      → k ≡ length before
      → All (λ bs. 0 < length bs) objects
      → IsFileSize bytes
      → read_each src (map length objects) (at bytes k)
        ≡ (map (λ _. true) objects, objects, at bytes (k + length (flatten objects)))
  unfolding read_each flatten
  read_each-file bytes before [] after k e ek h size =
      let stay : k + 0 ≡ k = omega arith in rw (stay) refl
  read_each-file bytes before (bs ∷ objects) after k e ek h size =
      let rest = flatten objects ++ after in
      let e1 : bytes ≡ before ++ (bs ++ rest) =
        e ∙ ap (λ t. before ++ t) (append_assoc bs (flatten objects) after) in
      let e2 : bytes ≡ (before ++ bs) ++ rest = e1 ∙ sym (append_assoc before bs rest) in
      let e3 : k + length bs ≡ length (before ++ bs) = rw (length-append before bs, ek) refl in
      let whole : (length bs == length bs) ≡ true = ground arith in
      let sum : k + length bs + length (flatten objects) ≡ k + length (bs ++ flatten objects) =
        omega (arith, length-append bs (flatten objects)) in
      rw
        (
          read_part bytes before bs rest k e1 ek h.0 size,
          whole,
          read_each-file bytes (before ++ bs) objects after (k + length bs) e2 e3 h.1 size,
          sum,
        )
        refl

  all_true :
      ⦃boost : Algorithms⦄ (objects : List (List ℕ))
      → boost.all_of_equal (map (λ _. true) objects) true ≡ true
  all_true ⦃boost⦄ [] = boost.all_of_equal-nil true
  all_true ⦃boost⦄ (bs ∷ objects) = rw (boost.all_of_equal-cons, all_true objects) refl

  -- On any source that behaves as a file, fetching objects of the sizes of those that lie at the
  -- position, none of them empty, gives their bytes and moves behind them.
  pub fetch-file :
      ⦃boost : Algorithms⦄ (bytes before : List ℕ) (objects : List (List ℕ)) (after : List ℕ)
      (k : ℕ)
      → bytes ≡ before ++ (flatten objects ++ after)
      → k ≡ length before
      → All (λ bs. 0 < length bs) objects
      → IsFileSize bytes
      → fetch src (map length objects) (at bytes k)
        ≡ (some objects, at bytes (k + length (flatten objects)))
  unfolding fetch
  fetch-file bytes before objects after k e ek h size =
      rw (read_each-file bytes before objects after k e ek h size, all_true objects) refl

  read_each-end :
      (bytes : List ℕ) (ns : List ℕ)
      → IsFileSize bytes
      → (read_each src ns (at bytes (length bytes))).2 ≡ at bytes (length bytes)
  unfolding read_each
  read_each-end bytes [] size = refl
  read_each-end bytes (n ∷ ns) size = rw (read_end bytes n size) (read_each-end bytes ns size)

  -- At the end no object can be fetched.
  pub fetch_end :
      ⦃boost : Algorithms⦄ (bytes : List ℕ) (n : ℕ) (ns : List ℕ)
      → IsFileSize bytes
      → fetch src (n ∷ ns) (at bytes (length bytes)) ≡ (none, at bytes (length bytes))
  unfolding fetch read_each
  fetch_end ⦃boost⦄ bytes n ns size =
      rw
        (
          read_end bytes n size,
          boost.all_of_equal-cons false (read_each src ns (at bytes (length bytes))).0 true,
          read_each-end bytes ns size,
        )
        refl

  pub fetch-portion :
      ⦃boost : Algorithms⦄ (bytes : List ℕ) (p n : ℕ)
      → IsFileSize bytes
      → p ≤ length bytes
      → fetch src (n ∷ []) (at bytes p) ≡ (
        if is_complete n (portion n bytes p)
            then some (bytes_of (portion n bytes p) ∷ [])
            else none,
        at bytes (p + min n (length bytes - p)),
      )
  unfolding fetch read_each
  fetch-portion ⦃boost⦄ bytes p n size hp =
      let one = is_complete n (portion n bytes p) in
      let e : boost.all_of_equal (one ∷ []) true ≡ one =
        boost.all_of_equal-cons one [] true
        ∙ rw (boost.all_of_equal-nil true)
            (elim (Bool-cases one) [ inl h ↦ rw h refl | inr h ↦ rw h refl ]) in
      rw (file.read_at bytes p n size hp, e) refl
