-- ===== src/Iostreams/Subview/Laws.antt =====
-- A window on a container behaves like a container of the bytes in the window.
use ni_media.Common.{
  ℕ, ◌+◌, ◌-◌, ◌≤◌, ◌≡◌, refl, ap, ◌∙◌, sym, arith, false, List, ◌++◌, length, length-append,
  length-drop, drop-append_le, drop-append_add, take-append_le, drop, min, ltb,
}
use ni_media.Common.Int.{ℤ, pos, negsuc, pos_part, nonneg_pos, ◌+ℤ◌, ◌-ℤ◌, int_laws}
use ni_media.Boost.{Algorithms}
use ni_media.Iostreams.Positioning.{
  SeekDir, beg, end, cur, IsStreamoff, absolute_position, absolute_position_bounds, target,
}
use ni_media.Iostreams.Container
use ni_media.Iostreams.Container.{Container, IsValid, container_source}
use ni_media.Iostreams.Container.Laws.{seek_begin, seek_here, read_keeps}
use ni_media.Iostreams.Subview.{Subview, read, seek, tell}

-- The window on the bytes of `d` between others, at the position of `d`.
abbrev pub window : List ℕ → List ℕ → Container → Subview Container
window before after d = record {
  device = record { bytes = before ++ (d.bytes ++ after); position = length before + d.position };
  first = pos (length before);
  last = pos (length before + length d.bytes);
}

sum_fits :
    (k b : ℕ) (off : ℤ)
    → IsStreamoff off
    → IsStreamoff (pos (k + b) +ℤ off)
    → IsStreamoff (pos b +ℤ off)
unfolding ◌+ℤ◌
sum_fits k b (pos n) h h' = (ground (arith, h'.0), ground arith)
sum_fits k b (negsuc n) h h' = (ground (arith, h.1, h'.0), ground (arith, h.1))

module _ ⦃boost : Algorithms⦄ where
  target_shift :
      (k q n : ℕ) (off : ℤ) (way : SeekDir)
      → target (pos (k + q)) (pos k) (pos (k + n)) off way
        ≡ pos k +ℤ target (pos q) (pos 0) (pos n) off way
  target_shift k q n off beg = omega int_laws
  target_shift k q n off _ = omega int_laws

  clamp_shift :
      (k n : ℕ) (t : ℤ)
      → boost.clamp (pos k +ℤ t) (pos k) (pos (k + n)) ≡ pos k +ℤ boost.clamp t (pos 0) (pos n)
  unfolding ◌+ℤ◌
  clamp_shift k n t =
      rw
        (
          boost.clamp_lem (pos k +ℤ t) (pos k) (pos (k + n)) (omega arith),
          boost.clamp_lem t (pos 0) (pos n) (omega arith),
        )
        (ground arith)

  absolute_position_shift :
      (k q n : ℕ) (off : ℤ) (way : SeekDir)
      → absolute_position (pos (k + q)) (pos k) (pos (k + n)) off way
        ≡ pos k +ℤ absolute_position (pos q) (pos 0) (pos n) off way
  unfolding absolute_position
  absolute_position_shift k q n off way =
      ap (λ (t : ℤ). boost.clamp t (pos k) (pos (k + n))) (target_shift k q n off way)
      ∙ clamp_shift k n (target (pos q) (pos 0) (pos n) off way)

  window_fits :
      (before after : List ℕ) (d : Container)
      → length before + length d.bytes ≤ length (before ++ (d.bytes ++ after))
  window_fits before after d =
      omega (arith, length-append before (d.bytes ++ after), length-append d.bytes after)

  -- Where a seek in the container goes, as a number.
  abbrev goal : ℤ → SeekDir → Container → ℕ
  goal off way d =
      pos_part (absolute_position (pos d.position) (pos 0) (pos (length d.bytes)) off way)

  seek_goal :
      (before : List ℕ) (off : ℤ) (way : SeekDir) (d : Container)
      → let k = length before in
        (absolute_position (pos (k + d.position)) (pos k) (pos (k + length d.bytes)) off way
          ≡ pos (k + goal off way d))
        × (goal off way d ≤ length d.bytes)
  seek_goal before off way d =
      let k = length before in
      let n = length d.bytes in
      let b = absolute_position_bounds (pos d.position) (pos 0) (pos n) off way (omega arith) in
      let e = nonneg_pos _ b.0 in
      (
        absolute_position_shift k d.position n off way ∙ rw e (omega int_laws),
        omega (arith, rw e at (b.1)),
      )

  seek_lem :
      (off : ℤ) (way : SeekDir) (d : Container)
      → Container.seek off way d ≡ (pos (goal off way d), record d { position = goal off way d })
  unfolding Container.seek
  seek_lem off way d = refl

  -- The equation for sums without bounds.
  seek_unbounded :
      (before after : List ℕ) (off : ℤ) (way : SeekDir) (d : Container)
      → IsValid d
      → seek Container.seek off way (window before after d)
        ≡ (let (p, d') = Container.seek off way d in (p, window before after d'))
  unfolding seek
  seek_unbounded before after off way d v =
      let k = length before in
      let m = goal off way d in
      let (e, fits) = seek_goal before off way d in
      let all = window_fits before after d in
      rw
        (
          seek_lem off way d,
          seek_here (window before after d).device
              (record { inside = omega (arith, v.inside, all) }),
          e,
          seek_begin (k + m) (before ++ (d.bytes ++ after)) (k + d.position)
              (omega (arith, fits, all)),
        )
        (ap (λ (p : ℤ). (p, window before after (record d { position = m }))) (omega int_laws))

  target_start :
      (k : ℕ) (off : ℤ)
      → IsStreamoff (pos k +ℤ boost.offset_to_position off)
      → IsStreamoff (pos (k + 0) +ℤ boost.offset_to_position off)
  target_start k off h = let same : k + 0 ≡ k = omega arith in rw same h

  -- The sum in the container lies between the offset and the sum in the window.
  target_fits :
      (k q n : ℕ) (off : ℤ) (way : SeekDir)
      → IsStreamoff off
      → IsStreamoff (target (pos (k + q)) (pos k) (pos (k + n)) off way)
      → IsStreamoff (target (pos q) (pos 0) (pos n) off way)
  target_fits k q n off beg h h' =
      rw (boost.offset_to_position_lem off)
        (sum_fits k 0 off h (rw (boost.offset_to_position_lem off) at (target_start k off h')))
  target_fits k q n off end h h' =
      rw (boost.offset_to_position_lem off)
        (sum_fits k n off h (rw (boost.offset_to_position_lem off) at h'))
  target_fits k q n off cur h h' =
      rw (boost.offset_to_position_lem off)
        (sum_fits k q off h (rw (boost.offset_to_position_lem off) at h'))

  -- Seeking in a window on a part of a container, from any base, is seeking in a container that
  -- holds that part alone, at a valid position. The offset fits 64 bits, and so does the sum of it
  -- and the base that the window forms; then the sum that the container alone forms fits them too.
  pub seek-window :
      (before after : List ℕ) (off : ℤ) (way : SeekDir) (d : Container)
      → IsValid d
      → IsStreamoff off
      → let k = length before in
        IsStreamoff (target (pos (k + d.position)) (pos k) (pos (k + length d.bytes)) off way)
        → IsStreamoff (target (pos d.position) (pos 0) (pos (length d.bytes)) off way)
          × (seek Container.seek off way (window before after d)
              ≡ (let (p, d') = Container.seek off way d in (p, window before after d')))
  seek-window before after off way d v h h' = (
    target_fits (length before) d.position (length d.bytes) off way h h',
    seek_unbounded before after off way d v,
  )

  tell-window :
      (before after : List ℕ) (d : Container)
      → IsValid d
      → tell Container.seek (window before after d) ≡ (pos d.position, window before after d)
  unfolding tell
  tell-window before after d v =
      seek_unbounded before after (pos 0) cur d v
      ∙ ap (λ (r : ℤ × Container). (r.0, window before after r.1)) (seek_here d v)

  -- The bytes that the window has left, read from the device.
  read_device :
      (before after : List ℕ) (n : ℕ) (d : Container)
      → IsValid d
      → Container.read (min n (length d.bytes - d.position)) (window before after d).device
        ≡ ((Container.read n d).0, (window before after (Container.read n d).1).device)
  unfolding Container.read
  read_device before after n d v =
      let m = min n (length d.bytes - d.position) in
      let big = length (before ++ (d.bytes ++ after)) in
      let sizes = window_fits before after d in
      let e : min m (big - (length before + d.position)) ≡ m = omega (arith, sizes) in
      let dropped : drop (length before + d.position) (before ++ (d.bytes ++ after))
          ≡ drop d.position d.bytes ++ after =
        drop-append_add (length before + d.position) d.position before (d.bytes ++ after) refl
        ∙ drop-append_le d.position d.bytes after v.inside in
      rw
        (
          e,
          dropped,
          take-append_le m (drop d.position d.bytes) after
              (omega (arith, length-drop d.position d.bytes)),
        )
        (ground (arith, sizes))

  -- Reading through a window on a part of a container is reading a container that holds that part
  -- alone, at a valid position: the same result, and the window on what is left behind.
  pub read-window :
      (before after : List ℕ) (n : ℕ) (d : Container)
      → IsValid d
      → read container_source n (window before after d)
        ≡ (let (r, d') = Container.read n d in (r, window before after d'))
  unfolding read
  read-window before after n d v =
      let width : pos (length before + length d.bytes) -ℤ pos (length before)
          ≡ pos (length d.bytes) =
        omega int_laws in
      let rest : pos (length d.bytes) -ℤ pos d.position ≡ pos (length d.bytes - d.position) =
        omega (int_laws, v.inside) in
      let not_outside : ltb (length d.bytes + 0) (d.position + 0) ≡ false =
        ground (arith, v.inside) in
      let (r, d') = Container.read n d in
      rw (tell-window before after d v, width, rest, read_device before after n d v, not_outside)
        (ap
          (λ (l : ℕ). (
            r,
            record {
              device = (window before after d').device;
              first = pos (length before);
              last = pos (length before + l);
            },
          ))
          (ap length (sym (read_keeps n d))))
