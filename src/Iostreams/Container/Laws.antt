-- ===== src/Iostreams/Container/Laws.antt =====
-- What the operations of a container device do.
use ni_media.Common.{
  ℕ, ◌+◌, ◌-◌, ◌≤◌, ◌<◌, ◌≡◌, refl, ◌∙◌, arith, ◌⊎◌, inl, inr, List, [], ◌∷◌, ◌++◌, append_assoc,
  append-nil, length, length-append, length-take, length-drop, take, drop, take_all, drop_all,
  take-append, drop-append, min,
}
use ni_media.Common.Int.{ℤ, pos, ◌+ℤ◌, int_laws}
use ni_media.Boost.{Algorithms}
use ni_media.Iostreams.Positioning.{
  SeekDir, beg, cur, absolute_position_bounds, absolute_position-inside, absolute_position-min,
}
use ni_media.Iostreams.Device.{got, wrote}
use ni_media.Iostreams.Container.{Container, IsValid, read, write, write_inside, overwrite, seek}

nat_cases : (a b : ℕ) → (a < b) ⊎ (b ≤ a)
nat_cases a b = grind arith

-- A read keeps the bytes, and the position inside.
pub read-IsValid : (n : ℕ) {d : Container} → IsValid d → IsValid (read n d).1
unfolding read
read-IsValid n v = ground arith

pub read_keeps : (n : ℕ) (d : Container) → (read n d).1.bytes ≡ d.bytes
unfolding read
read_keeps n d = ground arith

length-overwrite :
    (bs s : List ℕ) (at : ℕ) → at + length s ≤ length bs → length (overwrite bs at s) ≡ length bs
length-overwrite bs s at h = omega (
  arith,
  length-append (take at bs) (s ++ drop (at + length s) bs),
  length-append s (drop (at + length s) bs),
  length-take at bs,
  length-drop (at + length s) bs,
)

-- A write that ends inside the container replaces bytes.
write_inside_all :
    (s : List ℕ) (d : Container)
    → d.position < length d.bytes
    → d.position + length s ≤ length d.bytes
    → write s d ≡ (
      wrote (length s),
      record { bytes = overwrite d.bytes d.position s; position = d.position + length s },
    )
unfolding write write_inside
write_inside_all s d inside fits =
    let e : min (length s) (length d.bytes - d.position) ≡ length s = omega arith in
    rw e (rw (take_all (length s) s (omega arith)) (ground arith))

-- A write at the end appends.
pub write_append :
    (s : List ℕ) (d : Container)
    → d.position ≡ length d.bytes
    → write s d
      ≡ (wrote (length s), record { bytes = d.bytes ++ s; position = d.position + length s })
unfolding write write_inside
write_append [] d e = ground (arith, append-nil d.bytes)
write_append (x ∷ s) d e = ground (arith, length-append d.bytes (x ∷ s))

-- A write that starts inside the container and goes beyond its end leaves the part that fits and
-- behind it all of the bytes once more, the part that fitted included.
pub write_across :
    (s : List ℕ) (d : Container)
    → d.position < length d.bytes
    → length d.bytes < d.position + length s
    → write s d ≡ (
      wrote (length s),
      record {
        bytes = take d.position d.bytes ++ (take (length d.bytes - d.position) s ++ s);
        position = length d.bytes + length s;
      },
    )
unfolding write write_inside
write_across s d inside across =
    let k = length d.bytes - d.position in
    let e : min (length s) k ≡ k = omega arith in
    let taken : length (take k s) ≡ k = omega (arith, length-take k s) in
    rw (e, taken, drop_all (d.position + k) d.bytes (omega arith))
      (ground (
        arith,
        append-nil (take k s),
        append_assoc (take d.position d.bytes) (take k s) s,
        length-append (take d.position d.bytes) (take k s ++ s),
        length-append (take k s) s,
        length-take d.position d.bytes,
      ))

-- So the write adds as many bytes as `s` has, and not only those that did not fit.
pub length_across :
    (s : List ℕ) (d : Container)
    → d.position < length d.bytes
    → length d.bytes < d.position + length s
    → length (write s d).1.bytes ≡ length d.bytes + length s
length_across s d inside across =
    let k = length d.bytes - d.position in
    rw (write_across s d inside across) (
      omega (
        arith,
        length-append (take d.position d.bytes) (take k s ++ s),
        length-append (take k s) s,
        length-take d.position d.bytes,
        length-take k s,
      ))

-- Seeking from the beginning goes no further than the end.
pub seek_min :
    ⦃boost : Algorithms⦄ (bytes : List ℕ) (p q : ℕ)
    → seek (pos q) beg (record { bytes = bytes; position = p })
      ≡ (pos (min q (length bytes)), record { bytes = bytes; position = min q (length bytes) })
unfolding seek
seek_min bytes p q = rw (absolute_position-min (pos p) (length bytes) q) refl

pub seek_begin :
    ⦃boost : Algorithms⦄ (p : ℕ) (bytes : List ℕ) (q : ℕ)
    → p ≤ length bytes
    → seek (pos p) beg (record { bytes = bytes; position = q })
      ≡ (pos p, record { bytes = bytes; position = p })
seek_begin p bytes q h =
    let e : min p (length bytes) ≡ p = omega arith in seek_min bytes q p ∙ rw e refl

-- Asking for the position changes nothing.
pub seek_here :
    ⦃boost : Algorithms⦄ (d : Container) → IsValid d → seek (pos 0) cur d ≡ (pos d.position, d)
unfolding seek
seek_here ⦃boost⦄ d v =
    let e : pos d.position +ℤ boost.offset_to_position (pos 0) ≡ pos d.position =
      rw (boost.offset_to_position_lem (pos 0)) (omega int_laws) in
    rw
      (absolute_position-inside (pos d.position) (pos 0) (pos (length d.bytes)) (pos 0) cur e
        (omega arith) (omega (arith, v.inside)))
      refl

pub seek-IsValid :
    ⦃boost : Algorithms⦄ (off : ℤ) (way : SeekDir) (d : Container) → IsValid (seek off way d).1
unfolding seek
seek-IsValid off way d =
    let size = length d.bytes in
    ground
      (arith, absolute_position_bounds (pos d.position) (pos 0) (pos size) off way (omega arith))

-- A read of as many bytes as `bs` has, in front of `bs`, gives them and moves behind them.
pub read_at :
    (before bs after : List ℕ)
    → 0 < length bs
    → read (length bs) (record { bytes = before ++ (bs ++ after); position = length before })
      ≡ (got bs, record { bytes = before ++ (bs ++ after); position = length before + length bs })
unfolding read
read_at before bs after h =
    let e : min (length bs) (length (before ++ (bs ++ after)) - length before) ≡ length bs =
      omega (arith, length-append before (bs ++ after), length-append bs after) in
    rw
      (
        e,
        drop-append (length before) before (bs ++ after) refl,
        take-append (length bs) bs after refl,
      )
      (ground (arith, length-append before (bs ++ after)))

-- A write at a valid position that ends inside the container, or starts at its end, replaces as
-- many bytes by the ones written, keeps the others, and moves the position behind them.
pub write_splices :
    (s : List ℕ) (d : Container)
    → IsValid d
    → (d.position ≡ length d.bytes) ⊎ (d.position + length s ≤ length d.bytes)
    → write s d ≡ (
      wrote (length s),
      record { bytes = overwrite d.bytes d.position s; position = d.position + length s },
    )
write_splices s d v fits = elim (nat_cases d.position (length d.bytes)) [
  | inl inside ↦ write_inside_all s d inside (omega arith)
  | inr at_end ↦
      let e : d.position ≡ length d.bytes = omega (arith, v.inside) in
      write_append s d e
      ∙ rw
          (
            take_all d.position d.bytes (omega arith),
            drop_all (d.position + length s) d.bytes (omega arith),
            append-nil s,
          )
          refl
]

-- What was written at the end of a container, or at a position inside it so that the write ends
-- inside it or at its end, is read back after a seek to that position, which leaves the container
-- as the write did; something was written.
pub read-write_back :
    ⦃boost : Algorithms⦄ (s : List ℕ) (d : Container)
    → IsValid d
    → 0 < length s
    → (d.position ≡ length d.bytes) ⊎ (d.position + length s ≤ length d.bytes)
    → let written = (write s d).1 in
      read (length s) (seek (pos d.position) beg written).1 ≡ (got s, written)
read-write_back s d v some_bytes fits =
    let before = take d.position d.bytes in
    let after = drop (d.position + length s) d.bytes in
    let e : length before ≡ d.position = omega (arith, length-take d.position d.bytes, v.inside) in
    let fits_after : d.position ≤ length (overwrite d.bytes d.position s) =
      omega (arith, length-append before (s ++ after)) in
    rw
      (
        write_splices s d v fits,
        seek_begin d.position (overwrite d.bytes d.position s) (d.position + length s) fits_after,
      )
      (rw e at (read_at before s after some_bytes))

-- A write on a container whose position is not behind its end leaves the position not behind the
-- end.
pub write-IsValid : (s : List ℕ) {d : Container} → IsValid d → IsValid (write s d).1
write-IsValid s {d} v = elim (nat_cases d.position (length d.bytes)) [
  | inl inside ↦ elim (nat_cases (length d.bytes) (d.position + length s)) [
    | inl across ↦
        rw (write_across s d inside across)
          (omega (arith, rw (write_across s d inside across) at (length_across s d inside across)))
    | inr fits ↦
        rw (write_inside_all s d inside fits)
          (omega (arith, length-overwrite d.bytes s d.position fits))
  ]
  | inr at_end ↦
      rw (write_append s d (omega (arith, v.inside))) (omega (arith, length-append d.bytes s))
]
