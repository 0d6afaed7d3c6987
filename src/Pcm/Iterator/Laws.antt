-- ===== src/Pcm/Iterator/Laws.antt =====
-- Iterators move as positions in an array of samples do, and an assignment through one is seen there and nowhere else.
use ni_media.Common.{
  ℕ, zero, suc, ◌+◌, ◌-◌, ◌*◌, ◌/◌, ◌≤◌, ◌<◌, ◌≡◌, refl, ap, sym, ◌∙◌, arith, true, false, Option,
  none, some, List, [], ◌∷◌, ◌++◌, ◌⊎◌, inl, inr, take, drop, take-append-drop, length-take,
  length-drop, length, length-append, drop-append, drop-append_le, take-append_le, drop-append_add,
  ltb, leb, Bool-cases, if◌then◌else◌, append_assoc,
}
use ni_media.Common.Int.{ℤ, pos, negsuc}
use ni_media.Pcm.Format.{EndianType, bits}
use ni_media.Pcm.Convert.{IntType, IsValue, width}
use ni_media.Pcm.Sample
use ni_media.Pcm.Sample.{IntFormat, copy_n, num_bytes}
use ni_media.Pcm.Sample.RoundTrip.{read-write, length-write, read-copy_n}
use ni_media.Pcm.Iterator.{Iterator, step, advance, moved, distance_to, dereference, assign}
use native.Mathlib.Nat.{mul-div_cancel}

step_lower : (it : Iterator) → 0 < step it
step_lower it = ground arith

base_of : Option Iterator → ℕ
base_of none = 0
base_of (some it) = it.base

bytes_of : Option (List ℕ) → List ℕ
bytes_of none = []
bytes_of (some bytes) = bytes

-- The distance between positions that lie a number of steps apart.
distance_up : (base m size n : ℕ) → m / size ≡ n → (base + m - base) / size ≡ n
distance_up base m size n e = let e' : base + m - base ≡ m = omega arith in rw e' e

distance_down : (base m size n : ℕ) → m ≤ base → m / size ≡ n → (base - (base - m)) / size ≡ n
distance_down base m size n h e = let e' : base - (base - m) ≡ m = omega arith in rw e' e

product_lower : (n size : ℕ) → 0 < size → 0 < suc n * size
product_lower n zero h = absurd (omega arith)
product_lower n (suc size) h = omega arith

-- The distance from an iterator to where an advance by any offset takes it, not before the first
-- byte, is that offset.
pub distance_to-advance :
    (off : ℤ) (it : Iterator) {it' : Iterator}
    → advance off it ≡ some it'
    → distance_to it it' ≡ off
unfolding advance moved distance_to base_of
distance_to-advance (pos n) it {it'} h =
    let there : it.base + n * step it ≡ it'.base = ap base_of h in
    let ahead : leb it.base (it.base + n * step it) ≡ true = ground arith in
    rw (← there, ahead)
      (ap pos (distance_up it.base (n * step it) (step it) n (mul-div_cancel n (step_lower it))))
distance_to-advance (negsuc n) it {it'} h =
    let m = suc n * step it in
    let positive : 0 < m = product_lower n (step it) (step_lower it) in
    elim (Bool-cases (ltb it.base m)) [
      | inl before ↦ absurd (cc (rw (advance, moved, before) at h))
      | inr inside ↦
          let fits : m ≤ it.base = ground (arith, inside) in
          let there : it.base - m ≡ it'.base = ap base_of (rw (advance, moved, inside) at h) in
          let behind : leb it.base (it.base - m) ≡ false = ground arith in
          rw
            (
              ← there,
              behind,
              distance_down it.base m (step it) (suc n) fits
                  (mul-div_cancel (suc n) (step_lower it)),
            )
            (ground arith)
    ]

copy_n_lem :
    (n : ℕ) (bs : List ℕ) → copy_n n bs ≡ (if leb n (length bs) then some (take n bs) else none)
unfolding copy_n
copy_n_lem zero bs = ground arith
copy_n_lem (suc n) [] = ground arith
copy_n_lem (suc n) (b ∷ bs) =
    let e : leb (suc n) (suc (length bs)) ≡ leb n (length bs) = ground arith in
    rw (copy_n_lem n bs, e)
      (elim (Bool-cases (leb n (length bs))) [ inl h ↦ rw h refl | inr h ↦ rw h refl ])

-- Bytes between `p` and `p + n`, before or behind a part that is overwritten.
outside_part :
    (bytes s : List ℕ) (base p n : ℕ)
    → base + length s ≤ length bytes
    → p + n ≤ base ⊎ base + length s ≤ p
    → take n (drop p (take base bytes ++ (s ++ drop (base + length s) bytes)))
      ≡ take n (drop p bytes)
outside_part bytes s base p n fits (inl before) =
    let front = take base bytes in
    let l : length front ≡ base = length-take base bytes ∙ omega arith in
    let room : n ≤ length (drop p front) = omega (arith, length-drop p front) in
    let rest = s ++ drop (base + length s) bytes in
    let whole : front ++ drop base bytes ≡ bytes = take-append-drop base bytes in
    rw (drop-append_le p front rest (omega arith), take-append_le n (drop p front) rest room)
      (sym (
        ap (λ b. take n (drop p b)) (sym whole)
        ∙ rw
            (
              drop-append_le p front (drop base bytes) (omega arith),
              take-append_le n (drop p front) (drop base bytes) room,
            )
            refl))
outside_part bytes s base p n fits (inr behind) =
    let front = take base bytes in
    let after = drop (base + length s) bytes in
    let i = p - (base + length s) in
    let l : length front ≡ base = length-take base bytes ∙ omega arith in
    let l' : length (take (base + length s) bytes) ≡ base + length s =
      length-take (base + length s) bytes ∙ omega arith in
    let same : front ++ (s ++ after) ≡ (front ++ s) ++ after = sym (append_assoc front s after) in
    let e1 : drop p ((front ++ s) ++ after) ≡ drop i after =
      drop-append_add p i (front ++ s) after (omega (arith, length-append front s)) in
    let e2 : drop p (take (base + length s) bytes ++ after) ≡ drop i after =
      drop-append_add p i (take (base + length s) bytes) after (omega arith) in
    let whole : take (base + length s) bytes ++ after ≡ bytes =
      take-append-drop (base + length s) bytes in
    ap (λ b. take n (drop p b)) same ∙ ap (take n) (e1 ∙ sym e2) ∙ ap (λ b. take n (drop p b)) whole

module _ (native_endian : EndianType) (value : IntType) where
  -- What an assignment that is in range leaves.
  assigned :
      (it : Iterator) (val : ℕ) (bytes : List ℕ) {bytes' : List ℕ}
      → assign native_endian value it val bytes ≡ some bytes'
      → let s = Sample.write native_endian it.format value val in
        (it.base + length s ≤ length bytes)
        × (take it.base bytes ++ (s ++ drop (it.base + length s) bytes) ≡ bytes')
  unfolding assign bytes_of
  assigned it val bytes {bytes'} h =
      let s = Sample.write native_endian it.format value val in
      elim (Bool-cases (ltb (length bytes) (it.base + length s))) [
        | inl out ↦ absurd (cc (rw (assign, out) at h))
        | inr inside ↦ (ground (arith, inside), ap bytes_of (rw (assign, inside) at h))
      ]

  -- After an assignment through an iterator that is in range, the iterator gives the value that was
  -- assigned, on a platform of either byte order, if the value's type has no more bits than the
  -- format and the value is one of its type.
  pub dereference-assign :
      (it : Iterator) (val : ℕ) (bytes : List ℕ) {bytes' : List ℕ}
      → width value ≤ bits it.format.bitwidth
      → IsValue value val
      → assign native_endian value it val bytes ≡ some bytes'
      → dereference native_endian value it bytes' ≡ some val
  unfolding dereference
  dereference-assign it val bytes {bytes'} w v h =
      let s = Sample.write native_endian it.format value val in
      let a = assigned it val bytes h in
      let l : it.base ≡ length (take it.base bytes) =
        sym (length-take it.base bytes ∙ omega (arith, a.0)) in
      let e : drop it.base bytes' ≡ s ++ drop (it.base + length s) bytes =
        ap (drop it.base) (sym (a.1))
        ∙ drop-append it.base (take it.base bytes) (s ++ drop (it.base + length s) bytes) l in
      rw e (read-write native_endian it.format value val (drop (it.base + length s) bytes) w v)

  -- An assignment through an iterator that is in range leaves what an iterator of any format gives
  -- elsewhere, if the bytes of the two samples do not overlap.
  pub dereference-assign_other :
      (it other : Iterator) (val : ℕ) (bytes : List ℕ) {bytes' : List ℕ}
      → other.base + step other ≤ it.base ⊎ it.base + step it ≤ other.base
      → assign native_endian value it val bytes ≡ some bytes'
      → dereference native_endian value other bytes' ≡ dereference native_endian value other bytes
  unfolding dereference
  dereference-assign_other it other val bytes {bytes'} apart h =
      let s = Sample.write native_endian it.format value val in
      let ls : length s ≡ step it = length-write native_endian it.format value val in
      let a = assigned it val bytes h in
      let n = step other in
      let p = other.base in
      let apart' : p + n ≤ it.base ⊎ it.base + length s ≤ p = rw ls apart in
      let part : take n (drop p bytes') ≡ take n (drop p bytes) =
        ap (λ b. take n (drop p b)) (sym (a.1)) ∙ outside_part bytes s it.base p n a.0 apart' in
      let sizes : length bytes' ≡ length bytes =
        ap (λ (b : List ℕ). length b) (sym (a.1))
        ∙ omega (
          arith,
          a.0,
          length-append (take it.base bytes) (s ++ drop (it.base + length s) bytes),
          length-append s (drop (it.base + length s) bytes),
          length-take it.base bytes,
          length-drop (it.base + length s) bytes,
        ) in
      let left : length (drop p bytes') ≡ length (drop p bytes) =
        omega (arith, length-drop p bytes', length-drop p bytes) in
      read-copy_n native_endian other.format value (drop p bytes') (drop p bytes)
        (rw (copy_n_lem n (drop p bytes'), copy_n_lem n (drop p bytes), left, part) refl)
