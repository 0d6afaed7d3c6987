-- ===== src/Audio/Flac/Interleave/Laws.antt =====
-- The bytes that a decoded block becomes.
use ni_media.Common.{
  ℕ, zero, suc, ◌+◌, ◌-◌, ◌*◌, ◌^◌, ◌≤◌, ◌<◌, ◌≡◌, refl, ap, ◌∙◌, sym, arith, ◌%◌, true, ltb,
  Option, some, List, [], ◌∷◌, ◌++◌, append_assoc, append-nil, length, take, drop, replicate,
  length-append, length-drop, drop-drop, length-take, length-replicate, drop_all, ◌==◌,
  if◌then◌else◌,
}
use ni_media.Common.Int.{ℤ, pos, negsuc}
use ni_media.Common.Bytes.{le_bytes, length-le_bytes}
use ni_media.Audio.Info.{size_t}
use ni_media.Audio.Flac.Decoder.{Frame}
use ni_media.Audio.Flac.Interleave.{
  and_then, shifted_byte, put, sample_at, write_bytes, write_channels, write_samples, resize,
  interleave,
}

-- A sample modulo 256^n: its two's complement in `n` bytes.
abbrev pub complement : ℕ → ℤ → ℕ
complement n (pos m) = m % 256 ^ n
complement n (negsuc m) = 256 ^ n - 1 - m % 256 ^ n

-- The bytes of that number, least significant byte first.
abbrev pub bytes_of_sample : ℕ → ℤ → List ℕ
bytes_of_sample n v = le_bytes n (complement n v)

-- The bytes that the shifts give, from the byte `b` on.
abbrev bytes_from : ℤ → ℕ → ℕ → List ℕ
bytes_from v b zero = []
bytes_from v b (suc n) = shifted_byte v b ∷ bytes_from v (b + 1) n

bytes_from_lem : (n : ℕ) (v : ℤ) → n ≤ 4 → bytes_from v 0 n ≡ bytes_of_sample n v
unfolding le_bytes
bytes_from_lem zero v h = refl
bytes_from_lem (suc zero) (pos m) h = ground arith
bytes_from_lem (suc zero) (negsuc m) h = ground arith
bytes_from_lem (suc (suc zero)) (pos m) h = ground arith
bytes_from_lem (suc (suc zero)) (negsuc m) h = ground arith
bytes_from_lem (suc (suc (suc zero))) (pos m) h = ground arith
bytes_from_lem (suc (suc (suc zero))) (negsuc m) h = ground arith
bytes_from_lem (suc (suc (suc (suc zero)))) (pos m) h = ground arith
bytes_from_lem (suc (suc (suc (suc zero)))) (negsuc m) h = ground arith
bytes_from_lem (suc (suc (suc (suc (suc n))))) v h = absurd (omega arith)

-- One sample of each channel, and a block of them.
abbrev pub bytes_of_row : ℕ → List ℤ → List ℕ
bytes_of_row n [] = []
bytes_of_row n (v ∷ vs) = bytes_of_sample n v ++ bytes_of_row n vs

abbrev pub bytes_of_rows : ℕ → List (List ℤ) → List ℕ
bytes_of_rows n [] = []
bytes_of_rows n (row ∷ rows) = bytes_of_row n row ++ bytes_of_rows n rows

-- The samples at the index `u` of the channels from some channel on.
abbrev pub IsRow : Frame → ℕ → ℕ → List ℤ → Type 0
IsRow f u channel [] = Unit
IsRow f u channel (v ∷ vs) = (sample_at f channel u ≡ some v) × IsRow f u (channel + 1) vs

abbrev pub AreRows : Frame → ℕ → ℕ → List (List ℤ) → Type 0
AreRows f channels u [] = Unit
AreRows f channels u (row ∷ rows) =
    (length row ≡ channels) × IsRow f u 0 row × AreRows f channels (u + 1) rows

-- The decoder's samples for each channel are those of the rows.
pub record IsFrame (channels : ℕ) (f : Frame) (rows : List (List ℤ)) : Type 0 where
  pub size : f.blocksize ≡ length rows
  pub samples : AreRows f channels 0 rows

-- A step that puts bytes into a buffer from an index on.
abbrev Fills : ℕ → (List ℕ → Option (List ℕ)) → List ℕ → Type 0
Fills k w bs =
    (before rest : List ℕ)
    → k ≡ length before
    → length bs ≤ length rest
    → w (before ++ rest) ≡ some (before ++ (bs ++ drop (length bs) rest))

Fills-then :
    (k k' : ℕ) (w w' : List ℕ → Option (List ℕ)) (bs bs' : List ℕ)
    → k' ≡ k + length bs
    → Fills k w bs
    → Fills k' w' bs'
    → Fills k (λ x. and_then (w x) w') (bs ++ bs')
Fills-then k k' w w' bs bs' e first second before rest at fits =
    let sizes = length-append bs bs' in
    let left = length-drop (length bs) rest in
    let here : k' ≡ length (before ++ bs) = omega (arith, length-append before bs) in
    let one : w (before ++ rest) ≡ some ((before ++ bs) ++ drop (length bs) rest) =
      first before rest at (omega arith)
      ∙ ap some (sym (append_assoc before bs (drop (length bs) rest))) in
    let two = second (before ++ bs) (drop (length bs) rest) here (omega arith) in
    rw (one, two)
      (ap some (
        append_assoc before bs (bs' ++ drop (length bs') (drop (length bs) rest))
        ∙ rw
            (
              drop-drop (length bs) (length bs') rest,
              sizes,
              append_assoc bs bs' (drop (length bs + length bs') rest),
            )
            refl))

Fills-none : (k : ℕ) → Fills k some []
Fills-none k before rest at fits = refl

Fills-put : (k c : ℕ) → Fills k (put k c) (c ∷ [])
Fills-put zero c [] [] at fits = absurd (omega arith)
Fills-put zero c [] (x ∷ rest) at fits = refl
Fills-put zero c (y ∷ before) rest at fits = absurd (omega arith)
Fills-put (suc k) c [] rest at fits = absurd (omega arith)
Fills-put (suc k) c (y ∷ before) rest at fits =
    rw (Fills-put k c before rest (omega arith) fits) refl

Fills-write_bytes :
    (v : ℤ) (index n b : ℕ)
    → b + n ≤ 4
    → Fills (index + b) (write_bytes v index n b) (bytes_from v b n)
unfolding write_bytes
Fills-write_bytes v index zero b h = Fills-none (index + b)
Fills-write_bytes v index (suc n) b h =
    let defined : ltb b 4 ≡ true = ground arith in
    rw defined (
      Fills-then (index + b) (index + (b + 1)) (put (index + b) (shifted_byte v b))
        (write_bytes v index n (b + 1)) (shifted_byte v b ∷ []) (bytes_from v (b + 1) n)
        (omega arith) (Fills-put (index + b) (shifted_byte v b))
        (Fills-write_bytes v index n (b + 1) (omega arith)))

pub length-bytes_of_row : (n : ℕ) (vs : List ℤ) → length (bytes_of_row n vs) ≡ n * length vs
length-bytes_of_row n [] = omega arith
length-bytes_of_row n (v ∷ vs) =
    let e1 = length-append (bytes_of_sample n v) (bytes_of_row n vs) in
    let e2 = length-le_bytes n (complement n v) in let e3 = length-bytes_of_row n vs in omega arith

module _ (f : Frame) (sample_bytes channels : ℕ) (small : sample_bytes ≤ 4) where
  Fills-write_channels :
      (u channel : ℕ) (vs : List ℤ)
      → IsRow f u channel vs
      → Fills
          (sample_bytes * (u * channels + channel))
          (write_channels f sample_bytes channels u (length vs) channel)
          (bytes_of_row sample_bytes vs)
  unfolding write_channels
  Fills-write_channels u channel [] h = Fills-none (sample_bytes * (u * channels + channel))
  Fills-write_channels u channel (v ∷ vs) h =
      let k = sample_bytes * (u * channels + channel) in
      let k' = sample_bytes * (u * channels + (channel + 1)) in
      let len = length-le_bytes sample_bytes (complement sample_bytes v) in
      let start : k + 0 ≡ k = omega arith in
      let one : Fills k (write_bytes v k sample_bytes 0) (bytes_of_sample sample_bytes v) =
        rw (start, bytes_from_lem sample_bytes v small) at
          (Fills-write_bytes v k sample_bytes 0 (omega arith)) in
      rw (h.0) (
        Fills-then k k' (write_bytes v k sample_bytes 0)
          (write_channels f sample_bytes channels u (length vs) (channel + 1))
          (bytes_of_sample sample_bytes v) (bytes_of_row sample_bytes vs) (rw len (omega arith)) one
          (Fills-write_channels u (channel + 1) vs h.1))

  Fills-write_samples :
      (u : ℕ) (rows : List (List ℤ))
      → AreRows f channels u rows
      → Fills
          (sample_bytes * (u * channels))
          (write_samples f sample_bytes channels (length rows) u)
          (bytes_of_rows sample_bytes rows)
  unfolding write_samples
  Fills-write_samples u [] h = Fills-none (sample_bytes * (u * channels))
  Fills-write_samples u (row ∷ rows) h =
      let k = sample_bytes * (u * channels) in
      let len = length-bytes_of_row sample_bytes row in
      let start : sample_bytes * (u * channels + 0) ≡ k = omega arith in
      let one : Fills k (write_channels f sample_bytes channels u channels 0)
          (bytes_of_row sample_bytes row) =
        rw (start, h.0) at (Fills-write_channels u 0 row h.1) in
      Fills-then k (sample_bytes * ((u + 1) * channels))
        (write_channels f sample_bytes channels u channels 0)
        (write_samples f sample_bytes channels (length rows) (u + 1))
        (bytes_of_row sample_bytes row) (bytes_of_rows sample_bytes rows)
        (rw (len, h.0) (omega arith)) one (Fills-write_samples (u + 1) rows h.2)

pub length-bytes_of_rows :
    (f : Frame) (n channels u : ℕ) (rows : List (List ℤ))
    → AreRows f channels u rows
    → length (bytes_of_rows n rows) ≡ length rows * n * channels
length-bytes_of_rows f n channels u [] h = omega arith
length-bytes_of_rows f n channels u (row ∷ rows) h =
    let e1 = length-append (bytes_of_row n row) (bytes_of_rows n rows) in
    let e2 = length-bytes_of_row n row in
    let e3 = length-bytes_of_rows f n channels (u + 1) rows h.2 in
    let e4 : n * length row ≡ n * channels = ap (λ (t : ℕ). n * t) h.0 in omega arith

length-resize : (n : ℕ) (xs : List ℕ) → length (resize n xs) ≡ n
length-resize n xs = omega (
  arith,
  length-append (take n xs) (replicate (n - length xs) 0),
  length-take n xs,
  length-replicate (n - length xs) zero,
)

-- The loops over a decoded block turn any buffer into the bytes of its samples, one sample of each
-- channel after the other, each as its two's complement in as many bytes as a sample has, least
-- significant byte first; a sample has at most four bytes, the block holds those samples, and its
-- bytes fit a size_t.
pub interleave_lem :
    (f : Frame) (sample_bytes channels : ℕ) (rows : List (List ℤ)) (buffer : List ℕ)
    → sample_bytes ≤ 4
    → IsFrame channels f rows
    → length rows * sample_bytes * channels < 2 ^ 64
    → interleave f sample_bytes channels buffer ≡ some (bytes_of_rows sample_bytes rows)
unfolding interleave
interleave_lem f n channels rows buffer small frame fits =
    let total = f.blocksize * n * channels in
    let same : total ≡ length rows * n * channels = ap (λ (t : ℕ). t * n * channels) frame.size in
    let no_wrap : size_t total ≡ total = omega arith in
    let sized = if length buffer == total then buffer else resize total buffer in
    let len : length sized ≡ total = ground (arith, length-resize total buffer) in
    let size = length-bytes_of_rows f n channels 0 rows frame.samples in
    let start : 0 ≡ n * (0 * channels) = omega arith in
    let all =
      Fills-write_samples f n channels small 0 rows frame.samples [] sized (omega arith)
        (omega arith) in
    let all' : write_samples f n channels f.blocksize 0 sized
        ≡ some (bytes_of_rows n rows ++ drop (length (bytes_of_rows n rows)) sized) =
      ap (λ (k : ℕ). write_samples f n channels k 0 sized) frame.size ∙ all in
    let nothing : drop (length (bytes_of_rows n rows)) sized ≡ [] =
      drop_all _ sized (omega arith) in
    rw no_wrap (all' ∙ rw (nothing, append-nil (bytes_of_rows n rows)) refl)
