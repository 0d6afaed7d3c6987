-- ===== src/Audio/Istream/Laws.antt =====
-- What the positions in frames are, where the stream has a position and where it has failed.
use ni_media.Common.{ℕ, ◌-◌, ◌*◌, ◌/◌, ◌%◌, ◌^◌, ◌≤◌, ◌<◌, ◌≡◌, refl, ap, ◌∙◌, arith, true, ltb}
use ni_media.Common.Int.{pos, negsuc}
use ni_media.Audio.Info.{StreamInfo, bytes_per_sample, bytes_per_frame}
use ni_media.Audio.Istream.{StdIstream, times, divided, frame_seekg, frame_tellg, sample_tellg}
use native.Mathlib.Nat.{mul-div_cancel, div-lt_iff_lt-mul}

half : (m n : ℕ) → 2 ≤ n → m < 2 ^ 64 → m / n < 2 ^ 63
half m n h h' = (div-lt_iff_lt-mul {k = n} {x = m} {y = 2 ^ 63} (omega arith)).1 (omega arith)

-- A position of -1 is the largest `size_t`.
divided_failed : (b : ℕ) → 2 ≤ b → divided (negsuc 0) b ≡ pos ((2 ^ 64 - 1) / b)
divided_failed b h =
    let fits : ltb ((2 ^ 64 - 1) / b) (2 ^ 63) ≡ true =
      ground (arith, half (2 ^ 64 - 1) b h (omega arith)) in
    rw fits refl

-- Where the stream below tells the position -1, as it does when it has failed, the position in
-- frames and the one in samples are not -1 but the largest size_t divided by the bytes of a frame
-- or of a sample, which are two or more each.
pub frame_tellg_failed :
    {S : Type 0} (std : StdIstream S) (info : StreamInfo) (s s' : S)
    → std.tellg s ≡ (negsuc 0, s')
    → 2 ≤ bytes_per_sample info
    → 2 ≤ bytes_per_frame info
    → (frame_tellg std info s ≡ (pos ((2 ^ 64 - 1) / bytes_per_frame info), s'))
      × (sample_tellg std info s ≡ (pos ((2 ^ 64 - 1) / bytes_per_sample info), s'))
unfolding frame_tellg sample_tellg
frame_tellg_failed std info s s' e h h' = (
  rw (e, divided_failed (bytes_per_frame info) h') refl,
  rw (e, divided_failed (bytes_per_sample info) h) refl,
)

-- The position in frames that was sought is the one that is told, if the stream keeps the position in bytes.
pub frame_tellg-frame_seekg :
    {S : Type 0} (std : StdIstream S) (info : StreamInfo) (n : ℕ) (s : S)
    → 2 ≤ bytes_per_frame info
    → n * bytes_per_frame info < 2 ^ 63
    → n < 2 ^ 63
    → ((p : ℕ) → p < 2 ^ 63 → (std.tellg (std.seekg (pos p) s)).0 ≡ pos p)
    → (frame_tellg std info (frame_seekg std info (pos n) s)).0 ≡ pos n
unfolding frame_tellg frame_seekg
frame_tellg-frame_seekg std info n s h low fits keeps =
    let b = bytes_per_frame info in
    let e1 : n % 2 ^ 64 ≡ n = omega arith in
    let e2 : n * b % 2 ^ 64 ≡ n * b = omega arith in
    let e3 : ltb (n * b) (2 ^ 63) ≡ true = ground arith in
    let e4 : n * b / b ≡ n = mul-div_cancel n (omega arith) in
    let e5 : ltb n (2 ^ 63) ≡ true = ground arith in
    let there : times (pos n) b ≡ pos (n * b) = rw (e1, e2, e3) refl in
    let back : divided (pos (n * b)) b ≡ pos n = rw (e2, e4, e5) refl in
    ap (λ q. divided (std.tellg (std.seekg q s)).0 b) there
    ∙ ap (λ q. divided q b) (keeps (n * b) low)
    ∙ back
