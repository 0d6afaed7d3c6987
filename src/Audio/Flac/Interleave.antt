-- ===== src/Audio/Flac/Interleave.antt =====
-- How a decoded block becomes bytes: the loops of `writeCallbackImpl` (flac_source.h). An access out of range,
-- of the decoder's samples or of the buffer, is `none`, and so is a shift that is undefined.
pub mod Laws
use ni_media.Common.{
  ℕ, zero, suc, ◌+◌, ◌-◌, ◌*◌, ◌/◌, ◌%◌, ◌^◌, Option, none, some, List, [], ◌∷◌, ◌++◌, length, take,
  replicate, get_elem?, ltb, ◌==◌, if◌then◌else◌,
}
use ni_media.Common.Int.{ℤ, pos, negsuc}
use ni_media.Audio.Info.{size_t}
use ni_media.Audio.Flac.Decoder.{Frame}

abbrev pub and_then : {A B : Type 0} → Option A → (A → Option B) → Option B
and_then none f = none
and_then (some a) f = f a

abbrev pub shifted_byte : ℤ → ℕ → ℕ
shifted_byte (pos n) b = n / 2 ^ (8 * b) % 256
shifted_byte (negsuc n) b = 255 - n / 2 ^ (8 * b) % 256

-- `( sample >> ( 8 * b ) ) & 0xFF`, for a sample of 32 bits; the shift keeps the sign, and one by 32 bits or more
-- is undefined.
abbrev pub byte_at : ℤ → ℕ → Option ℕ
byte_at sample b = if ltb b 4 then some (shifted_byte sample b) else none

-- An assignment to an element of the buffer.
abbrev pub put : ℕ → ℕ → List ℕ → Option (List ℕ)
put i c [] = none
put zero c (x ∷ xs) = some (c ∷ xs)
put (suc i) c (x ∷ xs) = and_then (put i c xs) (λ xs'. some (x ∷ xs'))

abbrev pub sample_at : Frame → ℕ → ℕ → Option ℤ
sample_at f channel u = and_then (get_elem? f.buffer channel) (λ samples. get_elem? samples u)

-- The innermost loop, with `n` turns to go.
unfoldable pub write_bytes : ℤ → ℕ → ℕ → ℕ → List ℕ → Option (List ℕ)
write_bytes sample sample_index zero b buffer = some buffer
write_bytes sample sample_index (suc n) b buffer =
    and_then (byte_at sample b)
      λ c. and_then (put (sample_index + b) c buffer) (write_bytes sample sample_index n (b + 1))

module _ (frame : Frame) (sample_bytes channels : ℕ) where
  -- The loop over the channels.
  unfoldable pub write_channels : ℕ → ℕ → ℕ → List ℕ → Option (List ℕ)
  write_channels u zero channel buffer = some buffer
  write_channels u (suc n) channel buffer = and_then (sample_at frame channel u) λ sample.
      and_then (write_bytes sample (sample_bytes * (u * channels + channel)) sample_bytes 0 buffer)
        (write_channels u n (channel + 1))

  -- The loop over the samples of the block.
  unfoldable pub write_samples : ℕ → ℕ → List ℕ → Option (List ℕ)
  write_samples zero u buffer = some buffer
  write_samples (suc n) u buffer =
      and_then (write_channels u channels 0 buffer) (write_samples n (u + 1))

-- `std::vector::resize`
abbrev pub resize : ℕ → List ℕ → List ℕ
resize n buffer = take n buffer ++ replicate (n - length buffer) 0

unfoldable pub interleave : Frame → ℕ → ℕ → List ℕ → Option (List ℕ)
interleave frame sample_bytes channels buffer =
    let total_bytes = size_t (frame.blocksize * sample_bytes * channels) in
    write_samples frame sample_bytes channels frame.blocksize 0
      (if length buffer == total_bytes then buffer else resize total_bytes buffer)
