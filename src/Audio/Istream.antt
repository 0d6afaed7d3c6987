-- ===== src/Audio/Istream.antt =====
-- Positions in samples and frames of an input stream (istream.cpp) over `std::istream`, which is a parameter.
-- A position times or divided by a `size_t` is a `size_t`, and is a `std::streamoff` again behind it.
pub mod Laws
use ni_media.Common.{ℕ, ◌-◌, ◌*◌, ◌/◌, ◌%◌, ◌^◌, ltb, if◌then◌else◌}
use ni_media.Common.Int.{ℤ, pos, negsuc}
use ni_media.Iostreams.Positioning.{SeekDir}
use ni_media.Audio.Info.{StreamInfo, size_t, bytes_per_sample, bytes_per_frame}

-- The members of `std::istream` that are called. `tellg` gives -1 where the stream has failed.
pub record StdIstream (S : Type 0) : Type 0 where
  pub seekg : ℤ → S → S
  pub seekg_off : ℤ → SeekDir → S → S
  pub tellg : S → ℤ × S
  pub gcount : S → ℤ

-- Between `std::streamoff` and `size_t`, both of 64 bits.
abbrev pub to_size_t : ℤ → ℕ
to_size_t (pos n) = n % 2 ^ 64
to_size_t (negsuc n) = 2 ^ 64 - 1 - n % 2 ^ 64

abbrev pub to_streamoff : ℕ → ℤ
to_streamoff n = if ltb n (2 ^ 63) then pos n else negsuc (2 ^ 64 - 1 - n)

abbrev pub times : ℤ → ℕ → ℤ
times off n = to_streamoff (size_t (to_size_t off * n))

abbrev pub divided : ℤ → ℕ → ℤ
divided off n = to_streamoff (to_size_t off / n)

module _ {S : Type 0} (std : StdIstream S) (info : StreamInfo) where
  unfoldable pub sample_seekg : ℤ → S → S
  sample_seekg p s = std.seekg (times p (bytes_per_sample info)) s

  unfoldable pub frame_seekg : ℤ → S → S
  frame_seekg p s = std.seekg (times p (bytes_per_frame info)) s

  unfoldable pub sample_seekg_off : ℤ → SeekDir → S → S
  sample_seekg_off off dir s = std.seekg_off (times off (bytes_per_sample info)) dir s

  unfoldable pub frame_seekg_off : ℤ → SeekDir → S → S
  frame_seekg_off off dir s = std.seekg_off (times off (bytes_per_frame info)) dir s

  unfoldable pub sample_gcount : S → ℤ
  sample_gcount s = divided (std.gcount s) (bytes_per_sample info)

  unfoldable pub frame_gcount : S → ℤ
  frame_gcount s = divided (std.gcount s) (bytes_per_frame info)

  unfoldable pub sample_tellg : S → ℤ × S
  sample_tellg s = let (p, s') = std.tellg s in (divided p (bytes_per_sample info), s')

  unfoldable pub frame_tellg : S → ℤ × S
  frame_tellg s = let (p, s') = std.tellg s in (divided p (bytes_per_frame info), s')
