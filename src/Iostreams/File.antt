-- ===== src/Iostreams/File.antt =====
-- What the parsers rely on: a source that holds a file's bytes and a position in them. A window on the
-- whole of a container is one, and one whose seeks stop at the end of the file. A window on a file descriptor
-- is one by the documentation of Boost, but its seeks go behind the end.
pub mod Laws
use ni_media.Common.{
  ℕ, ◌+◌, ◌-◌, ◌≤◌, ◌<◌, ◌^◌, ◌≡◌, List, length, take, drop, min, ◌==◌, if◌then◌else◌,
}
use ni_media.Common.Int.{ℤ, pos}
use ni_media.Iostreams.Positioning.{beg, cur}
use ni_media.Iostreams.Device.{Read, got, eof, Source}

-- The length of a file is a `std::streamsize`.
abbrev pub IsFileSize : List ℕ → Type 0
IsFileSize bytes = length bytes < 2 ^ 63

-- What a read of `n` bytes at `p` gives: as many as there are, and -1 for none.
abbrev pub portion : ℕ → List ℕ → ℕ → Read
portion n bytes p =
    if min n (length bytes - p) == 0
    then eof
    else got (take (min n (length bytes - p)) (drop p bytes))

-- `at bytes p` is the source on the file `bytes` at the position `p`; positions lie in
-- the file or at its end, and nothing is said of a seek behind it.
pub record IsFile {S : Type 0} (src : Source S) (at : List ℕ → ℕ → S) : Type 0 where
  pub read_at :
      (bytes : List ℕ) (p n : ℕ)
      → IsFileSize bytes
      → p ≤ length bytes
      → src.read n (at bytes p) ≡ (portion n bytes p, at bytes (p + min n (length bytes - p)))
  pub tell_at :
      (bytes : List ℕ) (p : ℕ)
      → IsFileSize bytes
      → p ≤ length bytes
      → src.seek (pos 0) cur (at bytes p) ≡ (pos p, at bytes p)
  pub seek_at :
      (bytes : List ℕ) (p q : ℕ)
      → IsFileSize bytes
      → p ≤ length bytes
      → q ≤ length bytes
      → src.seek (pos q) beg (at bytes p) ≡ (pos q, at bytes q)
  pub step_at :
      (bytes : List ℕ) (p n : ℕ)
      → IsFileSize bytes
      → p + n ≤ length bytes
      → src.seek (pos n) cur (at bytes p) ≡ (pos (p + n), at bytes (p + n))

-- A file whose source goes no further than its end, as a container does and a file descriptor does not.
pub record StopsAtEnd {S : Type 0} (src : Source S) (at : List ℕ → ℕ → S) : Type 0 where
  pub read_at :
      (bytes : List ℕ) (p n : ℕ)
      → IsFileSize bytes
      → p ≤ length bytes
      → src.read n (at bytes p) ≡ (portion n bytes p, at bytes (p + min n (length bytes - p)))
  pub tell_at :
      (bytes : List ℕ) (p : ℕ)
      → IsFileSize bytes
      → p ≤ length bytes
      → src.seek (pos 0) cur (at bytes p) ≡ (pos p, at bytes p)
  pub seek_at :
      (bytes : List ℕ) (p q : ℕ)
      → IsFileSize bytes
      → p ≤ length bytes
      → q < 2 ^ 63
      → src.seek (pos q) beg (at bytes p)
        ≡ (pos (min q (length bytes)), at bytes (min q (length bytes)))
  pub step_at :
      (bytes : List ℕ) (p n : ℕ)
      → IsFileSize bytes
      → p ≤ length bytes
      → p + n < 2 ^ 63
      → src.seek (pos n) cur (at bytes p)
        ≡ (pos (min (p + n) (length bytes)), at bytes (min (p + n) (length bytes)))
