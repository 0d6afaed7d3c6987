-- ===== src/Iostreams/Container.antt =====
-- A device over a container of bytes (device/container.h).
pub mod Laws
use ni_media.Common.{
  ℕ, ◌+◌, ◌-◌, ◌≤◌, Bool, List, ◌++◌, length, take, drop, min, ltb, leb, ◌==◌, if◌then◌else◌,
}
use ni_media.Common.Int.{ℤ, pos, pos_part}
use ni_media.Boost.{Algorithms}
use ni_media.Iostreams.Positioning.{SeekDir, absolute_position}
use ni_media.Iostreams.Device.{Read, got, eof, Write, wrote, Source, Sink}

-- `m_container` and `m_pos`.
pub record Container : Type 0 where
  pub bytes : List ℕ
  pub position : ℕ

-- The position lies in the container or at its end.
pub record IsValid (d : Container) : Type 0 where
  pub inside : d.position ≤ length d.bytes

-- Reading nothing answers -1, also where nothing was asked for. Behind the end the difference
-- `m_container.size() - m_pos` wraps, and the copy is out of range.
unfoldable pub read : ℕ → Container → Read × Container
read n d =
    let amount = length d.bytes - d.position in
    let result = min n amount in
    if ltb (length d.bytes) d.position
    then (Read.fault, d)
    else if result == 0
    then (eof, d)
    else (got (take result (drop d.position d.bytes)), record d { position = d.position + result })

-- `std::copy` of `s` over the bytes from `at`.
abbrev pub overwrite : List ℕ → ℕ → List ℕ → List ℕ
overwrite bs at s = take at bs ++ (s ++ drop (at + length s) bs)

-- The first part of `write`: what fits before the end is overwritten. With the number of bytes.
pub write_inside : List ℕ → Container → ℕ × Container
write_inside s d =
    let result = min (length s) (length d.bytes - d.position) in
    if d.position == length d.bytes then (0, d) else (
      result,
      record {
        bytes = overwrite d.bytes d.position (take result s);
        position = d.position + result;
      },
    )

-- If that was not all, the whole of `s` is inserted at the end. Behind the end the copy is out of
-- range, as in `read`.
unfoldable pub write : List ℕ → Container → Write × Container
unfolding write_inside
write s d =
    let (result, d') = write_inside s d in
    let appended = d'.bytes ++ s in
    if ltb (length d.bytes) d.position
    then (Write.fault, d)
    else if ltb result (length s)
    then (wrote (length s), record { bytes = appended; position = length appended })
    else (wrote (length s), d')

module _ ⦃boost : Algorithms⦄ where
  unfoldable pub seek : ℤ → SeekDir → Container → ℤ × Container
  seek off way d =
      let p = absolute_position (pos d.position) (pos 0) (pos (length d.bytes)) off way in
      (pos (pos_part p), record d { position = pos_part p })

  -- `container_source` and `container_sink`.
  abbrev pub container_source : Source Container
  container_source = record { read = read; seek = seek }

  abbrev pub container_sink : Sink Container
  container_sink = record { write = write; seek = seek }
