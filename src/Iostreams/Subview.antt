-- ===== src/Iostreams/Subview.antt =====
-- A window on a device (device/subview.h), and the transfer of whole objects through a device
-- (fetch.h, write_obj.h).
pub mod Laws
use ni_media.Common.{
  ℕ, ◌-◌, ◌^◌, Bool, true, false, Option, none, some, List, [], ◌∷◌, length, take, min, ◌||◌, ◌==◌,
  if◌then◌else◌,
}
use ni_media.Common.Int.{ℤ, pos, negsuc, ◌-ℤ◌, ltb_ℤ, pos_part}
use ni_media.Boost.{Algorithms}
use ni_media.Iostreams.Positioning.{SeekDir, beg, cur, absolute_position}
use ni_media.Iostreams.Device.{Read, got, eof, Write, wrote, failed, Source, Sink}

-- The largest `std::streamsize`.
abbrev pub max_pos : ℤ
max_pos = pos (2 ^ 63 - 1)

-- The device with `m_beg` and `m_end`.
pub record Subview (S : Type 0) : Type 0 where
  pub device : S
  pub first : ℤ
  pub last : ℤ

-- A new window is the whole device.
abbrev pub whole : {S : Type 0} → S → Subview S
whole d = record { device = d; first = pos 0; last = max_pos }

unfoldable pub set_view : {S : Type 0} → ℤ → ℤ → Subview S → Subview S
set_view first last v = record v { first = first; last = last }

abbrev pub size : {S : Type 0} → Subview S → ℤ
size v = v.last -ℤ v.first

module _ ⦃boost : Algorithms⦄ {S : Type 0} (base_seek : ℤ → SeekDir → S → ℤ × S) where
  -- Positions are counted from the start of the window.
  unfoldable pub seek : ℤ → SeekDir → Subview S → ℤ × Subview S
  seek off way v =
      let (old_pos, d) = base_seek (pos 0) cur v.device in
      let new_pos = absolute_position old_pos v.first v.last off way in
      let (p, d') = base_seek new_pos beg d in (p -ℤ v.first, record v { device = d' })

  unfoldable pub tell : Subview S → ℤ × Subview S
  tell v = seek (pos 0) cur v

abbrev is_minus_one : ℤ → Bool
is_minus_one (negsuc n) = n == 0
is_minus_one (pos n) = false

-- The test by which a transfer is refused.
abbrev outside : {S : Type 0} → ℤ → Subview S → Bool
outside p v = is_minus_one p || ltb_ℤ (size v) p

-- What is left of the window bounds the transfer.
abbrev room : {S : Type 0} → ℕ → ℤ → Subview S → ℕ
room n p v = min n (pos_part (size v -ℤ p))

module _ ⦃boost : Algorithms⦄ {S : Type 0} (src : Source S) where
  -- `subview_source::read`
  unfoldable pub read : ℕ → Subview S → Read × Subview S
  read n v =
      let (p, v') = tell src.seek v in
      let (r, d) = src.read (room n p v') v'.device in
      if outside p v' then (eof, v') else (r, record v' { device = d })

  abbrev pub subview_source : Source (Subview S)
  subview_source = record { read = read; seek = seek src.seek }

module _ ⦃boost : Algorithms⦄ {S : Type 0} (sink : Sink S) where
  -- `subview_sink::write`
  unfoldable pub write : List ℕ → Subview S → Write × Subview S
  write s v =
      let (p, v') = tell sink.seek v in
      let (r, d) = sink.write (take (room (length s) p v') s) v'.device in
      if outside p v' then (failed, v') else (r, record v' { device = d })

  abbrev pub subview_sink : Sink (Subview S)
  subview_sink = record { write = write; seek = seek sink.seek }
