-- ===== src/Tests/Iostreams.antt =====
-- Containers, windows on them, and positions.
use ni_media.Common.{◌≡◌, arith, [], ◌∷◌, inr}
use ni_media.Common.Int.{pos, negsuc, ◌+ℤ◌}
use ni_media.Boost.{algorithms}
use ni_media.Iostreams.Positioning.{beg, end, IsStreamoff, target, absolute_position}
use ni_media.Iostreams.Device.{got, wrote}
use ni_media.Iostreams.Container
use ni_media.Iostreams.Container.{Container, IsValid, overwrite, container_source}
use ni_media.Iostreams.Container.Laws.{write_across, read-write_back}
use ni_media.Iostreams.Subview
use ni_media.Iostreams.Subview.{subview_source}
use ni_media.Iostreams.Subview.Laws.{window, seek-window, read-window}

abbrev five : Container
five = record { bytes = 10 ∷ 11 ∷ 12 ∷ 13 ∷ 14 ∷ []; position = 3 }

five-IsValid : IsValid five
five-IsValid = record { inside = omega arith }

write_across_example :
    Container.write (1 ∷ 2 ∷ 3 ∷ []) five
    ≡ (wrote 3, record { bytes = 10 ∷ 11 ∷ 12 ∷ 1 ∷ 2 ∷ 1 ∷ 2 ∷ 3 ∷ []; position = 8 })
write_across_example = write_across (1 ∷ 2 ∷ 3 ∷ []) five (omega arith) (omega arith)

read-write_back_example :
    Container.read 2 (Container.seek (pos 3) beg ((Container.write (1 ∷ 2 ∷ []) five).1)).1
    ≡ (got (1 ∷ 2 ∷ []), (Container.write (1 ∷ 2 ∷ []) five).1)
read-write_back_example =
    read-write_back (1 ∷ 2 ∷ []) five five-IsValid (omega arith) (inr (omega arith))

seek-window_example :
    IsStreamoff (target (pos 3) (pos 0) (pos 5) (negsuc 0) end)
    × (Subview.seek Container.seek (negsuc 0) end (window (7 ∷ []) (8 ∷ []) five)
        ≡ (pos 4, window (7 ∷ []) (8 ∷ []) (record five { position = 4 })))
unfolding Container.seek absolute_position ◌+ℤ◌
seek-window_example =
    seek-window (7 ∷ []) (8 ∷ []) (negsuc 0) end five five-IsValid (omega arith, omega arith)
      (omega arith, omega arith)

read-window_example :
    Subview.read container_source 9 (window (7 ∷ []) (8 ∷ []) five)
    ≡ (got (13 ∷ 14 ∷ []), window (7 ∷ []) (8 ∷ []) (record five { position = 5 }))
unfolding Container.read
read-window_example = read-window (7 ∷ []) (8 ∷ []) 9 five five-IsValid
