-- ===== src/Iostreams/Fetch.antt =====
-- The transfer of whole objects through a device (fetch.h, write_obj.h).
use ni_media.Common.{
  ℕ, Bool, true, false, Option, none, some, List, [], ◌∷◌, length, ◌==◌, if◌then◌else◌,
}
use ni_media.Boost.{Algorithms}
use ni_media.Iostreams.Device.{Read, got, eof, Write, wrote, failed, Source, Sink}

-- The bytes of the objects that were read.
abbrev pub bytes_of : Read → List ℕ
bytes_of (got bs) = bs
bytes_of eof = []
bytes_of Read.fault = []

-- `sizeof( Args ) == src.read( … )`
abbrev pub is_complete : ℕ → Read → Bool
is_complete n (got bs) = n == length bs
is_complete n eof = false
is_complete n Read.fault = false

module _ {S : Type 0} (src : Source S) where
  -- One read for each object, also where an earlier one came short.
  unfoldable pub read_each : List ℕ → S → List Bool × List (List ℕ) × S
  read_each [] s = ([], [], s)
  read_each (n ∷ ns) s =
      let (r, s') = src.read n s in
      let (flags, values, s'') = read_each ns s' in
      (is_complete n r ∷ flags, bytes_of r ∷ values, s'')

  -- `fetch` on objects of the given sizes: their bytes, if all were read whole.
  unfoldable pub fetch : ⦃boost : Algorithms⦄ → List ℕ → S → Option (List (List ℕ)) × S
  fetch ⦃boost⦄ sizes s =
      let (flags, values, s') = read_each sizes s in
      (if boost.all_of_equal flags true then some values else none, s')

-- `sizeof( Args ) == sink.write( … )`
abbrev pub is_written : ℕ → Write → Bool
is_written n (wrote m) = n == m
is_written n failed = false
is_written n Write.fault = false

-- `write_obj` on one object, given by its bytes.
unfoldable pub write_obj : ⦃boost : Algorithms⦄ {S : Type 0} → Sink S → List ℕ → S → Bool × S
write_obj ⦃boost⦄ sink bs s =
    let (r, s') = sink.write bs s in (boost.all_of_equal (is_written (length bs) r ∷ []) true, s')
