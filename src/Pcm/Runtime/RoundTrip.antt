-- ===== src/Pcm/Runtime/RoundTrip.antt =====
-- The string that a format prints names that format.
use ni_media.Common.{◌≡◌, arith, ◌∙◌, ap}
use ni_media.Boost.{FindIf}
use ni_media.Pcm.Format.{NumberType, BitwidthType, EndianType, bits}
use ni_media.Pcm.Runtime.{RuntimeFormat, ok, of_parts, of_bits}
use ni_media.Pcm.Runtime.Laws.{format, of_parts-format, of_bits_lem}
use ni_media.Pcm.Runtime.Text.{of_string, print}

module _ ⦃range : FindIf RuntimeFormat⦄ (native_endian : EndianType) where
  -- A printed format is read as a number type, a number of bits and a byte order.
  of_string-parts :
      (n : NumberType) (b : BitwidthType) (e : EndianType)
      → of_string native_endian (print (format n b e)) ≡ of_bits n (bits b) e
  unfolding of_string print
  of_string-parts n b e = ground arith

  -- The constructor from a string, given what a format that the constructor returned prints, gives
  -- that format, on a platform of either byte order.
  pub of_string-print :
      (n : NumberType) (b : BitwidthType) (e : EndianType) {f : RuntimeFormat}
      → of_parts n b e ≡ ok f
      → of_string native_endian (print f) ≡ ok f
  of_string-print n b e p =
      rw ((of_parts-format n b e p).1)
        (of_string-parts n b e ∙ (of_bits_lem n e).0 b ∙ p ∙ ap ok ((of_parts-format n b e p).1))
