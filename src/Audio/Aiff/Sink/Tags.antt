-- ===== src/Audio/Aiff/Sink/Tags.antt =====
-- The kind of compression that is written for a format, against what it is read as.
use ni_media.Common.{ℕ, ◌≡◌, arith, some}
use ni_media.Pcm.Format.{
  EndianType, big_endian, signed_integer, unsigned_integer, floating_point, bits,
}
use ni_media.Pcm.Runtime.{RuntimeFormat}
use ni_media.Audio.Aiff.Header.{compression_format}
use ni_media.Audio.Aiff.Sink.{format_to_tag}

-- The byte order that a file says: only whole numbers with a sign can be little-endian.
abbrev pub said_endian : RuntimeFormat → EndianType
said_endian f = elim f.number [
  | signed_integer ↦ f.endian
  | unsigned_integer ↦ big_endian
  | floating_point ↦ big_endian
]

-- For every format that the AIFF sink can write, the kind of compression that it writes is read as
-- a format with the same number type and width, in the same byte order for integers with a sign,
-- and as big-endian for the others, whatever their byte order was.
pub compression_format-format_to_tag :
    (f : RuntimeFormat) {tag : ℕ}
    → format_to_tag f ≡ some tag
    → compression_format tag (bits f.bitwidth) ≡ some (f.number, bits f.bitwidth, said_endian f)
unfolding compression_format format_to_tag
compression_format-format_to_tag f h = ground arith
