-- ===== src/Tests/Pcm.antt =====
-- Formats and samples.
use ni_media.Common.{◌*◌, ◌/◌, ◌^◌, ◌≡◌, ◌↔◌, refl, arith, true, false, [], ◌∷◌, ◌++◌, some}
use ni_media.Common.Bytes.{le_value}
use ni_media.Boost.{find_if_first}
use ni_media.Pcm.Format.{big_endian, little_endian, signed_integer, floating_point, bit16, bit24}
use ni_media.Pcm.Runtime.{ok, throw, invalid_format, of_parts, format_eq}
use ni_media.Pcm.Runtime.Laws.{format, of_parts_lem, format_eq_iff}
use ni_media.Pcm.Runtime.Text.{of_string, print}
use ni_media.Pcm.Runtime.RoundTrip.{of_string-print}
use ni_media.Pcm.Convert.{IntType, size8, size16, size32, convert_to}
use ni_media.Pcm.Convert.Level.{level, convert_to-level, convert_to_back}
use ni_media.Pcm.Sample.{IntFormat, copy_n, read, write}
use ni_media.Pcm.Sample.RoundTrip.{read-write, write-read}

abbrev int8 : IntType
int8 = record { is_signed = true; size = size8 }

abbrev uint16 : IntType
uint16 = record { is_signed = false; size = size16 }

abbrev int32 : IntType
int32 = record { is_signed = true; size = size32 }

abbrev big24 : IntFormat
big24 = record { is_signed = true; bitwidth = bit24; endian = big_endian }

convert_to-level_example :
    level uint16 (convert_to uint16 int8 200) ≡ level int8 200 * 2 ^ 16 / 2 ^ 8
convert_to-level_example = convert_to-level uint16 int8 200 (omega arith)

convert_to_back_example : convert_to int8 uint16 (convert_to uint16 int8 200) ≡ 200
convert_to_back_example = convert_to_back uint16 int8 200 (omega arith) (omega arith)

read-write_example :
    read little_endian big24 uint16 (write little_endian big24 uint16 4660 ++ (77 ∷ [])) ≡ some 4660
read-write_example =
    read-write little_endian big24 uint16 4660 (77 ∷ []) (omega arith) (omega arith)

read_24 : read little_endian big24 int32 (1 ∷ 2 ∷ 3 ∷ []) ≡ some 16909056
unfolding read copy_n convert_to le_value
read_24 = refl

write-read_example : write little_endian big24 int32 16909056 ≡ 1 ∷ 2 ∷ 3 ∷ []
write-read_example =
    write-read little_endian big24 int32 (1 ∷ 2 ∷ 3 ∷ []) refl
      (omega arith, (omega arith, (omega arith, tt))) (omega arith) read_24

parts16 :
    of_parts signed_integer bit16 little_endian ≡ ok (format signed_integer bit16 little_endian)
parts16 = of_parts_lem signed_integer bit16 little_endian

parts24 :
    of_parts signed_integer bit24 little_endian ≡ ok (format signed_integer bit24 little_endian)
parts24 = of_parts_lem signed_integer bit24 little_endian

of_parts_lem_example : of_parts floating_point bit24 little_endian ≡ throw invalid_format
of_parts_lem_example = of_parts_lem floating_point bit24 little_endian

format_eq_iff_example :
    (format_eq
        (format signed_integer bit16 little_endian)
        (format signed_integer bit24 little_endian)
      ≡ true)
    ↔ (signed_integer ≡ signed_integer) × (bit16 ≡ bit24) × (little_endian ≡ little_endian)
format_eq_iff_example =
    format_eq_iff signed_integer signed_integer bit16 bit24 little_endian little_endian parts16
      parts24

of_string-print_example :
    of_string big_endian (print (format signed_integer bit16 little_endian))
    ≡ ok (format signed_integer bit16 little_endian)
of_string-print_example = of_string-print big_endian signed_integer bit16 little_endian parts16
