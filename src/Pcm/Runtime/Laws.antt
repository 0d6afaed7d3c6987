-- ===== src/Pcm/Runtime/Laws.antt =====
-- What the constructors of `runtime_format` return, by a description of the table.
use ni_media.Common.{ℕ, ◌≢◌, ◌+◌, ◌*◌, ◌≡◌, ◌↔◌, arith, Bool, true, false, if◌then◌else◌}
use ni_media.Boost.{FindIf, find_if-first, first}
use ni_media.Pcm.Format.{
  NumberType, signed_integer, unsigned_integer, floating_point, BitwidthType, bit8, bit16, bit24,
  bit32, bit64, EndianType, bits, endian_code, compiletime_formats, tuple_find,
}
use ni_media.Pcm.Runtime.{
  RuntimeFormat, ok, throw, invalid_format, invalid_bitwidth, runtime_formats, of_parts, of_bits,
  format_eq,
}

-- Floating point has two widths, and the integers all five.
abbrev pub is_supported : NumberType → BitwidthType → Bool
is_supported floating_point bit8 = false
is_supported floating_point bit16 = false
is_supported floating_point bit24 = false
is_supported _ _ = true

abbrev rank : BitwidthType → ℕ
rank bit8 = 0
rank bit16 = 1
rank bit24 = 2
rank bit32 = 3
rank bit64 = 4

-- Ten signed formats, ten unsigned and four of floating point, by width and then by byte order.
abbrev first_index : NumberType → ℕ
first_index signed_integer = 0
first_index unsigned_integer = 10
first_index floating_point = 14

abbrev pub format : NumberType → BitwidthType → EndianType → RuntimeFormat
format n b e = record {
  number = n;
  bitwidth = b;
  endian = e;
  index = first_index n + 2 * rank b + endian_code e;
}

-- The index of a supported format determines it.
format-index :
    (n n' : NumberType) (b b' : BitwidthType) (e e' : EndianType)
    → is_supported n b ≡ true
    → is_supported n' b' ≡ true
    → (format n b e).index ≡ (format n' b' e').index
    → (n ≡ n') × (b ≡ b') × (e ≡ e')
format-index n n' b b' e e' s s' p = ground arith

module _ ⦃range : FindIf RuntimeFormat⦄ where
  -- The constructor of a runtime format accepts exactly the supported combinations: all five widths
  -- for the integers and two for floating point, in either byte order; it gives the format with its
  -- position in the table, and refuses the others as invalid.
  pub of_parts_lem :
      (n : NumberType) (b : BitwidthType) (e : EndianType)
      → of_parts n b e ≡ (if is_supported n b then ok (format n b e) else throw invalid_format)
  unfolding of_parts runtime_formats compiletime_formats tuple_find first
  of_parts_lem n b e = rw find_if-first (ground arith)

  -- A number of bits is taken exactly if it is one of the five widths, and then the constructor
  -- agrees with the one from a width; any other number is refused as such.
  pub of_bits_lem :
      (n : NumberType) (e : EndianType)
      → ((b : BitwidthType) → of_bits n (bits b) e ≡ of_parts n b e)
        × ((count : ℕ)
            → ((b : BitwidthType) → bits b ≢ count)
            → of_bits n count e ≡ throw invalid_bitwidth)
  unfolding of_bits
  of_bits_lem n e =
      (λ b. ground arith, λ count h. ground (arith, h bit8, h bit16, h bit24, h bit32, h bit64))

  -- What the constructor returns is the format of its arguments.
  pub of_parts-format :
      (n : NumberType) (b : BitwidthType) (e : EndianType) {f : RuntimeFormat}
      → of_parts n b e ≡ ok f
      → (is_supported n b ≡ true) × (f ≡ format n b e)
  of_parts-format n b e p = ground (arith, of_parts_lem n b e)

  -- Two runtime formats that the constructor returned compare equal exactly if their number types,
  -- widths and byte orders agree.
  pub format_eq_iff :
      (n n' : NumberType) (b b' : BitwidthType) (e e' : EndianType) {f g : RuntimeFormat}
      → of_parts n b e ≡ ok f
      → of_parts n' b' e' ≡ ok g
      → (format_eq f g ≡ true) ↔ (n ≡ n') × (b ≡ b') × (e ≡ e')
  unfolding format_eq
  format_eq_iff n n' b b' e e' p q =
      let (s, fe) = of_parts-format n b e p in
      let (s', ge) = of_parts-format n' b' e' q in
      rw (fe, ge)
        (λ h. format-index n n' b b' e e' s s' (ground arith), λ h. ground (arith, h.0, h.1, h.2))
