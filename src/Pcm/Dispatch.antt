-- ===== src/Pcm/Dispatch.antt =====
-- The choice of an implementation by a runtime format (converter.h: `make_read_impls`, `make_write_impls`, and
-- `read` and `write` with a runtime format).
use ni_media.Common.{◌≡◌, refl, true, Option, some, List, get_elem?}
use ni_media.Boost.{FindIf}
use ni_media.Pcm.Format.{
  NumberType, signed_integer, unsigned_integer, floating_point, BitwidthType, bit8, bit16, bit24,
  bit32, bit64, EndianType, big_endian, little_endian, CompiletimeFormat, compiletime_format,
  compiletime_formats,
}
use ni_media.Pcm.Runtime.{RuntimeFormat, ok, of_parts}
use ni_media.Pcm.Runtime.Laws.{format, is_supported, of_parts-format}
use mathlib.Core.List.{map}

-- The implementations of all formats.
unfoldable pub make_impls {ℓ} :
    {A : Type ℓ} → (CompiletimeFormat → A) → List CompiletimeFormat → List A
make_impls impl formats = map impl formats

-- `impls.at( fmt.index() )`, `none` where that throws.
unfoldable pub impl_of {ℓ} : {A : Type ℓ} → (CompiletimeFormat → A) → RuntimeFormat → Option A
unfolding make_impls
impl_of impl fmt = get_elem? (make_impls impl compiletime_formats) fmt.index

impl_of-supported {ℓ} :
    {A : Type ℓ} (impl : CompiletimeFormat → A) (n : NumberType) (b : BitwidthType) (e : EndianType)
    → is_supported n b ≡ true
    → impl_of impl (format n b e) ≡ some (impl (compiletime_format n b e))
unfolding impl_of compiletime_formats
impl_of-supported impl signed_integer bit8 big_endian s = refl
impl_of-supported impl signed_integer bit8 little_endian s = refl
impl_of-supported impl signed_integer bit16 big_endian s = refl
impl_of-supported impl signed_integer bit16 little_endian s = refl
impl_of-supported impl signed_integer bit24 big_endian s = refl
impl_of-supported impl signed_integer bit24 little_endian s = refl
impl_of-supported impl signed_integer bit32 big_endian s = refl
impl_of-supported impl signed_integer bit32 little_endian s = refl
impl_of-supported impl signed_integer bit64 big_endian s = refl
impl_of-supported impl signed_integer bit64 little_endian s = refl
impl_of-supported impl unsigned_integer bit8 big_endian s = refl
impl_of-supported impl unsigned_integer bit8 little_endian s = refl
impl_of-supported impl unsigned_integer bit16 big_endian s = refl
impl_of-supported impl unsigned_integer bit16 little_endian s = refl
impl_of-supported impl unsigned_integer bit24 big_endian s = refl
impl_of-supported impl unsigned_integer bit24 little_endian s = refl
impl_of-supported impl unsigned_integer bit32 big_endian s = refl
impl_of-supported impl unsigned_integer bit32 little_endian s = refl
impl_of-supported impl unsigned_integer bit64 big_endian s = refl
impl_of-supported impl unsigned_integer bit64 little_endian s = refl
impl_of-supported impl floating_point bit8 e s = absurd (cc s)
impl_of-supported impl floating_point bit16 e s = absurd (cc s)
impl_of-supported impl floating_point bit24 e s = absurd (cc s)
impl_of-supported impl floating_point bit32 big_endian s = refl
impl_of-supported impl floating_point bit32 little_endian s = refl
impl_of-supported impl floating_point bit64 big_endian s = refl
impl_of-supported impl floating_point bit64 little_endian s = refl

-- The implementation that a runtime format from the constructor chooses by its index is that of the
-- compile-time format with the same number type, width and byte order.
pub impl_of-of_parts {ℓ} :
    {A : Type ℓ} ⦃range : FindIf RuntimeFormat⦄ (impl : CompiletimeFormat → A) (n : NumberType)
    (b : BitwidthType) (e : EndianType) {f : RuntimeFormat}
    → of_parts n b e ≡ ok f
    → impl_of impl f ≡ some (impl (compiletime_format n b e))
impl_of-of_parts impl n b e {f} h =
    let r = of_parts-format n b e h in rw (r.1) (impl_of-supported impl n b e (r.0))
