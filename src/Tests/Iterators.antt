-- ===== src/Tests/Iterators.antt =====
-- Iterators over 24-bit big-endian samples in nine bytes, and the choice of an implementation.
use ni_media.Common.{ℕ, ◌≡◌, refl, arith, true, some, inr, List, [], ◌∷◌}
use ni_media.Common.Int.{negsuc}
use ni_media.Common.Bytes.{le_bytes}
use ni_media.Boost.{find_if_first}
use ni_media.Pcm.Format.{bit24, big_endian, little_endian, signed_integer, bits, CompiletimeFormat}
use ni_media.Pcm.Convert.{IntType, size16, convert_to}
use ni_media.Pcm.Sample
use ni_media.Pcm.Sample.{IntFormat}
use ni_media.Pcm.Runtime.Laws.{format, of_parts_lem}
use ni_media.Pcm.Dispatch.{impl_of, impl_of-of_parts}
use ni_media.Pcm.Iterator.{Iterator, advance, moved, dereference, assign}
use ni_media.Pcm.Iterator.Laws.{dereference-assign, dereference-assign_other}

abbrev big24 : IntFormat
big24 = record { is_signed = true; bitwidth = bit24; endian = big_endian }

abbrev int16 : IntType
int16 = record { is_signed = true; size = size16 }

abbrev nine : List ℕ
nine = 1 ∷ 2 ∷ 3 ∷ 4 ∷ 5 ∷ 6 ∷ 7 ∷ 8 ∷ 9 ∷ []

abbrev at_sample : ℕ → Iterator
at_sample p = record { base = p; format = big24 }

two_back : advance (negsuc 1) (at_sample 6) ≡ some (at_sample 0)
unfolding advance moved
two_back = refl

assigned_middle :
    assign little_endian int16 (at_sample 3) 4660 nine
    ≡ some (1 ∷ 2 ∷ 3 ∷ 18 ∷ 52 ∷ 0 ∷ 7 ∷ 8 ∷ 9 ∷ [])
unfolding assign Sample.write le_bytes convert_to
assigned_middle = refl

dereference-assign_example :
    dereference little_endian int16 (at_sample 3) (1 ∷ 2 ∷ 3 ∷ 18 ∷ 52 ∷ 0 ∷ 7 ∷ 8 ∷ 9 ∷ [])
    ≡ some 4660
dereference-assign_example =
    dereference-assign little_endian int16 (at_sample 3) 4660 nine (omega arith) (omega arith)
      assigned_middle

dereference-assign_other_example :
    dereference little_endian int16 (at_sample 6) (1 ∷ 2 ∷ 3 ∷ 18 ∷ 52 ∷ 0 ∷ 7 ∷ 8 ∷ 9 ∷ [])
    ≡ dereference little_endian int16 (at_sample 6) nine
dereference-assign_other_example =
    dereference-assign_other little_endian int16 (at_sample 3) (at_sample 6) 4660 nine
      (inr (omega arith)) assigned_middle

abbrev width_of : CompiletimeFormat → ℕ
width_of fmt = bits fmt.bitwidth

impl_of-of_parts_example : impl_of width_of (format signed_integer bit24 little_endian) ≡ some 24
impl_of-of_parts_example =
    impl_of-of_parts width_of signed_integer bit24 little_endian
      (of_parts_lem signed_integer bit24 little_endian)
