-- ===== src/Boost.antt =====
-- The parts of Boost that the sources call, as interfaces: each is a record of the operations and
-- of the behaviour that their documentation states. No definition of theirs is assumed.
use ni_media.Common.{
  ℕ, ◌↔◌, ◌==◌, ◌≡◌, refl, Bool, true, false, not, ◌&&◌, Option, none, some, List, [], ◌∷◌,
  if◌then◌else◌, arith, ◌<◌, ◌≤◌, ◌^◌, ap, ◌∙◌, length, length-reverse,
}
use ni_media.Common.Bytes.{
  le_bytes, le_value, length-le_bytes, le_value-le_bytes, All, IsByte, reverse-IsByte,
  le_value_uint32,
}
use mathlib.Core.List.{reverse, reverse-reverse}
use ni_media.Common.Int.{ℤ, ◌≤ℤ◌, ltb_ℤ}

-- boost::range::find_if, with `none` for the end iterator and `some` for one that points at a value.
pub record FindIf {ℓ} (A : Type ℓ) : Type ℓ where
  pub find_if : List A → (A → Bool) → Option A
  pub find_if-nil : (p : A → Bool) → find_if [] p ≡ none
  pub find_if-cons :
      (x : A) (xs : List A) (p : A → Bool)
      → find_if (x ∷ xs) p ≡ (if p x then some x else find_if xs p)

-- The first value of a list that passes a test.
unfoldable pub first {ℓ} : {A : Type ℓ} → List A → (A → Bool) → Option A
first [] p = none
first (x ∷ xs) p = let rest = first xs p in if p x then some x else rest

pub find_if-first {ℓ} :
    {A : Type ℓ} ⦃range : FindIf A⦄ (xs : List A) (p : A → Bool) → range.find_if xs p ≡ first xs p
unfolding first
find_if-first ⦃range⦄ [] p = range.find_if-nil p
find_if-first ⦃range⦄ (x ∷ xs) p = rw (range.find_if-cons, find_if-first xs p) refl

-- A search that behaves as documented.
instance abbrev pub find_if_first {ℓ} : {A : Type ℓ} → FindIf A
unfolding first
find_if_first = record { find_if = first; find_if-nil = λ p. refl; find_if-cons = λ x xs p. refl }

-- What the stream devices use: boost::algorithm::clamp at `std::streampos`,
-- boost::iostreams::offset_to_position, boost::algorithm::all_of_equal, and boost::range::equal at
-- bytes.
pub record Algorithms : Type 0 where
  pub clamp : ℤ → ℤ → ℤ → ℤ
  pub clamp_lem :
      (val lo hi : ℤ)
      → lo ≤ℤ hi
      → clamp val lo hi ≡ (if ltb_ℤ val lo then lo else if ltb_ℤ hi val then hi else val)
  pub offset_to_position : ℤ → ℤ
  pub offset_to_position_lem : (off : ℤ) → offset_to_position off ≡ off
  pub all_of_equal : List Bool → Bool → Bool
  pub all_of_equal-nil : (b : Bool) → all_of_equal [] b ≡ true
  pub all_of_equal-cons :
      (x : Bool) (xs : List Bool) (b : Bool)
      → all_of_equal (x ∷ xs) b ≡ ((if x then b else not b) && all_of_equal xs b)
  pub equal : List ℕ → List ℕ → Bool
  pub equal_iff : (xs ys : List ℕ) → (equal xs ys ≡ true) ↔ (xs ≡ ys)

abbrev pub same : List ℕ → List ℕ → Bool
same [] [] = true
same [] (y ∷ ys) = false
same (x ∷ xs) [] = false
same (x ∷ xs) (y ∷ ys) = x == y && same xs ys

same-eq : (xs ys : List ℕ) → same xs ys ≡ true → xs ≡ ys
same-eq [] [] h = refl
same-eq [] (y ∷ ys) h = cc
same-eq (x ∷ xs) [] h = cc
same-eq (x ∷ xs) (y ∷ ys) h = ground (arith, same-eq xs ys)

same_self : (xs : List ℕ) → same xs xs ≡ true
same_self [] = refl
same_self (x ∷ xs) = ground (arith, same_self xs)

pub same_iff : (xs ys : List ℕ) → (same xs ys ≡ true) ↔ (xs ≡ ys)
same_iff xs ys = (same-eq xs ys, λ e. rw e (same_self ys))

abbrev every : List Bool → Bool → Bool
every [] b = true
every (x ∷ xs) b = (if x then b else not b) && every xs b

-- Functions that behave as documented.
instance abbrev pub algorithms : Algorithms
algorithms = record {
  clamp = λ val lo hi. if ltb_ℤ val lo then lo else if ltb_ℤ hi val then hi else val;
  clamp_lem = λ val lo hi h. refl;
  offset_to_position = λ off. off;
  offset_to_position_lem = λ off. refl;
  all_of_equal = every;
  all_of_equal-nil = λ b. refl;
  all_of_equal-cons = λ x xs b. refl;
  equal = same;
  equal_iff = same_iff;
}

-- The types boost::endian::big_uint16_t and so on: the bytes of such an object of `n` bytes, and the value
-- of its bytes.
pub record BigEndian : Type 0 where
  pub object : ℕ → ℕ → List ℕ
  pub object_lem : (n v : ℕ) → object n v ≡ reverse (le_bytes n v)
  pub value : List ℕ → ℕ
  pub value_lem : (bs : List ℕ) → value bs ≡ le_value (reverse bs)

-- Objects that behave as documented.
instance abbrev pub big_endian_objects : BigEndian
big_endian_objects = record {
  object = λ n v. reverse (le_bytes n v);
  object_lem = λ n v. refl;
  value = λ bs. le_value (reverse bs);
  value_lem = λ bs. refl;
}

module _ ⦃big : BigEndian⦄ where
  pub length-object : (n v : ℕ) → length (big.object n v) ≡ n
  length-object n v =
      ap (λ (bs : List ℕ). length bs) (big.object_lem n v)
      ∙ length-reverse (le_bytes n v)
      ∙ length-le_bytes n v

  -- An object has the value that was put into it.
  pub value-object : (n v : ℕ) → v < 256 ^ n → big.value (big.object n v) ≡ v
  value-object n v h =
      rw
        (big.object_lem n v, big.value_lem (reverse (le_bytes n v)), reverse-reverse (le_bytes n v))
        (le_value-le_bytes n v h)

  pub value_uint32 : (bs : List ℕ) → All IsByte bs → length bs ≤ 4 → big.value bs < 2 ^ 32
  value_uint32 bs h l =
      rw (big.value_lem bs)
        (le_value_uint32 (reverse bs) (reverse-IsByte bs h) (omega (arith, length-reverse bs)))
