-- ===== src/Audio/Ieee80.antt =====
-- The sample rates of AIFF files: numbers of 80 bits (audio/ieee80.h, which is another project's code), and
-- what the readers and writers do with a `double`, given by its pattern.
use ni_media.Common.{
  ℕ, ◌^◌, ◌<◌, ◌≡◌, arith, Bool, true, false, Option, some, none, List, length, ltb, ◌==◌,
  if◌then◌else◌,
}
use ni_media.Common.Bytes.{le_bytes, le_value, length-le_bytes, le_value-le_bytes}

pub record Ieee80 : Type 0 where
  -- `ieee_80_to_double` and `double_to_ieee_80`.
  pub to_double : List ℕ → ℕ
  pub of_double : ℕ → List ℕ
  -- `static_cast<double>` of a `size_t`, the cast back, and the test whether a `double` is `<= 0.0`.
  -- The cast back is undefined, here `none`, of what no `size_t` holds: infinity, what is not a
  -- number, and a number of 2^64 or more.
  pub of_size_t : ℕ → ℕ
  pub to_size_t : ℕ → Option ℕ
  pub not_positive : ℕ → Bool
  -- The numbers of 32 bits go there and back.
  pub length-of_double : (x : ℕ) → length (of_double x) ≡ 10
  pub to_size_t-to_double :
      (n : ℕ) → n < 2 ^ 32 → to_size_t (to_double (of_double (of_size_t n))) ≡ some n
  pub not_positive-to_double :
      (n : ℕ) → 0 < n → n < 2 ^ 32 → not_positive (to_double (of_double (of_size_t n))) ≡ false

-- A number that a `size_t` holds.
abbrev pub size_below : ℕ → Option ℕ
size_below n = if ltb n (2 ^ 64) then some n else none

pub kept : (n : ℕ) → n < 2 ^ 32 → le_value (le_bytes 10 n) ≡ n
kept n h = le_value-le_bytes 10 n (omega arith)

pub kept_size : (n : ℕ) → n < 2 ^ 32 → size_below (le_value (le_bytes 10 n)) ≡ some n
kept_size n h = let low : ltb n (2 ^ 64) ≡ true = ground arith in rw (kept n h, low) (λ i. some n)

pub kept_positive : (n : ℕ) → 0 < n → n < 2 ^ 32 → (le_value (le_bytes 10 n) == 0) ≡ false
kept_positive n h h' = rw (kept n h') (ground arith)

-- One that keeps whole numbers as they are.
instance abbrev pub whole_numbers : Ieee80
whole_numbers = record {
  to_double = le_value;
  of_double = le_bytes 10;
  of_size_t = λ n. n;
  to_size_t = size_below;
  not_positive = λ x. x == 0;
  length-of_double = λ x. length-le_bytes 10 x;
  to_size_t-to_double = kept_size;
  not_positive-to_double = kept_positive;
}
