-- ===== src/Common/Bits.antt =====
-- Exclusive or with the top bit of a word, and masks of low bits, as arithmetic at every width. The
-- native operations stand for a recursion on binary digits with a count of digits to go.
use Prim.Native.Nat.{
  ℕ, zero, suc, ◌+◌, ◌-◌, ◌*◌, ◌/◌, ◌%◌, ◌^◌, ◌≤◌, ◌<◌, min, digits, bitwise, differ, bit_and,
  bit_xor, bit_and-bitwise, bit_xor-bitwise,
}
use mathlib.Core.Path.{◌≡◌, refl}
use native.Mathlib.Nat.{pow-suc, one-le-pow}
use native.Mathlib.Omega.{arith}

module _ (at_end : ℕ → ℕ) (op : ℕ → ℕ → ℕ) where
  -- Any two counts from the first number on give the same digits.
  count_irrelevant : (x y n m : ℕ) → x ≤ m → x ≤ n → digits at_end op m x y ≡ digits at_end op n x y
  count_irrelevant zero y zero zero h k = refl
  count_irrelevant zero y zero (suc m) h k = refl
  count_irrelevant zero y (suc n) zero h k = refl
  count_irrelevant zero y (suc n) (suc m) h k = refl
  count_irrelevant (suc x) y n zero h k = absurd (omega arith)
  count_irrelevant (suc x) y zero (suc m) h k = absurd (omega arith)
  count_irrelevant (suc x) y (suc n) (suc m) h k =
      let halved = count_irrelevant (suc x / 2) (y / 2) n m (omega arith) (omega arith) in
      rw halved refl

  lowest_digit :
      (x y : ℕ)
      → bitwise at_end op (suc x) y
        ≡ bitwise at_end op (suc x / 2) (y / 2) * 2 + op (suc x % 2) (y % 2)
  lowest_digit x y =
      let enough = count_irrelevant (suc x / 2) (y / 2) (suc x / 2) x (omega arith) (omega arith) in
      rw enough refl

xor_step : (x y : ℕ) → bit_xor x y ≡ bit_xor (x / 2) (y / 2) * 2 + differ (x % 2) (y % 2)
xor_step zero y = simp bit_xor-bitwise (omega arith)
xor_step (suc x) y = simp bit_xor-bitwise (lowest_digit (λ n. n) differ x y)

and_step : (x y : ℕ) → bit_and x y ≡ bit_and (x / 2) (y / 2) * 2 + min (x % 2) (y % 2)
and_step zero y = simp bit_and-bitwise (omega arith)
and_step (suc x) y = simp bit_and-bitwise (lowest_digit (λ n. zero) min x y)

differ_zero : (a : ℕ) → differ a 0 ≡ a
differ_zero zero = refl
differ_zero (suc a) = refl

xor_zero : (k a : ℕ) → a < 2 ^ k → bit_xor a 0 ≡ a
xor_zero zero a h = let e : a ≡ 0 = omega arith in rw e refl
xor_zero (suc k) a h =
    ground (arith, pow-suc 2 k, xor_step a 0, xor_zero k (a / 2), differ_zero (a % 2))

-- Exclusive or with the power `2 ^ k` sets that bit or clears it.
pub xor_sets : (k a : ℕ) → a < 2 ^ k → bit_xor a (2 ^ k) ≡ a + 2 ^ k
xor_sets zero a h = let e : a ≡ 0 = omega arith in rw e refl
xor_sets (suc k) a h =
    ground (arith, pow-suc 2 k, xor_step a (2 ^ suc k), xor_sets k (a / 2), differ_zero (a % 2))

pub xor_clears : (k a : ℕ) → a < 2 ^ k → bit_xor (a + 2 ^ k) (2 ^ k) ≡ a
xor_clears zero a h = let e : a ≡ 0 = omega arith in rw e refl
xor_clears (suc k) a h = ground (
  arith,
  pow-suc 2 k,
  xor_step (a + 2 ^ suc k) (2 ^ suc k),
  xor_clears k (a / 2),
  differ_zero (a % 2),
)

-- A mask of low bits keeps a number that has no others.
pub and_mask : (k a : ℕ) → a < 2 ^ k → bit_and a (2 ^ k - 1) ≡ a
and_mask zero a h = let e : a ≡ 0 = omega arith in rw e refl
and_mask (suc k) a h =
    ground (arith, pow-suc 2 k, one-le-pow k 2, and_step a (2 ^ suc k - 1), and_mask k (a / 2))

-- Clearing the lowest bit of a 32-bit word.
pub and_even : (a : ℕ) → a < 2 ^ 32 → bit_and a 0xfffffffe ≡ a - a % 2
and_even a h = ground (arith, and_step a 0xfffffffe, and_mask 31 (a / 2))
