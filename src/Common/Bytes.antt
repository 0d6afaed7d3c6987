-- ===== src/Common/Bytes.antt =====
-- Numbers as byte sequences, least significant byte first.
use Prim.Native.Nat.{ℕ, zero, suc, ◌+◌, ◌*◌, ◌/◌, ◌%◌, ◌^◌, ◌<◌, ◌≤◌}
use mathlib.Core.Path.{◌≡◌, refl, ap, ◌∙◌}
use mathlib.Core.List.{List, [], ◌∷◌, ◌++◌, reverse, reverse_aux}
use native.Mathlib.Nat.{pow-suc, div-div-eq-div-mul}
use native.Mathlib.Omega.{arith}
use ni_media.Common.Lists.{length, replicate, take, drop, length-replicate}

abbrev pub IsByte : ℕ → Type 0
IsByte b = b < 256

abbrev pub All {ℓ κ} : {A : Type ℓ} → (A → Type κ) → List A → Type κ
All P [] = Unit
All P (x ∷ xs) = P x × All P xs

-- The `n` low bytes of a number.
unfoldable pub le_bytes : ℕ → ℕ → List ℕ
le_bytes zero v = []
le_bytes (suc n) v = (v % 256) ∷ le_bytes n (v / 256)

unfoldable pub le_value : List ℕ → ℕ
le_value [] = 0
le_value (b ∷ bs) = b + 256 * le_value bs

pub length-le_bytes : (n v : ℕ) → length (le_bytes n v) ≡ n
unfolding le_bytes
length-le_bytes zero v = refl
length-le_bytes (suc n) v = ap suc (length-le_bytes n (v / 256))

pub le_bytes-IsByte : (n v : ℕ) → All IsByte (le_bytes n v)
unfolding le_bytes
le_bytes-IsByte zero v = tt
le_bytes-IsByte (suc n) v = (omega arith, le_bytes-IsByte n (v / 256))

pub le_value-le_bytes : (n v : ℕ) → v < 256 ^ n → le_value (le_bytes n v) ≡ v
unfolding le_bytes le_value
le_value-le_bytes zero v h = omega arith
le_value-le_bytes (suc n) v h = ground (arith, pow-suc 256 n, le_value-le_bytes n (v / 256))

pub le_bytes-le_value : (bs : List ℕ) → All IsByte bs → le_bytes (length bs) (le_value bs) ≡ bs
unfolding le_bytes le_value
le_bytes-le_value [] h = refl
le_bytes-le_value (b ∷ bs) h = ground (arith, le_bytes-le_value bs h.1)

pub le_value-append :
    (xs ys : List ℕ) → le_value (xs ++ ys) ≡ le_value xs + 256 ^ length xs * le_value ys
unfolding le_value
le_value-append [] ys = omega arith
le_value-append (x ∷ xs) ys =
    omega (arith, le_value-append xs ys, ap (λ (t : ℕ). t * le_value ys) (pow-suc 256 (length xs)))

pub le_value-zeros : (n : ℕ) → le_value (replicate n 0) ≡ 0
unfolding le_value
le_value-zeros zero = refl
le_value-zeros (suc n) = omega (arith, le_value-zeros n)

pub le_value-lt : (bs : List ℕ) → All IsByte bs → le_value bs < 256 ^ length bs
unfolding le_value
le_value-lt [] h = omega arith
le_value-lt (b ∷ bs) h = omega (arith, pow-suc 256 (length bs), le_value-lt bs h.1)

div-pow : (v p : ℕ) → v / 256 / 256 ^ p ≡ v / 256 ^ suc p
div-pow v p =
    div-div-eq-div-mul v 256 (256 ^ p) ∙ ap (λ (t : ℕ). v / t) (omega (arith, pow-suc 256 p))

-- Dropping low bytes divides.
pub drop-le_bytes : (p n k v : ℕ) → k ≡ p + n → drop p (le_bytes k v) ≡ le_bytes n (v / 256 ^ p)
unfolding le_bytes
drop-le_bytes zero n k v e = let e' : k ≡ n = omega arith in rw e' (ap (le_bytes n) (omega arith))
drop-le_bytes (suc p) n zero v e = absurd (omega arith)
drop-le_bytes (suc p) n (suc k) v e =
    drop-le_bytes p n k (v / 256) (omega arith) ∙ ap (le_bytes n) (div-pow v p)

-- Zeros below a number multiply it.
pub le_value-shifted :
    (p : ℕ) (bs : List ℕ) → le_value (replicate p 0 ++ bs) ≡ 256 ^ p * le_value bs
le_value-shifted p bs =
    le_value-append (replicate p 0) bs
    ∙ rw (le_value-zeros p, length-replicate {A = ℕ} p 0) (omega arith)

pub take-IsByte : (n : ℕ) (xs : List ℕ) → All IsByte xs → All IsByte (take n xs)
take-IsByte zero xs h = tt
take-IsByte (suc n) [] h = tt
take-IsByte (suc n) (x ∷ xs) h = (h.0, take-IsByte n xs h.1)

pub drop-IsByte : (n : ℕ) (xs : List ℕ) → All IsByte xs → All IsByte (drop n xs)
drop-IsByte zero xs h = h
drop-IsByte (suc n) [] h = tt
drop-IsByte (suc n) (x ∷ xs) h = drop-IsByte n xs h.1

reverse_aux-IsByte :
    (xs ys : List ℕ) → All IsByte xs → All IsByte ys → All IsByte (reverse_aux xs ys)
reverse_aux-IsByte [] ys h h' = h'
reverse_aux-IsByte (x ∷ xs) ys h h' = reverse_aux-IsByte xs (x ∷ ys) h.1 (h.0, h')

pub reverse-IsByte : (xs : List ℕ) → All IsByte xs → All IsByte (reverse xs)
reverse-IsByte xs h = reverse_aux-IsByte xs [] h tt

pow256_mono : (n : ℕ) → n ≤ 4 → 256 ^ n ≤ 2 ^ 32
pow256_mono zero h = omega arith
pow256_mono (suc zero) h = omega arith
pow256_mono (suc (suc zero)) h = omega arith
pow256_mono (suc (suc (suc zero))) h = omega arith
pow256_mono (suc (suc (suc (suc zero)))) h = omega arith
pow256_mono (suc (suc (suc (suc (suc n))))) h = absurd (omega arith)

-- Four bytes at most make a `uint32_t`.
pub le_value_uint32 : (bs : List ℕ) → All IsByte bs → length bs ≤ 4 → le_value bs < 2 ^ 32
le_value_uint32 bs h l = omega (arith, le_value-lt bs h, pow256_mono (length bs) l)
