-- ===== src/Audio/Reader.antt =====
-- Reading with errors: a state, with what the code throws as a result.
pub mod Safe
use ni_media.Common.{ℕ, ◌-◌, ◌%◌, ◌^◌, Bool, true, false, Option, none, some, List}
use ni_media.Common.Int.{ℤ, pos, negsuc}
use ni_media.Boost.{Algorithms}
use ni_media.Iostreams.Positioning.{SeekDir}
use ni_media.Iostreams.Device.{Source}
use ni_media.Iostreams.Fetch.{fetch}

-- `undefined` is what C++ leaves undefined: an overflow of a signed integer, a division by zero, or a cast
-- of a `double` to a type that does not hold it.
pub data Outcome (E A : Type 0) : Type 0 where
  done : A → Outcome E A
  thrown : E → Outcome E A
  undefined out_of_fuel : Outcome E A

-- A step on a state that may fail with an error.
abbrev pub Reader : Type 0 → Type 0 → Type 0 → Type 0
Reader E S A = S → Outcome E A × S

abbrev pub next : {E S A B : Type 0} → Outcome E A → (A → Reader E S B) → Reader E S B
next (done a) f s = f a s
next (thrown e) f s = (thrown e, s)
next undefined f s = (undefined, s)
next out_of_fuel f s = (out_of_fuel, s)

infixl 5 ◌>>=◌ ◌>>◌
abbrev pub ◌>>=◌ : {E S A B : Type 0} → Reader E S A → (A → Reader E S B) → Reader E S B
◌>>=◌ m f s = next ((m s).0) f ((m s).1)

abbrev pub ◌>>◌ : {E S B : Type 0} → Reader E S (Unit {0}) → Reader E S B → Reader E S B
m >> k = m >>= λ _. k

abbrev pub give : {E S A : Type 0} → Outcome E A → Reader E S A
give r s = (r, s)

abbrev pub throw_if : {E S : Type 0} → Bool → E → Reader E S (Unit {0})
throw_if true e s = (thrown e, s)
throw_if false e s = (done tt, s)

abbrev pub or_throw : {E A : Type 0} → Option A → E → Outcome E A
or_throw none e = thrown e
or_throw (some a) e = done a

abbrev pub or_undefined : {E A : Type 0} → Option A → Outcome E A
or_undefined none = undefined
or_undefined (some a) = done a

-- `static_cast<uint32_t>`
abbrev pub to_uint32 : ℤ → ℕ
to_uint32 (pos n) = n % 2 ^ 32
to_uint32 (negsuc n) = 2 ^ 32 - 1 - n % 2 ^ 32

module _ ⦃boost : Algorithms⦄ {E S : Type 0} (src : Source S) where
  abbrev pub fetched : List ℕ → Reader E S (Option (List (List ℕ)))
  fetched sizes s = (done ((fetch src sizes s).0), (fetch src sizes s).1)

  -- `fetch` where the code throws if it fails.
  abbrev pub fetch_or : List ℕ → E → Reader E S (List (List ℕ))
  fetch_or sizes e s = (or_throw ((fetch src sizes s).0) e, (fetch src sizes s).1)

  abbrev pub sought : ℤ → SeekDir → Reader E S ℤ
  sought off way s = (done ((src.seek off way s).0), (src.seek off way s).1)
