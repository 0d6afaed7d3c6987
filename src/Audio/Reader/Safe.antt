-- ===== src/Audio/Reader/Safe.antt =====
-- Readers that answer, on every position of a file, with a result or an error, and leave the position in the
-- file. They are put together as the readers are.
use ni_media.Common.{
  ℕ, ◌+◌, ◌-◌, ◌≤◌, ◌<◌, ◌^◌, ◌≡◌, refl, arith, Bool, true, false, Option, none, some, List, [],
  ◌∷◌, length, min, if◌then◌else◌,
}
use ni_media.Common.Int.{pos}
use ni_media.Boost.{Algorithms}
use ni_media.Iostreams.Positioning.{beg, cur}
use ni_media.Iostreams.Device.{Source}
use ni_media.Iostreams.Fetch.{read_each, fetch}
use ni_media.Iostreams.File.{StopsAtEnd, IsFileSize}
use ni_media.Audio.Reader.{
  Outcome, done, thrown, undefined, out_of_fuel, Reader, ◌>>=◌, next, give, throw_if, or_throw,
  fetched, fetch_or, sought,
}

-- Neither an undefined behaviour nor the end of the fuel.
unfoldable pub answers : {E A : Type 0} → Outcome E A → Bool
answers (done a) = true
answers (thrown e) = true
answers undefined = false
answers out_of_fuel = false

-- The state is at a place in the file.
pub record Inside {S : Type 0} (at : List ℕ → ℕ → S) (bytes : List ℕ) (s : S) : Type 0 where
  pub place : ℕ
  pub inside : place ≤ length bytes
  pub there : s ≡ at bytes place

pub record Lands {S E A : Type 0} (at : List ℕ → ℕ → S) (bytes : List ℕ) (r : Outcome E A × S)
    : Type 0 where
  pub end_state : Inside at bytes r.1
  pub answered : answers r.0 ≡ true

pub record IsSafe {S E A : Type 0} (at : List ℕ → ℕ → S) (bytes : List ℕ) (m : Reader E S A)
    : Type 0 where
  pub lands : (p : ℕ) → p ≤ length bytes → Lands at bytes (m (at bytes p))

or_throw-answers : {E A : Type 0} (o : Option A) (e : E) → answers (or_throw o e) ≡ true
unfolding answers
or_throw-answers none e = refl
or_throw-answers (some a) e = refl

next_assoc :
    {E S A B C : Type 0} (r : Outcome E A) (s : S) (f : A → Reader E S B) (g : B → Reader E S C)
    → next (next r f s).0 g (next r f s).1 ≡ next r (λ a. f a >>= g) s
next_assoc (done a) s f g = refl
next_assoc (thrown e) s f g = refl
next_assoc undefined s f g = refl
next_assoc out_of_fuel s f g = refl

pub bind_assoc :
    {E S A B C : Type 0} (m : Reader E S A) (f : A → Reader E S B) (g : B → Reader E S C) (s : S)
    → ((m >>= f) >>= g) s ≡ (m >>= (λ a. f a >>= g)) s
bind_assoc m f g s = next_assoc (m s).0 (m s).1 f g

module _ {S : Type 0} {at : List ℕ → ℕ → S} {bytes : List ℕ} where
  pub here : (p : ℕ) → p ≤ length bytes → Inside at bytes (at bytes p)
  here p h = record { place = p; inside = h; there = refl }

  pub give-IsSafe : {E A : Type 0} (r : Outcome E A) → answers r ≡ true → IsSafe at bytes (give r)
  give-IsSafe r h = record { lands = λ p hp. record { end_state = here p hp; answered = h } }

  next-Lands :
      {E A B : Type 0} (r : Outcome E A) (s : S) (f : A → Reader E S B)
      → Inside at bytes s
      → answers r ≡ true
      → ((a : A) → IsSafe at bytes (f a))
      → Lands at bytes (next r f s)
  unfolding answers
  next-Lands (done a) s f i h hf = rw (i.there) ((hf a).lands i.place i.inside)
  next-Lands (thrown e) s f i h hf = record { end_state = i; answered = refl }
  next-Lands undefined s f i h hf = absurd (cc h)
  next-Lands out_of_fuel s f i h hf = absurd (cc h)

  pub bind-Lands :
      {E A B : Type 0} (m : Reader E S A) (f : A → Reader E S B) (s : S)
      → Lands at bytes (m s)
      → ((a : A) → IsSafe at bytes (f a))
      → Lands at bytes ((m >>= f) s)
  bind-Lands m f s l hf = next-Lands (m s).0 (m s).1 f l.end_state l.answered hf

  pub bind-IsSafe :
      {E A B : Type 0} (m : Reader E S A) (f : A → Reader E S B)
      → IsSafe at bytes m
      → ((a : A) → IsSafe at bytes (f a))
      → IsSafe at bytes (m >>= f)
  bind-IsSafe m f hm hf = record { lands = λ p hp. bind-Lands m f (at bytes p) (hm.lands p hp) hf }

  pub done-IsSafe : {E A : Type 0} (a : A) → IsSafe {E = E} at bytes (give (done a))
  unfolding answers
  done-IsSafe a = give-IsSafe (done a) refl

  pub thrown-IsSafe : {E A : Type 0} (e : E) → IsSafe {A = A} at bytes (give (thrown e))
  unfolding answers
  thrown-IsSafe e = give-IsSafe (thrown e) refl

  pub or_throw-IsSafe :
      {E A : Type 0} (o : Option A) (e : E) → IsSafe at bytes (give (or_throw o e))
  or_throw-IsSafe o e = give-IsSafe (or_throw o e) (or_throw-answers o e)

  pub throw_if-IsSafe : {E : Type 0} (b : Bool) (e : E) → IsSafe at bytes (throw_if b e)
  unfolding answers
  throw_if-IsSafe true e = record {
    lands = λ p hp. record { end_state = here p hp; answered = refl };
  }
  throw_if-IsSafe false e = record {
    lands = λ p hp. record { end_state = here p hp; answered = refl };
  }

  pub if-IsSafe :
      {E A : Type 0} (b : Bool) {m n : Reader E S A}
      → IsSafe at bytes m
      → IsSafe at bytes n
      → IsSafe at bytes (if b then m else n)
  if-IsSafe true hm hn = hm
  if-IsSafe false hm hn = hn

  pub if-Lands :
      {E A : Type 0} (b : Bool) {x y : Outcome E A × S}
      → Lands at bytes x
      → Lands at bytes y
      → Lands at bytes (if b then x else y)
  if-Lands true hx hy = hx
  if-Lands false hx hy = hy

  pub option-IsSafe :
      {E A B : Type 0} (o : Option A) {m : Reader E S B} {f : A → Reader E S B}
      → IsSafe at bytes m
      → ((a : A) → IsSafe at bytes (f a))
      → IsSafe at bytes (elim o [ none ↦ m | some a ↦ f a ])
  option-IsSafe none hm hf = hm
  option-IsSafe (some a) hm hf = hf a

module _ ⦃boost : Algorithms⦄ {S : Type 0} {src : Source S} {at : List ℕ → ℕ → S}
    (stops : StopsAtEnd src at) {bytes : List ℕ} (fits : IsFileSize bytes) where
  read_each-Inside :
      (sizes : List ℕ) (p : ℕ)
      → p ≤ length bytes
      → Inside at bytes (read_each src sizes (at bytes p)).2
  unfolding read_each
  read_each-Inside [] p hp = here p hp
  read_each-Inside (n ∷ ns) p hp =
      rw (stops.read_at bytes p n fits hp)
        (read_each-Inside ns (p + min n (length bytes - p)) (omega arith))

  pub fetch-Inside :
      (sizes : List ℕ) (p : ℕ) → p ≤ length bytes → Inside at bytes (fetch src sizes (at bytes p)).1
  unfolding fetch
  fetch-Inside sizes p hp = read_each-Inside sizes p hp

  pub fetched-IsSafe : {E : Type 0} (sizes : List ℕ) → IsSafe at bytes (fetched {E = E} src sizes)
  unfolding answers
  fetched-IsSafe sizes = record {
    lands = λ p hp. record { end_state = fetch-Inside sizes p hp; answered = refl };
  }

  pub fetch_or-IsSafe :
      {E : Type 0} (sizes : List ℕ) (e : E) → IsSafe at bytes (fetch_or src sizes e)
  fetch_or-IsSafe sizes e = record {
    lands = λ p hp. record {
      end_state = fetch-Inside sizes p hp;
      answered = or_throw-answers (fetch src sizes (at bytes p)).0 e;
    };
  }

  pub seek-IsSafe :
      {E : Type 0} (q : ℕ) → q < 2 ^ 63 → IsSafe at bytes (sought {E = E} src (pos q) beg)
  unfolding answers
  seek-IsSafe q hq = record {
    lands = λ p hp. record {
      end_state =
          rw (stops.seek_at bytes p q fits hp hq) (here (min q (length bytes)) (omega arith));
      answered = refl;
    };
  }

  pub step-IsSafe :
      {E : Type 0} (n : ℕ)
      → length bytes + n < 2 ^ 63
      → IsSafe at bytes (sought {E = E} src (pos n) cur)
  unfolding answers
  step-IsSafe n hn = record {
    lands = λ p hp. record {
      end_state =
          rw (stops.step_at bytes p n fits hp (omega arith))
            (here (min (p + n) (length bytes)) (omega arith));
      answered = refl;
    };
  }
