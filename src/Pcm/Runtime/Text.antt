-- ===== src/Pcm/Runtime/Text.antt =====
-- Reading a format from a string and printing one. A string is its list of character codes.
use ni_media.Common.{
  ℕ, ◌+◌, ◌-◌, ◌*◌, ◌/◌, ◌%◌, Bool, ◌&&◌, ◌||◌, Option, none, some, List, [], ◌∷◌, ◌++◌, ◌==◌, ltb,
  leb, if◌then◌else◌,
}
use ni_media.Boost.{FindIf}
use ni_media.Pcm.Format.{
  NumberType, signed_integer, unsigned_integer, floating_point, EndianType, big_endian,
  little_endian, bits, same_number, same_endian,
}
use ni_media.Pcm.Runtime.{RuntimeFormat, Result, throw, invalid_format_string, of_bits}

-- The groups of a match of "([fsu])([0-9]{1,2})(le|be|ne)". The second letter of the last group is
-- always an `e`, so its first letter stands for it.
pub record Match : Type 0 where
  pub number : ℕ
  pub bitwidth : List ℕ
  pub endian : ℕ

abbrev pub is_digit : ℕ → Bool
is_digit c = leb b'0' c && leb c b'9'

abbrev pub is_number : ℕ → Bool
is_number c = c == b'f' || c == b's' || c == b'u'

abbrev pub is_endian : ℕ → ℕ → Bool
is_endian c d = (c == b'l' || c == b'b' || c == b'n') && d == b'e'

-- `std::regex_match` matches the whole string, which has four characters or five.
pub regex_match : List ℕ → Option Match
regex_match (n ∷ i ∷ c ∷ d ∷ []) =
    if is_number n && is_digit i && is_endian c d
    then some (record { number = n; bitwidth = i ∷ []; endian = c })
    else none
regex_match (n ∷ i ∷ j ∷ c ∷ d ∷ []) =
    if is_number n && is_digit i && is_digit j && is_endian c d
    then some (record { number = n; bitwidth = i ∷ j ∷ []; endian = c })
    else none
regex_match _ = none

abbrev pub to_number : ℕ → NumberType
to_number c =
    if c == b'f' then floating_point else if c == b's' then signed_integer else unsigned_integer

-- `std::stoul` on a run of decimal digits, with the value so far.
pub stoul : ℕ → List ℕ → ℕ
stoul acc [] = acc
stoul acc (c ∷ cs) = stoul (acc * 10 + (c - b'0')) cs

abbrev pub to_endian : EndianType → ℕ → EndianType
to_endian native_endian c =
    if c == b'l' then little_endian else if c == b'b' then big_endian else native_endian

abbrev pub of_match :
    ⦃range : FindIf RuntimeFormat⦄ → EndianType → Option Match → Result RuntimeFormat
unfolding stoul
of_match native_endian none = throw invalid_format_string
of_match native_endian (some m) =
    of_bits (to_number m.number) (stoul 0 m.bitwidth) (to_endian native_endian m.endian)

-- From a string; "ne" names the byte order of the platform.
unfoldable pub of_string :
    ⦃range : FindIf RuntimeFormat⦄ → EndianType → List ℕ → Result RuntimeFormat
unfolding regex_match stoul
of_string native_endian str = of_match native_endian (regex_match str)

-- A bit width in decimal: all have one digit or two.
abbrev pub decimal : ℕ → List ℕ
decimal n = if ltb n 10 then (b'0' + n) ∷ [] else (b'0' + n / 10) ∷ (b'0' + n % 10) ∷ []

-- `operator<<` on a format.
unfoldable pub print : RuntimeFormat → List ℕ
print fmt =
    (if same_number fmt.number floating_point
      then b'f'
      else if same_number fmt.number signed_integer
      then b's'
      else b'u')
    ∷ (decimal (bits fmt.bitwidth)
        ++ (if same_endian fmt.endian big_endian then b'b' ∷ b'e' ∷ [] else b'l' ∷ b'e' ∷ []))
