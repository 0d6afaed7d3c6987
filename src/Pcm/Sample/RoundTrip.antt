-- ===== src/Pcm/Sample/RoundTrip.antt =====
-- Reading a sample and writing one undo each other, as far as the widths allow.
use ni_media.Common.{
  ℕ, ◌-◌, ◌*◌, ◌/◌, ◌^◌, ◌≤◌, ◌<◌, ◌≡◌, refl, ap, ◌∙◌, arith, Bool, true, false, some, List, [],
  ◌∷◌, ◌++◌, length, length-append, append-nil,
}
use ni_media.Common.Bytes.{
  IsByte, All, le_bytes, le_value, le_value-le_bytes, le_bytes-le_value, le_value-lt,
  length-le_bytes,
}
use ni_media.Pcm.Format.{BitwidthType, bit8, bit24, EndianType, big_endian, little_endian, bits}
use ni_media.Pcm.Convert.{Size, size8, size_bits, IntType, width, IsValue, convert_to}
use ni_media.Pcm.Convert.Level.{level, convert_to-level, convert_to-IsValue, convert_to_back}
use ni_media.Pcm.Sample.{
  IntFormat, storage, storage_size, num_bytes, object_value, object_bytes, copy_n, load, read,
  write,
}
use ni_media.Pcm.Sample.Layout.{unused_bytes, stored_value, loaded_bytes}
use native.Mathlib.Nat.{le_trans}
use mathlib.Core.List.{reverse, reverse-reverse, reverse-cons}

copy_n-append : (bs rest : List ℕ) → copy_n (length bs) (bs ++ rest) ≡ some bs
unfolding copy_n
copy_n-append [] rest = refl
copy_n-append (b ∷ bs) rest = rw (copy_n-append bs rest) refl

All-append : (xs ys : List ℕ) → All IsByte xs → All IsByte ys → All IsByte (xs ++ ys)
All-append [] ys h k = k
All-append (x ∷ xs) ys h k = (h.0, All-append xs ys h.1 k)

length-reverse : (bs : List ℕ) → length (reverse bs) ≡ length bs
length-reverse [] = refl
length-reverse (b ∷ bs) =
    ap length (reverse-cons b bs)
    ∙ length-append (reverse bs) (b ∷ [])
    ∙ rw (length-reverse bs) (omega arith)

All-reverse : (bs : List ℕ) → All IsByte bs → All IsByte (reverse bs)
All-reverse [] h = tt
All-reverse (b ∷ bs) h =
    rw (reverse-cons b bs) (All-append (reverse bs) (b ∷ []) (All-reverse bs h.1) (h.0, tt))

-- What reading does to the first bytes of the input.
read-value :
    (native_endian : EndianType) (fmt : IntFormat) (value : IntType) (bs rest : List ℕ)
    → length bs ≡ num_bytes fmt
    → read native_endian fmt value (bs ++ rest)
      ≡ some (convert_to value (storage fmt) (256 ^ unused_bytes fmt * object_value fmt.endian bs))
unfolding read
read-value native_endian fmt value bs rest h = rw (copied, stored_value native_endian fmt bs) refl
  where
    copied : copy_n (num_bytes fmt) (bs ++ rest) ≡ some bs
    copied = rw (← h) (copy_n-append bs rest)

object_value-bytes :
    (e : EndianType) (n v : ℕ) → v < 256 ^ n → object_value e (object_bytes e n v) ≡ v
object_value-bytes little_endian n v h = le_value-le_bytes n v h
object_value-bytes big_endian n v h = rw (reverse-reverse (le_bytes n v)) (le_value-le_bytes n v h)

length-object_bytes : (e : EndianType) (n v : ℕ) → length (object_bytes e n v) ≡ n
length-object_bytes little_endian n v = length-le_bytes n v
length-object_bytes big_endian n v = length-reverse (le_bytes n v) ∙ length-le_bytes n v

object_bytes-value :
    (e : EndianType) (bs : List ℕ)
    → All IsByte bs
    → object_bytes e (length bs) (object_value e bs) ≡ bs
object_bytes-value little_endian bs h = le_bytes-le_value bs h
object_bytes-value big_endian bs h =
    ap reverse {x = le_bytes (length bs) (le_value (reverse bs))} {y = reverse bs}
      (rw (← length-reverse bs) (le_bytes-le_value (reverse bs) (All-reverse bs h)))
    ∙ reverse-reverse bs

object_value-lt :
    (e : EndianType) (bs : List ℕ) → All IsByte bs → object_value e bs < 256 ^ length bs
object_value-lt little_endian bs h = le_value-lt bs h
object_value-lt big_endian bs h =
    rw (← length-reverse bs) (le_value-lt (reverse bs) (All-reverse bs h))

-- The bytes that the storage of a sample has more.
abbrev unused : BitwidthType → ℕ
unused b = size_bits (storage_size b) / 8 - bits b / 8

storage_wide : (b : BitwidthType) → bits b ≤ size_bits (storage_size b)
storage_wide bit8 = omega arith
storage_wide _ = omega arith

top_fits :
    (b : BitwidthType) (c : ℕ)
    → c < 2 ^ size_bits (storage_size b)
    → c / 256 ^ unused b < 256 ^ (bits b / 8)
top_fits bit8 c h = omega arith
top_fits _ c h = omega arith

shifted_fits :
    (b : BitwidthType) (y : ℕ)
    → y < 256 ^ (bits b / 8)
    → 256 ^ unused b * y < 2 ^ size_bits (storage_size b)
shifted_fits bit8 y h = omega arith
shifted_fits _ y h = omega arith

unshift : (b : BitwidthType) (y : ℕ) → 256 ^ unused b * y / 256 ^ unused b ≡ y
unshift bit8 y = omega arith
unshift _ y = omega arith

-- A type as wide as the sample is as wide as the storage: there is none of 24 bits.
as_wide_as_storage :
    (b : BitwidthType) (z : Size) → bits b ≤ size_bits z → size_bits (storage_size b) ≤ size_bits z
as_wide_as_storage bit24 size8 w = omega arith
as_wide_as_storage bit24 _ w = omega arith
as_wide_as_storage _ z w = w

-- A level that was scaled up from no more bits than the sample has leaves the unused byte at zero.
low_byte_zero :
    (s : Bool) (b : BitwidthType) (z : Size) (n c : ℕ)
    → size_bits z ≤ bits b
    → let t : IntType = record { is_signed = s; size = storage_size b } in
      IsValue t c
      → level t c ≡ n * 2 ^ width t / 2 ^ size_bits z
      → 256 ^ unused b * (c / 256 ^ unused b) ≡ c
low_byte_zero true bit24 size8 n c w hc e = omega arith
low_byte_zero true bit24 _ n c w hc e = omega arith
low_byte_zero false bit24 size8 n c w hc e = omega arith
low_byte_zero false bit24 _ n c w hc e = omega arith
low_byte_zero s bit8 z n c w hc e = omega arith
low_byte_zero s _ z n c w hc e = omega arith

-- Reading back an integer sample that was written gives the value that was written, on a platform
-- of either byte order, if the value's type has no more bits than the format and the value is one
-- of its type; bytes behind the sample do not matter.
pub read-write :
    (native_endian : EndianType) (fmt : IntFormat) (value : IntType) (x : ℕ) (rest : List ℕ)
    → width value ≤ bits fmt.bitwidth
    → IsValue value x
    → read native_endian fmt value (write native_endian fmt value x ++ rest) ≡ some x
unfolding write
read-write native_endian fmt value x rest w h =
    let b = fmt.bitwidth in
    let c = convert_to (storage fmt) value x in
    let hc : IsValue (storage fmt) c = convert_to-IsValue (storage fmt) value x h in
    let top = c / 256 ^ unused b in
    rw (loaded_bytes native_endian fmt c) (
      read-value native_endian fmt value (object_bytes fmt.endian (num_bytes fmt) top) rest
        (length-object_bytes fmt.endian (num_bytes fmt) top)
      ∙ ap (λ (t : ℕ). some (convert_to value (storage fmt) (256 ^ unused b * t)))
          (object_value-bytes fmt.endian (num_bytes fmt) top (top_fits b c hc))
      ∙ ap (λ (t : ℕ). some (convert_to value (storage fmt) t))
          (low_byte_zero fmt.is_signed b value.size (level value x) c w hc
            (convert_to-level (storage fmt) value x h))
      ∙ ap some (convert_to_back (storage fmt) value x (le_trans w (storage_wide b)) h))

was_read :
    (native_endian : EndianType) (fmt : IntFormat) (value : IntType) (bs : List ℕ) {v : ℕ}
    → length bs ≡ num_bytes fmt
    → read native_endian fmt value bs ≡ some v
    → v ≡ convert_to value (storage fmt) (256 ^ unused fmt.bitwidth * object_value fmt.endian bs)
was_read native_endian fmt value bs n e = cc (
  e,
  ap (read native_endian fmt value) (append-nil bs),
  read-value native_endian fmt value bs [] n,
)

-- Writing back an integer sample that was read from bytes gives those bytes, if they are as many as
-- the format's samples have and the value's type has at least as many bits as the format.
pub write-read :
    (native_endian : EndianType) (fmt : IntFormat) (value : IntType) (bs : List ℕ) {v : ℕ}
    → length bs ≡ num_bytes fmt
    → All IsByte bs
    → bits fmt.bitwidth ≤ width value
    → read native_endian fmt value bs ≡ some v
    → write native_endian fmt value v ≡ bs
unfolding write
write-read native_endian fmt value bs {v} n h w e =
    let b = fmt.bitwidth in
    let y = object_value fmt.endian bs in
    let c = 256 ^ unused b * y in
    let fits : y < 256 ^ num_bytes fmt = rw n at (object_value-lt fmt.endian bs h) in
    let hc : IsValue (storage fmt) c = shifted_fits b y fits in
    let back : convert_to (storage fmt) value v ≡ c =
      rw (was_read native_endian fmt value bs n e)
        (convert_to_back value (storage fmt) c (as_wide_as_storage b value.size w) hc) in
    rw (back, loaded_bytes native_endian fmt c)
      (ap (object_bytes fmt.endian (num_bytes fmt)) (unshift b y)
        ∙ rw (← n) (object_bytes-value fmt.endian bs h))

pub length-write :
    (native_endian : EndianType) (fmt : IntFormat) (value : IntType) (x : ℕ)
    → length (write native_endian fmt value x) ≡ num_bytes fmt
unfolding write
length-write native_endian fmt value x =
    let c = convert_to (storage fmt) value x in
    rw (loaded_bytes native_endian fmt c)
      (length-object_bytes fmt.endian (num_bytes fmt) (c / 256 ^ unused fmt.bitwidth))

-- A sample is read of its own bytes only.
pub read-copy_n :
    (native_endian : EndianType) (fmt : IntFormat) (value : IntType) (bs bs' : List ℕ)
    → copy_n (num_bytes fmt) bs ≡ copy_n (num_bytes fmt) bs'
    → read native_endian fmt value bs ≡ read native_endian fmt value bs'
unfolding read load
read-copy_n native_endian fmt value bs bs' e = rw e refl
