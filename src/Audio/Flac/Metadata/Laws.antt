-- ===== src/Audio/Flac/Metadata/Laws.antt =====
-- Which metadata a FLAC source takes, and what it refuses.
use ni_media.Common.{
  ℕ, ◌≤◌, ◌<◌, ◌≡◌, ◌≢◌, refl, ap, ◌∙◌, sym, arith, ◌⊎◌, inl, inr, false, not, ◌||◌, ◌==◌, ltb,
  Bool-cases,
}
use ni_media.Boost.{FindIf}
use ni_media.Iostreams.Device.{Source}
use ni_media.Pcm.Format.{
  BitwidthType, bits, bit8, bit16, bit24, bit32, bit64, signed_integer, little_endian,
}
use ni_media.Pcm.Runtime.{RuntimeFormat, of_bits, ok, invalid_bitwidth}
use ni_media.Pcm.Runtime.Laws.{format, of_parts_lem, of_bits_lem}
use ni_media.Audio.Info.{IfstreamInfo, bytes_per_sample}
use ni_media.Audio.Reader.{done, thrown}
use ni_media.Audio.Flac.Decoder.{
  FlacError, StreamInfoBlock, stream_info, empty_file, invalid_num_channels,
  invalid_bits_per_sample, invalid_sample_rate, variable_blocksize, invalid_format,
}
use ni_media.Audio.Flac.Metadata.{
  FlacSource, check_metadata, metadata_callback, set_info, metadata_info, audio_bytes,
}

-- What the source takes: the limits of FLAC, blocks of one size, and whole bytes.
pub record IsSupported (m : StreamInfoBlock) (width : BitwidthType) : Type 0 where
  pub some_samples : 0 < m.total_samples
  pub one_channel : 1 ≤ m.channels
  pub few_channels : m.channels ≤ 8
  pub whole_bytes : bits width ≡ m.bits_per_sample
  pub narrow : m.bits_per_sample ≤ 32
  pub some_rate : 1 ≤ m.sample_rate
  pub low_rate : m.sample_rate ≤ 655350
  pub constant : m.min_blocksize ≡ m.max_blocksize

-- The channels and the bytes of a sample are few, as FLAC has them.
pub record IsFlacInfo (info : IfstreamInfo) : Type 0 where
  pub few_channels : info.stream.num_channels ≤ 8
  pub narrow : bytes_per_sample info.stream ≤ 4

supported_bits : (width : BitwidthType) (n : ℕ) → bits width ≡ n → n ≤ 32 → (4 ≤ n) × (n ≤ 32)
supported_bits width n e h = ground arith

-- A number of bits is that of a width, or of none.
width_cases :
    (n : ℕ)
    → ((width : BitwidthType) × (bits width ≡ n)) ⊎ ((width : BitwidthType) → bits width ≢ n)
width_cases n = elim (Bool-cases (n == 8)) [
  | inl e ↦ inl (bit8, ground arith)
  | inr n8 ↦ elim (Bool-cases (n == 16)) [
    | inl e ↦ inl (bit16, ground arith)
    | inr n16 ↦ elim (Bool-cases (n == 24)) [
      | inl e ↦ inl (bit24, ground arith)
      | inr n24 ↦ elim (Bool-cases (n == 32)) [
        | inl e ↦ inl (bit32, ground arith)
        | inr n32 ↦ elim (Bool-cases (n == 64)) [
          | inl e ↦ inl (bit64, ground arith)
          | inr n64 ↦ inr (λ width e. ground arith)
        ]
      ]
    ]
  ]
]

module _ ⦃range : FindIf RuntimeFormat⦄ where
  check_metadata-supported :
      {X : Type 0} (m : StreamInfoBlock) (width : BitwidthType) (st : X)
      → IsSupported m width
      → check_metadata m st ≡ (done (format signed_integer width little_endian), st)
  unfolding check_metadata
  check_metadata-supported m width st s =
      let fmt : of_bits signed_integer m.bits_per_sample little_endian
          ≡ ok (format signed_integer width little_endian) =
        ap (λ (n : ℕ). of_bits signed_integer n little_endian) (sym s.whole_bytes)
        ∙ (of_bits_lem signed_integer little_endian).0 width
        ∙ of_parts_lem signed_integer width little_endian in
      let e1 : (m.total_samples == 0) ≡ false = ground (arith, s.some_samples) in
      let e2 : (ltb m.channels 1 || ltb 8 m.channels) ≡ false =
        ground (arith, s.one_channel, s.few_channels) in
      let e3 : (ltb m.bits_per_sample 4 || ltb 32 m.bits_per_sample) ≡ false =
        ground (arith, supported_bits width m.bits_per_sample s.whole_bytes s.narrow) in
      let e4 : (ltb m.sample_rate 1 || ltb 655350 m.sample_rate) ≡ false =
        ground (arith, s.some_rate, s.low_rate) in
      let e5 : not (m.min_blocksize == m.max_blocksize) ≡ false = ground (arith, s.constant) in
      rw (e1, e2, e3, e4, e5, fmt) refl

  -- A block of metadata that the source takes, or the error that it is refused with.
  abbrev Checked : {X : Type 0} → StreamInfoBlock → X → Type 0
  Checked m st =
      ((width : BitwidthType) × IsSupported m width
        × (check_metadata m st ≡ (done (format signed_integer width little_endian), st)))
      ⊎ (((width : BitwidthType) → ¬ IsSupported m width)
          × (e : FlacError) × (check_metadata m st ≡ (thrown e, st)))

  checked : {X : Type 0} (m : StreamInfoBlock) (st : X) → Checked m st
  unfolding check_metadata
  checked m st = elim (Bool-cases (m.total_samples == 0)) [
    | inl bad ↦ inr (λ w s. ground (arith, s.some_samples), empty_file, rw bad refl)
    | inr e1 ↦ elim (Bool-cases (ltb m.channels 1 || ltb 8 m.channels)) [
      | inl bad ↦ inr (
        λ w s. ground (arith, s.one_channel, s.few_channels),
        invalid_num_channels m.channels,
        rw (e1, bad) refl,
      )
      | inr e2 ↦ elim (Bool-cases (ltb m.bits_per_sample 4 || ltb 32 m.bits_per_sample)) [
        | inl bad ↦ inr (
          λ w s. ground (arith, supported_bits w m.bits_per_sample s.whole_bytes s.narrow),
          invalid_bits_per_sample m.bits_per_sample,
          rw (e1, e2, bad) refl,
        )
        | inr e3 ↦ elim (Bool-cases (ltb m.sample_rate 1 || ltb 655350 m.sample_rate)) [
          | inl bad ↦ inr (
            λ w s. ground (arith, s.some_rate, s.low_rate),
            invalid_sample_rate m.sample_rate,
            rw (e1, e2, e3, bad) refl,
          )
          | inr e4 ↦ elim (Bool-cases (not (m.min_blocksize == m.max_blocksize))) [
            | inl bad ↦ inr (
              λ w s. ground (arith, s.constant),
              variable_blocksize,
              rw (e1, e2, e3, e4, bad) refl,
            )
            | inr e5 ↦ elim (width_cases m.bits_per_sample) [
              | inl (w, e) ↦
                  let s : IsSupported m w = record {
                    some_samples = ground arith;
                    one_channel = ground arith;
                    few_channels = ground arith;
                    whole_bytes = e;
                    narrow = ground arith;
                    some_rate = ground arith;
                    low_rate = ground arith;
                    constant = ground arith;
                  } in
                  inl (w, s, check_metadata-supported m w st s)
              | inr none_ ↦
                  let refused =
                    (of_bits_lem signed_integer little_endian).1 m.bits_per_sample none_ in
                  inr (
                    λ w s. none_ w s.whole_bytes,
                    invalid_format invalid_bitwidth,
                    rw (e1, e2, e3, e4, e5, refused) refl,
                  )
            ]
          ]
        ]
      ]
    ]
  ]

-- The information of a file with metadata that the source takes.
abbrev pub info_of : {S : Type 0} → Source S → StreamInfoBlock → BitwidthType → S → IfstreamInfo
info_of src m width s =
    metadata_info m (format signed_integer width little_endian) (audio_bytes src s).0

info_of-IsFlacInfo :
    {S : Type 0} (src : Source S) (m : StreamInfoBlock) (width : BitwidthType) (s : S)
    → IsSupported m width
    → IsFlacInfo (info_of src m width s)
unfolding metadata_info bytes_per_sample
info_of-IsFlacInfo src m width s supported = record {
  few_channels = supported.few_channels;
  narrow = ground arith;
}

module _ ⦃range : FindIf RuntimeFormat⦄ {S D : Type 0} (src : Source S) where
  -- Metadata within the limits of FLAC, with blocks of one size and a width of whole bytes, set the
  -- information of the file, which has 8 channels and 4 bytes of a sample at most; any other
  -- metadata are refused with an error, and the source is as before.
  pub metadata_callback_lem :
      (m : StreamInfoBlock) (st : FlacSource S D)
      → ((width : BitwidthType) × IsSupported m width
          × (metadata_callback src (stream_info m) st ≡ (
            done tt,
            record st {
              source = (audio_bytes src st.source).1;
              info = info_of src m width st.source;
            },
          ))
          × IsFlacInfo (info_of src m width st.source))
        ⊎ (((width : BitwidthType) → ¬ IsSupported m width)
            × (e : FlacError) × (metadata_callback src (stream_info m) st ≡ (thrown e, st)))
  unfolding metadata_callback set_info metadata_info
  metadata_callback_lem m st = elim (checked m st) [
    | inl (width, s, e) ↦ inl (width, s, rw e refl, info_of-IsFlacInfo src m width st.source s)
    | inr (bad, error, e) ↦ inr (bad, error, rw e refl)
  ]
