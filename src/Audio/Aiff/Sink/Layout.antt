-- ===== src/Audio/Aiff/Sink/Layout.antt =====
-- The bytes of a file as the AIFF sink lays them out.
use ni_media.Common.{ℕ, ◌+◌, ◌%◌, ◌^◌, ◌≡◌, arith, List, ◌++◌, length, length-append, replicate}
use ni_media.Boost.{BigEndian, length-object}
use ni_media.Pcm.Format.{bits}
use ni_media.Audio.Info.{StreamInfo}
use ni_media.Audio.Ieee80.{Ieee80}
use ni_media.Audio.Aiff.Chunks.{aifc, form, comm, ssnd}

abbrev pub rate_bytes : ⦃ieee : Ieee80⦄ → StreamInfo → List ℕ
rate_bytes ⦃ieee⦄ i = ieee.of_double (ieee.of_size_t i.sample_rate)

module _ ⦃big : BigEndian⦄ ⦃ieee : Ieee80⦄ where
  -- What the header holds between the three sizes.
  abbrev pub form_and_channels : StreamInfo → List ℕ
  form_and_channels i =
      big.object 4 aifc
      ++ (big.object 4 comm ++ (big.object 4 22 ++ big.object 2 (i.num_channels % 2 ^ 16)))

  abbrev pub format_and_ssnd : StreamInfo → ℕ → List ℕ
  format_and_ssnd i tag =
      big.object 2 (bits i.format.bitwidth)
      ++ (rate_bytes i ++ (big.object 4 tag ++ big.object 4 ssnd))

  -- A file with its three sizes, as the sink lays it out.
  abbrev pub sink_file : StreamInfo → ℕ → ℕ → ℕ → ℕ → List ℕ → List ℕ
  sink_file i tag form_size frames sound_size samples =
      big.object 4 form
      ++ (big.object 4 form_size
          ++ (form_and_channels i
              ++ (big.object 4 frames
                  ++ (format_and_ssnd i tag
                      ++ (big.object 4 sound_size ++ (replicate 8 0 ++ samples))))))

  pub length-form_and_channels : (i : StreamInfo) → length (form_and_channels i) ≡ 14
  length-form_and_channels i =
      let c = big.object 2 (i.num_channels % 2 ^ 16) in
      omega (
        arith,
        length-append (big.object 4 aifc) (big.object 4 comm ++ (big.object 4 22 ++ c)),
        length-append (big.object 4 comm) (big.object 4 22 ++ c),
        length-append (big.object 4 22) c,
        length-object 4 aifc,
        length-object 4 comm,
        length-object 4 22,
        length-object 2 (i.num_channels % 2 ^ 16),
      )

  pub length-format_and_ssnd : (i : StreamInfo) (tag : ℕ) → length (format_and_ssnd i tag) ≡ 20
  length-format_and_ssnd i tag =
      let w = big.object 2 (bits i.format.bitwidth) in
      let t = big.object 4 tag ++ big.object 4 ssnd in
      omega (
        arith,
        length-append w (rate_bytes i ++ t),
        length-append (rate_bytes i) t,
        length-append (big.object 4 tag) (big.object 4 ssnd),
        length-object 2 (bits i.format.bitwidth),
        ieee.length-of_double (ieee.of_size_t i.sample_rate),
        length-object 4 tag,
        length-object 4 ssnd,
      )

  pub length-sink_file :
      (i : StreamInfo) (tag a b c : ℕ) (samples : List ℕ)
      → length (sink_file i tag a b c samples) ≡ 58 + length samples
  length-sink_file i tag a b c samples =
      let r1 = replicate 8 0 ++ samples in
      let r2 = big.object 4 c ++ r1 in
      let r3 = format_and_ssnd i tag ++ r2 in
      let r4 = big.object 4 b ++ r3 in
      let r5 = form_and_channels i ++ r4 in
      let r6 = big.object 4 a ++ r5 in
      omega (
        arith,
        length-append (big.object 4 form) r6,
        length-append (big.object 4 a) r5,
        length-append (form_and_channels i) r4,
        length-append (big.object 4 b) r3,
        length-append (format_and_ssnd i tag) r2,
        length-append (big.object 4 c) r1,
        length-append (replicate 8 0) samples,
        length-object 4 form,
        length-object 4 a,
        length-object 4 b,
        length-object 4 c,
        length-form_and_channels i,
        length-format_and_ssnd i tag,
      )
