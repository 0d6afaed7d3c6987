-- ===== src/Audio/Ogg/Source/Info.antt =====
-- Which files an Ogg source takes, and what it says of them.
use ni_media.Common.{◌≡◌, refl, arith, ◌⊎◌, inl, inr, ◌||◌, some, Bool-cases}
use ni_media.Common.Int.{ℤ, pos, ◌≤ℤ◌, ltb_ℤ}
use ni_media.Iostreams.Device.{Source}
use ni_media.Audio.Reader.{done, thrown}
use ni_media.Audio.Ogg.Vorbis.{
  OggError, empty_file, invalid_num_channels, invalid_sample_rate, VorbisInfo, VorbisFile,
}
use ni_media.Audio.Ogg.Source.{OggSource, check_info, read_info, ogg_info}

pub record IsSupported (num_frames : ℤ) (v : VorbisInfo) : Type 0 where
  pub some_frames : pos 1 ≤ℤ num_frames
  pub one_channel : pos 1 ≤ℤ v.channels
  pub few_channels : v.channels ≤ℤ pos 255
  pub fast : pos 8000 ≤ℤ v.rate
  pub slow : v.rate ≤ℤ pos 192000

module _ {S V : Type 0} (src : Source S) (lib : VorbisFile S V) where
  abbrev Checked : V → VorbisInfo → OggSource S V → Type 0
  Checked v vinfo st =
      (IsSupported (lib.ov_pcm_total v) vinfo × (check_info src lib v vinfo st ≡ (done tt, st)))
      ⊎ ((¬ IsSupported (lib.ov_pcm_total v) vinfo)
          × (e : OggError) × (check_info src lib v vinfo st ≡ (thrown e, st)))

  checked : (v : V) (vinfo : VorbisInfo) (st : OggSource S V) → Checked v vinfo st
  unfolding check_info
  checked v vinfo st = elim (Bool-cases (ltb_ℤ (lib.ov_pcm_total v) (pos 1))) [
    | inl bad ↦ inr (λ s. ground (arith, s.some_frames), empty_file, rw bad refl)
    | inr e1 ↦ elim (Bool-cases (ltb_ℤ vinfo.channels (pos 1) || ltb_ℤ (pos 255) vinfo.channels)) [
      | inl bad ↦ inr (
        λ s. ground (arith, s.one_channel, s.few_channels),
        invalid_num_channels vinfo.channels,
        rw (e1, bad) refl,
      )
      | inr e2 ↦ elim (Bool-cases (ltb_ℤ vinfo.rate (pos 8000) || ltb_ℤ (pos 192000) vinfo.rate)) [
        | inl bad ↦ inr (
          λ s. ground (arith, s.fast, s.slow),
          invalid_sample_rate vinfo.rate,
          rw (e1, e2, bad) refl,
        )
        | inr e3 ↦ inl (
          record {
            some_frames = ground arith;
            one_channel = ground arith;
            few_channels = ground arith;
            fast = ground arith;
            slow = ground arith;
          },
          rw (e1, e2, e3) refl,
        )
      ]
    ]
  ]

  -- An open Ogg file of one frame or more, with 1 to 255 channels and a rate from 8000 to 192000
  -- Hz, sets the information; any other is refused with an error, and the source is as before. The
  -- library knows the file's information.
  pub read_info_lem :
      (v : V) (vinfo : VorbisInfo) (st : OggSource S V)
      → st.vorbis_file ≡ some v
      → lib.ov_info v ≡ some vinfo
      → (IsSupported (lib.ov_pcm_total v) vinfo
          × (read_info src lib st
              ≡ (done tt, record st { info = ogg_info (lib.ov_pcm_total v) vinfo })))
        ⊎ ((¬ IsSupported (lib.ov_pcm_total v) vinfo)
            × (e : OggError) × (read_info src lib st ≡ (thrown e, st)))
  unfolding read_info
  read_info_lem v vinfo st is_open known =
      elim (checked v vinfo (record st { vorbis_file = some v })) [
        | inl (s, run) ↦ inl (s, rw (is_open, known, run) refl)
        | inr (bad, e, run) ↦ inr (bad, e, rw (is_open, known, run) refl)
      ]
