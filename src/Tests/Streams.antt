-- ===== src/Tests/Streams.antt =====
-- A stream that has failed, of stereo frames with 16 bits.
use ni_media.Common.{◌-◌, ◌/◌, ◌^◌, ◌≡◌, refl, arith}
use ni_media.Common.Int.{ℤ, pos, negsuc}
use ni_media.Pcm.Format.{little_endian, signed_integer, bit16}
use ni_media.Pcm.Runtime.Laws.{format}
use ni_media.Audio.Info.{StreamInfo, bytes_per_sample, bytes_per_frame}
use ni_media.Audio.Istream.{StdIstream, frame_tellg, sample_tellg}
use ni_media.Audio.Istream.Laws.{frame_tellg_failed}

-- A stream that is its own position.
abbrev position_only : StdIstream ℤ
position_only = record {
  seekg = λ p s. p;
  seekg_off = λ off dir s. off;
  tellg = λ s. (s, s);
  gcount = λ s. pos 0;
}

abbrev stereo16 : StreamInfo
stereo16 = record {
  sample_rate = 44100;
  num_channels = 2;
  own_bit_rate = 0;
  format = format signed_integer bit16 little_endian;
}

two_bytes : bytes_per_sample stereo16 ≡ 2
unfolding bytes_per_sample
two_bytes = refl

four_bytes : bytes_per_frame stereo16 ≡ 4
unfolding bytes_per_frame bytes_per_sample
four_bytes = refl

frame_tellg_failed_example :
    (frame_tellg position_only stereo16 (negsuc 0)
      ≡ (pos ((2 ^ 64 - 1) / bytes_per_frame stereo16), negsuc 0))
    × (sample_tellg position_only stereo16 (negsuc 0)
        ≡ (pos ((2 ^ 64 - 1) / bytes_per_sample stereo16), negsuc 0))
frame_tellg_failed_example =
    frame_tellg_failed position_only stereo16 (negsuc 0) (negsuc 0) refl (omega (arith, two_bytes))
      (omega (arith, four_bytes))
