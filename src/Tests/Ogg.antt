-- ===== src/Tests/Ogg.antt =====
-- An Ogg source over two stereo samples of a file.
use ni_media.Common.{
  ℕ, ◌*◌, ◌≡◌, ◌≤◌, ◌<◌, refl, arith, ◌⊎◌, inl, inr, true, false, some, List, [], ◌∷◌, ◌++◌, length,
  drop, if◌then◌else◌, suc, zero,
}
use ni_media.Common.Int.{pos, ltb_ℤ}
use ni_media.Boost.{algorithms}
use ni_media.Iostreams.Device.{eof, Source}
use ni_media.Audio.Info.{bytes_per_frame, bytes_per_sample, num_bytes, num_samples}
use ni_media.Audio.Reader.{done, thrown}
use ni_media.Audio.Ogg.Vorbis.{OggError, VorbisInfo, VorbisFile, OvRead, ov_bytes}
use ni_media.Audio.Ogg.Source.{OggSource, callbacks, read, seek, read_info, ogg_info}
use ni_media.Audio.Ogg.Source.Laws.{IsVorbis, IsAt, no_bytes, read-vorbis_file}
use ni_media.Audio.Ogg.Source.Info.{IsSupported, read_info_lem}
use ni_media.Pcm.Runtime.{of_compiletime}

data Place : Type 0 where
  first_frame second_frame behind : Place

abbrev decoded : List ℕ
decoded = 1 ∷ 0 ∷ 2 ∷ 0 ∷ 3 ∷ 0 ∷ 4 ∷ 0 ∷ []

abbrev bytes_left : Place → Unit {0} → List ℕ
bytes_left first_frame s = 1 ∷ 0 ∷ 2 ∷ 0 ∷ 3 ∷ 0 ∷ 4 ∷ 0 ∷ []
bytes_left second_frame s = 3 ∷ 0 ∷ 4 ∷ 0 ∷ []
bytes_left behind s = []

abbrev one_frame : Place → OvRead × Place
one_frame first_frame = (ov_bytes (1 ∷ 0 ∷ 2 ∷ 0 ∷ []), second_frame)
one_frame second_frame = (ov_bytes (3 ∷ 0 ∷ 4 ∷ 0 ∷ []), behind)
one_frame behind = (ov_bytes [], behind)

abbrev place_of : ℕ → Place
place_of zero = first_frame
place_of (suc zero) = second_frame
place_of (suc (suc n)) = behind

abbrev vorbis_info : VorbisInfo
vorbis_info = record { channels = pos 2; rate = pos 44100; bitrate_nominal = pos 128000 }

abbrev two_frames : VorbisFile (Unit {0}) Place
two_frames = record {
  ov_open_callbacks = λ calls s. (done (some first_frame), s);
  ov_info = λ v. some vorbis_info;
  ov_pcm_total = λ v. pos 2;
  ov_read = λ calls n v s. (done (if ltb_ℤ n (pos 4) then (ov_bytes [], v) else one_frame v), s);
  ov_pcm_seek = λ calls k v s. (done (true, place_of k), s);
}

abbrev no_file : Source (Unit {0})
no_file = record { read = λ n s. (eof, s); seek = λ off way s. (pos 0, s) }

abbrev Always : Place → Unit {0} → Type 0
Always v s = Unit

frame_more :
    (v : Place) (s : Unit {0}) (n : ℕ)
    → Always v s
    → 0 < length (bytes_left v s)
    → 4 ≤ n
    → (bs : List ℕ) × (k : ℕ) × (v' : Place) × (s' : Unit {0}) × (two_frames.ov_read
          (callbacks no_file)
          (pos n)
          v
          s
        ≡ (done (ov_bytes bs, v'), s'))
      × (length bs ≡ suc k * 4)
      × (length bs ≤ n)
      × Always v' s'
      × (bytes_left v s ≡ bs ++ bytes_left v' s')
frame_more first_frame s n r h room =
    let e : ltb_ℤ (pos n) (pos 4) ≡ false = ground arith in
    (1 ∷ 0 ∷ 2 ∷ 0 ∷ [], 0, second_frame, s, rw e refl, refl, room, tt, refl)
frame_more second_frame s n r h room =
    let e : ltb_ℤ (pos n) (pos 4) ≡ false = ground arith in
    (3 ∷ 0 ∷ 4 ∷ 0 ∷ [], 0, behind, s, rw e refl, refl, room, tt, refl)
frame_more behind s n r h room = absurd (omega arith)

frame_nothing :
    (v : Place) (s : Unit {0}) (n : ℕ)
    → Always v s
    → (n < 4) ⊎ (bytes_left v s ≡ [])
    → (ret : OvRead) × (v' : Place) × (s' : Unit {0}) × (two_frames.ov_read
          (callbacks no_file)
          (pos n)
          v
          s
        ≡ (done (ret, v'), s'))
      × (no_bytes ret ≡ true)
      × Always v' s'
      × (bytes_left v' s' ≡ bytes_left v s)
frame_nothing v s n r (inl short) =
    let e : ltb_ℤ (pos n) (pos 4) ≡ true = ground arith in
    (ov_bytes [], v, s, rw e refl, refl, tt, refl)
frame_nothing first_frame s n r (inr e) = absurd cc
frame_nothing second_frame s n r (inr e) = absurd cc
frame_nothing behind s n r (inr e) = (ov_bytes [], behind, s, ground arith, refl, tt, refl)

frame_sought :
    (v : Place) (s : Unit {0}) (k : ℕ)
    → Always v s
    → k * 4 ≤ length decoded
    → (v' : Place) × (s' : Unit {0}) × (two_frames.ov_pcm_seek (callbacks no_file) k v s
        ≡ (done (true, v'), s'))
      × Always v' s'
      × (bytes_left v' s' ≡ drop (k * 4) decoded)
frame_sought v s zero r h = (first_frame, s, refl, tt, refl)
frame_sought v s (suc zero) r h = (second_frame, s, refl, tt, refl)
frame_sought v s (suc (suc zero)) r h = (behind, s, refl, tt, refl)
frame_sought v s (suc (suc (suc k))) r h = absurd (omega arith)

two_frames-IsVorbis : IsVorbis no_file two_frames 4 decoded Always bytes_left
two_frames-IsVorbis = record { more = frame_more; nothing = frame_nothing; sought = frame_sought }

abbrev opened_ogg : OggSource (Unit {0}) Place
opened_ogg = record {
  source = tt;
  pos = pos 0;
  vorbis_file = some first_frame;
  info = ogg_info (pos 2) vorbis_info;
}

opened_ogg-IsAt : IsAt 4 decoded Always bytes_left 0 opened_ogg
unfolding num_bytes num_samples bytes_per_frame bytes_per_sample of_compiletime
opened_ogg-IsAt = record {
  file = first_frame;
  is_open = refl;
  ready = tt;
  inside = omega arith;
  rest = refl;
  same_pos = refl;
  size = refl;
  same_frame = refl;
}

read-vorbis_file_example :
    (st : OggSource (Unit {0}) Place) × (read no_file two_frames 4 8 opened_ogg
      ≡ (done decoded, st))
    × IsAt 4 decoded Always bytes_left 8 st
read-vorbis_file_example =
    read-vorbis_file no_file two_frames 4 decoded Always bytes_left two_frames-IsVorbis
      (omega arith) (omega arith) 0 2 4 opened_ogg opened_ogg-IsAt (omega arith) (omega arith)

read_info_lem_example :
    (IsSupported (pos 2) vorbis_info
      × (read_info no_file two_frames opened_ogg
          ≡ (done tt, record opened_ogg { info = ogg_info (pos 2) vorbis_info })))
    ⊎ ((¬ IsSupported (pos 2) vorbis_info)
        × (e : OggError) × (read_info no_file two_frames opened_ogg ≡ (thrown e, opened_ogg)))
read_info_lem_example =
    read_info_lem no_file two_frames first_frame vorbis_info opened_ogg refl refl
