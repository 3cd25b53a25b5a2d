-- ===== src/Examples/Recogniser.antt =====
-- The theorems about the streaming recogniser with a small geometry and a toy encoder.
use lad_translate.Common.{
  length, take, drop, All, ℕ, ◌+◌, ◌-◌, ◌≤◌, ◌≡◌, refl, some, [], ◌∷◌, arith,
}
use lad_translate.Common.Text.{codes, split}
use lad_translate.Adapters.Events.{AudioFrame}
use lad_translate.Stt.Geometry.{StreamingGeometry}
use lad_translate.Stt.Schedule.Offers.{IsUsable}
use lad_translate.Stt.Frames.{FeatureBuffer, slice}
use lad_translate.Stt.Frames.Windows.{slice-range}
use lad_translate.Stt.Clock.{WordClock, new_clock, stamp}
use lad_translate.Stt.Clock.Stamps.{IsStamped, spoken_words, stamp-timings}
use lad_translate.Stt.Transcribe.{Encoder, new_stream, transcribe}
use lad_translate.Stt.Transcribe.End.{Returns, transcribe-Returns}

abbrev small : StreamingGeometry
small = record {
  chunk_size_first = 3;
  chunk_size = 4;
  shift_size_first = 3;
  shift_size = 4;
  pre_encode_cache_first = 0;
  pre_encode_cache = 2;
  drop_extra_pre_encoded = 1;
  subsampling_factor = 8;
}

small-IsUsable : IsUsable small
small-IsUsable = record {
  moves = omega arith;
  first = omega arith;
  covers_first = omega arith;
  covers = omega arith;
}

-- The samples are the frames, and the cache counts the steps.
abbrev toy : Encoder ℕ ℕ
toy = record {
  resample = λ f. f.pcm;
  featurise = λ samples. samples;
  zeros = 0;
  encode = λ cache frames keep_all drop_extra. (cache + 1, codes "word");
}

abbrev audio : AudioFrame
audio = record { pcm = 1 ∷ 2 ∷ 3 ∷ 4 ∷ 5 ∷ []; sample_rate = 16000; t_audio = 0; t_wall = 0 }

transcribe-Returns_example : Returns toy (codes "en") (
    transcribe toy (codes "en") 2 (new_stream 0 small new_clock 0) ((audio, 1) ∷ (audio, 2) ∷ []) 3)
transcribe-Returns_example =
    transcribe-Returns toy (codes "en") 2 0 small new_clock 0 ((audio, 1) ∷ (audio, 2) ∷ []) 3
      small-IsUsable (omega arith)

-- Five frames have come, and the first two are gone.
abbrev buffer : FeatureBuffer ℕ
buffer = record { frames = some (3 ∷ 4 ∷ 5 ∷ []); window = record { origin = 2; total = 5 } }

slice-range_example : slice buffer 3 5 ≡ some (take (5 - 3) (drop 3 (1 ∷ 2 ∷ 3 ∷ 4 ∷ 5 ∷ [])))
slice-range_example =
    slice-range (1 ∷ 2 ∷ 3 ∷ 4 ∷ 5 ∷ []) buffer 3 5
      (record { all = refl; inside = omega arith; holds = refl; tensor = tt }) (omega arith)
      (omega arith) (omega arith)

abbrev clock : WordClock
clock = record { words = codes "we" ∷ codes "met" ∷ []; ends = 10 ∷ 20 ∷ [] }

stamp-timings_example :
    (spoken_words (stamp clock (codes "we meet again") 30).0 ≡ split (codes "we meet again"))
    × All
        (λ w. (w.t_audio_start ≤ w.t_audio_end) × (w.t_audio_end ≤ 30))
        (stamp clock (codes "we meet again") 30).0
    × IsStamped (stamp clock (codes "we meet again") 30).1 30
stamp-timings_example =
    stamp-timings clock (codes "we meet again") 20 30
      (record { aligned = refl; rising = (omega arith, (omega arith, omega arith)) }) (omega arith)

three_words : length (split (codes "we meet again")) ≡ 3
unfolding split
three_words = refl
