-- ===== src/Examples/Measures.antt =====
-- The theorems about latency at one chunk in French.
use lad_translate.Common.{All, ◌≡◌, refl, true, some, List, [], ◌∷◌, ◌++◌}
use lad_translate.Common.Int.{ℤ, pos, negsuc, ltb_ℤ, ◌≤ℤ◌}
use lad_translate.Common.Text.{Text, codes}
use lad_translate.Common.Dict
use lad_translate.Common.Dict.{Dict, text_key}
use lad_translate.Obs.Trace.{
  stage_key, committed, translated, tts_first_audio, published, ChunkTrace,
}
use lad_translate.Obs.Stats.{stats, breached}
use lad_translate.Obs.Stats.Figures.{stats-ordered}
use lad_translate.Obs.Latency.{LatencyRecorder, chunk_key, new_recorder, samples_of}

abbrev french : Text
french = codes "fr"

abbrev trace : ChunkTrace
trace = record {
  chunk_id = 7;
  language = french;
  audio_end_wall = pos 100;
  marks = (committed, pos 110) ∷ (translated, pos 130) ∷ (tts_first_audio, pos 160) ∷ [];
}

abbrev recorder : LatencyRecorder
recorder = record (new_recorder (pos 50) 1000) { open_chunks = ((7, french), trace) ∷ [] }

recorder_open : Dict.lookup (7, french) recorder.open_chunks ≡ some trace
unfolding Dict.lookup
recorder_open = refl

abbrev done : ChunkTrace
done = record trace { marks = trace.marks ++ (published, pos 170) ∷ [] }

abbrev series : List ℤ
series = pos 3 ∷ negsuc 1 ∷ pos 5 ∷ []

abbrev measured : LatencyRecorder
measured = record recorder { g2g = (french, series) ∷ [] }

stats-ordered_example :
    let s = (stats measured french).0 in
    (s.p50 ≤ℤ s.p95)
    × (s.p95 ≤ℤ s.p99)
    × (s.p99 ≤ℤ s.worst)
    × All (λ x. x ≤ℤ s.worst) (samples_of french measured.g2g)
    × (breached s (pos 2) ≡ true → ltb_ℤ (pos 2) s.worst ≡ true)
stats-ordered_example = stats-ordered measured french (pos 2)
