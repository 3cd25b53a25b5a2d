-- ===== src/Examples/Speech.antt =====
-- The theorems about a worker with one phrase in French.
use lad_translate.Common.{ℕ, ◌≡◌, refl, ◌≢◌, true, false, Option, none, some, [], ◌∷◌}
use lad_translate.Common.Int.{pos}
use lad_translate.Common.Text.{Text, codes}
use lad_translate.Common.Dict
use lad_translate.Common.Dict.{Dict, text_key}
use lad_translate.Chunker.Types.{PhraseChunk, clause}
use lad_translate.Obs.Trace.{ChunkTrace, committed}
use lad_translate.Obs.Latency.{chunk_key, new_recorder}
use lad_translate.Session.Drift.{
  DriftController, default_policy_values, new_drift, observe, should_skip,
}
use lad_translate.Session.Pipeline.{Pipeline, is_blank, speak}

abbrev pub french : Text
french = codes "fr"

abbrev pub phrase : PhraseChunk
phrase = record {
  chunk_id = 7;
  text = codes "good morning";
  t_audio_start = 0;
  t_audio_end = 2_000_000_000;
  t_wall_committed = 3_000_000_000;
  reason = clause;
  word_count = 2;
  stability_lag = 0;
  revised_after_commit = false;
}

abbrev trace : ChunkTrace
trace = record {
  chunk_id = 7;
  language = french;
  audio_end_wall = pos 2_500_000_000;
  marks = (committed, pos 3_000_000_000) ∷ [];
}

abbrev controller : DriftController
controller = record {
  default_policy = default_policy_values;
  policies = [];
  state = (french, new_drift french) ∷ [];
}

abbrev pipeline : Pipeline
pipeline = record {
  targets = french ∷ [];
  recorder = record (new_recorder (pos 2_000_000_000) 100) {
    open_chunks = ((7, french), trace) ∷ [];
  };
  drift = controller;
  queues = (french, []) ∷ [];
  chunks = 1;
  transcripts = [];
}

words : is_blank (codes "bonjour") ≡ false
unfolding is_blank lad_translate.Common.Text.is_space
words = refl

short_queue : should_skip (observe controller french (pos 0)) french ≡ false
unfolding should_skip Dict.lookup observe Dict.insert
short_queue = refl

long_queue : should_skip (observe controller french (pos 7_000_000_000)) french ≡ true
unfolding should_skip Dict.lookup observe Dict.insert
long_queue = refl

trace_open : Dict.lookup (7, french) pipeline.recorder.open_chunks ≡ some trace
unfolding Dict.lookup
trace_open = refl

abbrev late : Pipeline × Option ℕ
late = speak pipeline french phrase (codes "bonjour") (pos 7_000_000_000) [] false

abbrev pub anchored : Pipeline
anchored = record pipeline {
  recorder = record (new_recorder (pos 2_000_000_000) 100) { clock = some (pos 0) };
}

abbrev pub answers : Dict Text Text
answers = (french, codes "bonjour") ∷ []

pub queue_there : Dict.lookup french anchored.queues ≢ none
unfolding Dict.lookup
queue_there = λ e. cc e

pub no_other : Dict.lookup {V = Text} french [] ≡ none
unfolding Dict.lookup
no_other = refl
