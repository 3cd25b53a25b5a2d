-- ===== src/Examples/Phrases.antt =====
-- The chunker's theorems at a hypothesis of four words.
use lad_translate.Common.{
  drop, All, ◌≤◌, ◌≡◌, refl, ◌≢◌, Bool, true, false, none, some, List, [], ◌∷◌, arith,
}
use lad_translate.Common.Text.{Text, codes, is_between}
use lad_translate.Adapters.Events.{Hypothesis}
use lad_translate.Chunker.Types.{PhraseChunk, ChunkerConfig, final, default_config}
use lad_translate.Chunker.Words.{Unicode, tokenise, normalise_token}
use lad_translate.Chunker.Stability.{
  StabilityTracker, agreed_length, agreed_loop, stable_prefix, pending_after_commit, shortest,
  all_at, token_at,
}
use lad_translate.Chunker.Stability.Agreement.{Agree, agreed_length-Agree}
use lad_translate.Chunker.Stability.Finals.{IsValid}
use lad_translate.Chunker.Stability.Prefix.{stable_end}
use lad_translate.Chunker.Clause.{find_boundary, strong}
use lad_translate.Chunker.Clause.Cuts.{IsCut, find_boundary-IsCut}
use lad_translate.Chunker.Phrases.{PhraseChunker, feed, flush, try_emit, emit_loop}
use lad_translate.Chunker.Phrases.Runs.{IsRun}
use lad_translate.Chunker.Phrases.Decide.{HasSize, Kept, try_emit-run}
use lad_translate.Chunker.Phrases.Session.{heard, ended, calls, IsSequence, calls-IsSequence}
use lad_translate.Chunker.Phrases.Settle.{flush_loses, emit_loop_diverges}
use lad_translate.Chunker.Phrases.Spoken.{spoken, IsCounted, feed-final_spoken}

abbrev ascii : Unicode
ascii = record { is_word = is_between 97 122; is_digit = is_between 48 57; fold = λ t. t }

abbrev four_words : List Text
four_words = codes "we" ∷ codes "meet" ∷ codes "again" ∷ codes "today." ∷ []

abbrev four_tokens : List Text
four_tokens = codes "we" ∷ codes "meet" ∷ codes "again" ∷ codes "today" ∷ []

abbrev spoken_hyp : Bool → Hypothesis
spoken_hyp is_final = record {
  text = codes "we meet again today.";
  is_final = is_final;
  t_audio_start = 0;
  t_audio_end = 2_000_000_000;
  t_wall = 5_000_000_000;
  seq = 1;
  language = none;
  confidence = none;
  words = none;
}

-- Two hypotheses that agree on all four words.
abbrev settled : StabilityTracker
settled = record {
  n = 2;
  window = four_tokens ∷ four_tokens ∷ [];
  latest_surface = four_words;
  prefix_first_seen = (4, 5_000_000_000) ∷ [];
  committed = 0;
  contradicted = false;
}

-- The two agree on three words, and the fourth is new.
abbrev unsettled : StabilityTracker
unsettled = record settled {
  window = (codes "we" ∷ codes "meet" ∷ codes "again" ∷ []) ∷ four_tokens ∷ [];
  prefix_first_seen = (3, 5_000_000_000) ∷ [];
}

abbrev chunker_of : ChunkerConfig → StabilityTracker → PhraseChunker
chunker_of config tracker = record {
  config = config;
  tracker = tracker;
  next_id = 0;
  last_hyp_wall = some 5_000_000_000;
  last_hyp = some (spoken_hyp false);
  audio_cursor = 0;
}

abbrev chunker : PhraseChunker
chunker = chunker_of default_config settled

settled-IsValid : IsValid settled
settled-IsValid = record { positive = omega arith; bounded = omega arith }

feed-final_spoken_example :
    (c' : PhraseChunker) × (ks : List PhraseChunk) × (feed ascii chunker (spoken_hyp true)
      ≡ some (c', ks))
    × (spoken ks ≡ drop chunker.tracker.committed (tokenise (spoken_hyp true).text))
    × All IsCounted ks
feed-final_spoken_example =
    feed-final_spoken ascii chunker (spoken_hyp true) settled-IsValid (omega arith) refl

calls-IsSequence_example :
    (c' : PhraseChunker) × (ks : List PhraseChunk) × (calls ascii chunker
        (heard (spoken_hyp true) ∷ ended ∷ [])
      ≡ some (c', ks))
    × IsSequence chunker ks c'
calls-IsSequence_example =
    calls-IsSequence ascii chunker (heard (spoken_hyp true) ∷ ended ∷ []) (omega arith)

try_emit-run_example :
    IsRun chunker
      (try_emit ascii chunker (spoken_hyp false)).1
      (try_emit ascii chunker (spoken_hyp false)).0
    × All (HasSize ascii chunker (spoken_hyp false)) (try_emit ascii chunker (spoken_hyp false)).1
    × Kept ascii chunker (spoken_hyp false) (try_emit ascii chunker (spoken_hyp false)).0
try_emit-run_example = try_emit-run ascii chunker (spoken_hyp false) (omega arith)

unsettled_end : stable_end unsettled ≡ 3
unfolding stable_end agreed_length agreed_loop shortest all_at token_at
unsettled_end = refl

flush_loses_example :
    (c' : PhraseChunker) × (ks : List PhraseChunk) × (flush (chunker_of default_config unsettled)
      ≡ some (c', ks))
    × (pending_after_commit c'.tracker ≢ [])
flush_loses_example =
    flush_loses (chunker_of default_config unsettled) (spoken_hyp false) (omega arith) refl
      (omega (arith, unsettled_end)) (omega arith)

abbrev wordless : ChunkerConfig
wordless = record default_config { max_words = 0 }

emit_loop_diverges_example :
    emit_loop 100 (chunker_of wordless unsettled) (spoken_hyp false) final none [] ≡ none
emit_loop_diverges_example =
    emit_loop_diverges (spoken_hyp false) final none 100 (chunker_of wordless unsettled) [] refl
      (omega (arith, unsettled_end))

agreed_length-Agree_example :
    Agree unsettled.window (agreed_length unsettled) × (3 ≤ agreed_length unsettled)
agreed_length-Agree_example =
    agreed_length-Agree unsettled 3 (omega arith) (omega arith)
      (record { long = (omega arith, (omega arith, tt)); same = (refl, (refl, tt)) })

abbrev cut_words : List Text
cut_words = codes "we" ∷ codes "meet" ∷ codes "again." ∷ codes "soon" ∷ []

cut_found : find_boundary ascii cut_words 2 true ≡ (3, strong)
unfolding find_boundary lad_translate.Chunker.Clause.token_boundary_strength
    lad_translate.Chunker.Clause.ends_sentence lad_translate.Chunker.Clause.last_char
    lad_translate.Chunker.Clause.without_last lad_translate.Chunker.Clause.has_digit normalise_token
cut_found = refl

find_boundary-IsCut_example : IsCut ascii cut_words 2 true 3 strong
find_boundary-IsCut_example =
    find_boundary-IsCut ascii cut_words 2 true 3 strong (omega arith) cut_found (omega arith)

no_cut_found : (find_boundary ascii four_tokens 2 true).0 ≡ 0
unfolding find_boundary lad_translate.Chunker.Clause.token_boundary_strength
    lad_translate.Chunker.Clause.ends_sentence lad_translate.Chunker.Clause.last_char
    lad_translate.Chunker.Clause.is_conjunction normalise_token
no_cut_found = refl

nothing_emitted : (try_emit ascii (chunker_of default_config unsettled) (spoken_hyp false)).1 ≡ []
unfolding try_emit stable_prefix find_boundary lad_translate.Common.Dict.lookup
nothing_emitted = refl
