-- ===== src/Chunker/Phrases.antt =====
-- chunker/chunker.py: `PhraseChunker`, which decides when words are handed on for good.
pub mod Runs
pub mod Spoken
pub mod Calls
pub mod Settle
pub mod Session
pub mod Decide
pub mod Drain
use lad_translate.Common.{
  ltb, leb, ◌==◌, if◌then◌else◌, length, take, ℕ, zero, suc, ◌+◌, ◌-◌, ◌*◌, ◌/◌, min, Bool, ◌&&◌,
  ◌||◌, Option, none, some, List, [], ◌∷◌, ◌++◌,
}
use lad_translate.Common.Text.{join, split}
use lad_translate.Adapters.Events.{Hypothesis, WordTiming}
use lad_translate.Chunker.Types.{
  ChunkerConfig, CommitReason, PhraseChunk, clause, max_words, stability_timeout, silence, final,
}
use lad_translate.Chunker.Words.{Unicode}
use lad_translate.Chunker.Clause.{find_boundary}
use lad_translate.Chunker.Stability.{
  StabilityTracker, StablePrefix, new_tracker, add, stable_prefix, reset_contradiction, commit,
}

pub record PhraseChunker : Type 0 where
  pub config : ChunkerConfig
  pub tracker : StabilityTracker
  pub next_id : ℕ
  pub last_hyp_wall : Option ℕ
  pub last_hyp : Option Hypothesis
  pub audio_cursor : ℕ

-- `none` is the ValueError that the tracker's constructor raises.
unfoldable pub new_chunker : ChunkerConfig → Option PhraseChunker
new_chunker config = elim (new_tracker config.agreement_n) [
  | none ↦ none
  | some tracker ↦ some (record {
    config = config;
    tracker = tracker;
    next_id = 0;
    last_hyp_wall = none;
    last_hyp = none;
    audio_cursor = 0;
  })
]

-- `words[i - 1].t_audio_end`; the index -1 of `i = 0` is the last word.
unfoldable pub end_of_word : List WordTiming → ℕ → ℕ
end_of_word [] i = 0
end_of_word (w ∷ []) i = w.t_audio_end
end_of_word (w ∷ (v ∷ ws)) zero = end_of_word (v ∷ ws) zero
end_of_word (w ∷ (v ∷ ws)) (suc zero) = w.t_audio_end
end_of_word (w ∷ (v ∷ ws)) (suc (suc i)) = end_of_word (v ∷ ws) (suc i)

-- Linear interpolation over the span of the hypothesis, rounded down to a nanosecond.
unfoldable pub interpolate : Hypothesis → ℕ → ℕ
interpolate hyp i =
    let total_words = length (split hyp.text) in
    if total_words == 0 || leb hyp.t_audio_end hyp.t_audio_start
    then hyp.t_audio_end
    else hyp.t_audio_start + (hyp.t_audio_end - hyp.t_audio_start) * min total_words i / total_words

unfoldable pub word_end_time : Hypothesis → ℕ → ℕ
unfolding end_of_word interpolate
word_end_time hyp i = elim hyp.words [
  | none ↦ interpolate hyp i
  | some [] ↦ interpolate hyp i
  | some (w ∷ ws) ↦ if leb i (length (w ∷ ws)) then end_of_word (w ∷ ws) i else interpolate hyp i
]

-- `max(0.0, t_wall - first_seen)` is the subtraction of ℕ, which stops at 0.
unfoldable pub commit_phrase :
    PhraseChunker
    → Hypothesis
    → StablePrefix
    → ℕ
    → CommitReason
    → Option ℕ
    → PhraseChunker × PhraseChunk
unfolding reset_contradiction commit
commit_phrase c hyp prefix count reason now =
    let t_audio_end = word_end_time hyp (c.tracker.committed + count) in
    let t_wall : ℕ = elim now [ none ↦ hyp.t_wall | some t ↦ t ] in
    let (tracker, revised) = reset_contradiction c.tracker in
    (
      record c {
        tracker = commit tracker count;
        next_id = c.next_id + 1;
        audio_cursor = t_audio_end;
      },
      record {
        chunk_id = c.next_id;
        text = join (take count prefix.tokens);
        t_audio_start = c.audio_cursor;
        t_audio_end = t_audio_end;
        t_wall_committed = t_wall;
        reason = reason;
        word_count = count;
        stability_lag = t_wall - prefix.first_seen_wall;
        revised_after_commit = revised;
      },
    )

-- A call that returns at most one phrase.
abbrev pub one : PhraseChunker × PhraseChunk → PhraseChunker × List PhraseChunk
one (c, chunk) = (c, chunk ∷ [])

module _ (u : Unicode) where
  unfoldable pub allow_weak : ChunkerConfig → ℕ → Bool
  allow_weak cfg len =
      cfg.allow_conjunction_boundary && leb (cfg.conjunction_threshold * cfg.max_words) (1000 * len)

  -- `hyp.t_wall - prefix.first_seen_wall >= cfg.max_wait_s`, with the subtraction moved over.
  unfoldable pub decide_commit :
      PhraseChunker → Hypothesis → StablePrefix → PhraseChunker × List PhraseChunk
  unfolding allow_weak
  decide_commit c hyp prefix =
      let cfg = c.config in
      let len = length prefix.tokens in
      let end : ℕ = (find_boundary u prefix.tokens cfg.min_words (allow_weak cfg len)).0 in
      if leb cfg.max_words len
      then one (commit_phrase c hyp prefix cfg.max_words max_words none)
      else if ltb 0 end
      then one (commit_phrase c hyp prefix end clause none)
      else if leb (prefix.first_seen_wall + cfg.max_wait_s) hyp.t_wall && leb cfg.min_words len
      then one (commit_phrase c hyp prefix len stability_timeout none)
      else (c, [])

  unfoldable pub try_emit : PhraseChunker → Hypothesis → PhraseChunker × List PhraseChunk
  unfolding decide_commit
  try_emit c hyp = elim (stable_prefix c.tracker) [
    | none ↦ (c, [])
    | some prefix ↦ decide_commit c hyp prefix
  ]

-- The `while True` loop of `_emit_all`, on fuel; `none` is a loop that has not ended.
unfoldable pub emit_loop :
    ℕ
    → PhraseChunker
    → Hypothesis
    → CommitReason
    → Option ℕ
    → List PhraseChunk
    → Option (PhraseChunker × List PhraseChunk)
emit_loop zero c hyp reason now chunks = none
emit_loop (suc fuel) c hyp reason now chunks = elim (stable_prefix c.tracker) [
  | none ↦ some (c, chunks)
  | some prefix ↦
      let count = min (length prefix.tokens) c.config.max_words in
      let (c', chunk) = commit_phrase c hyp prefix count reason now in
      emit_loop fuel c' hyp reason now (chunks ++ chunk ∷ [])
]

-- Each round commits a word at least if `max_words` is positive, and no word that is not in the
-- latest hypothesis, so this fuel is enough for it.
unfoldable pub emit_all :
    PhraseChunker → Hypothesis → CommitReason → Option ℕ → Option (PhraseChunker × List PhraseChunk)
unfolding emit_loop
emit_all c hyp reason now = emit_loop (suc (length c.tracker.latest_surface)) c hyp reason now []

-- `feed` up to the commit decision.
unfoldable pub observe : Unicode → PhraseChunker → Hypothesis → PhraseChunker
observe u c hyp = record c {
  tracker = add u c.tracker hyp;
  last_hyp_wall = some hyp.t_wall;
  last_hyp = some hyp;
}

unfoldable pub feed :
    Unicode → PhraseChunker → Hypothesis → Option (PhraseChunker × List PhraseChunk)
unfolding observe emit_all try_emit
feed u c hyp =
    let c' = observe u c hyp in
    if hyp.is_final then emit_all c' hyp final none else some (try_emit u c' hyp)

-- `now - last_hyp_wall < silence_commit_s`, with the subtraction moved over.
unfoldable pub tick : PhraseChunker → ℕ → Option (PhraseChunker × List PhraseChunk)
unfolding emit_all
tick c now = elim c.last_hyp_wall [
  | none ↦ some (c, [])
  | some wall ↦ elim c.last_hyp [
    | none ↦ some (c, [])
    | some hyp ↦
        if ltb now (wall + c.config.silence_commit_s)
        then some (c, [])
        else emit_all c hyp silence (some now)
  ]
]

unfoldable pub flush : PhraseChunker → Option (PhraseChunker × List PhraseChunk)
unfolding emit_all
flush c = elim c.last_hyp [ none ↦ some (c, []) | some hyp ↦ emit_all c hyp final none ]
