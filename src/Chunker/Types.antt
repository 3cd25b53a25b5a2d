-- ===== src/Chunker/Types.antt =====
-- chunker/types.py: why a phrase was committed, the phrase, and the tuning of the chunker.
use lad_translate.Common.{ℕ, Bool, true}
use lad_translate.Common.Text.{Text}
use lad_translate.Adapters.Events.{second}

pub data CommitReason : Type 0 where
  clause max_words stability_timeout silence final : CommitReason

pub record PhraseChunk : Type 0 where
  pub chunk_id : ℕ
  pub text : Text
  pub t_audio_start : ℕ
  pub t_audio_end : ℕ
  pub t_wall_committed : ℕ
  pub reason : CommitReason
  pub word_count : ℕ
  pub stability_lag : ℕ
  pub revised_after_commit : Bool

-- `conjunction_threshold` is in thousandths.
pub record ChunkerConfig : Type 0 where
  pub agreement_n : ℕ
  pub min_words : ℕ
  pub max_words : ℕ
  pub max_wait_s : ℕ
  pub silence_commit_s : ℕ
  pub allow_conjunction_boundary : Bool
  pub conjunction_threshold : ℕ

abbrev pub default_config : ChunkerConfig
default_config = record {
  agreement_n = 2;
  min_words = 4;
  max_words = 25;
  max_wait_s = second;
  silence_commit_s = 600_000_000;
  allow_conjunction_boundary = true;
  conjunction_threshold = 700;
}
