-- ===== src/Adapters/Events.antt =====
-- adapters/base.py: the events that flow from the room to the chunker. A time that the source keeps
-- as a float of seconds is a whole number of nanoseconds here.
use lad_translate.Common.{ℕ, Bool, Option, List}
use lad_translate.Common.Text.{Text}

-- Nanoseconds in a second.
abbrev pub second : ℕ
second = 1_000_000_000

pub record AudioFrame : Type 0 where
  pub pcm : List ℕ
  pub sample_rate : ℕ
  pub t_audio : ℕ
  pub t_wall : ℕ

pub record WordTiming : Type 0 where
  pub word : Text
  pub t_audio_start : ℕ
  pub t_audio_end : ℕ

pub record Hypothesis : Type 0 where
  pub text : Text
  pub is_final : Bool
  pub t_audio_start : ℕ
  pub t_audio_end : ℕ
  pub t_wall : ℕ
  pub seq : ℕ
  pub language : Option Text
  pub confidence : Option ℕ
  pub words : Option (List WordTiming)
