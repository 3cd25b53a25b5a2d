-- ===== src/Obs/Trace.antt =====
-- obs/latency.py: `Stage`, `AudioClock` and `ChunkTrace`. Times and durations are whole
-- nanoseconds, and a difference of two of them may be negative.
pub mod Stages
use lad_translate.Common.{◌==◌, ℕ, ◌≡◌, ◌↔◌, Bool, true, Option, none, some, [], ◌∷◌, ◌++◌, arith}
use lad_translate.Common.Int.{ℤ, pos, ◌+ℤ◌, ◌-ℤ◌}
use lad_translate.Common.Text.{Text}
use lad_translate.Common.Dict
use lad_translate.Common.Dict.{Dict, Key}

pub data Stage : Type 0 where
  committed translated tts_first_audio published : Stage

abbrev pub stage_number : Stage → ℕ
stage_number committed = 0
stage_number translated = 1
stage_number tts_first_audio = 2
stage_number published = 3

abbrev pub stage_eq : Stage → Stage → Bool
stage_eq s t = stage_number s == stage_number t

pub stage_eq_iff : (s t : Stage) → (stage_eq s t ≡ true) ↔ (s ≡ t)
stage_eq_iff s t = (λ h. ground arith, λ h. ground arith)

instance abbrev pub stage_key : Key Stage
stage_key = record { eq = stage_eq; eq_iff = stage_eq_iff }

-- `AudioClock._epoch`
abbrev pub AudioClock : Type 0
AudioClock = Option ℤ

unfoldable pub anchor : AudioClock → ℕ → ℕ → AudioClock
anchor none t_audio t_wall = some (pos t_wall -ℤ pos t_audio)
anchor (some epoch) t_audio t_wall = some epoch

-- `none` is the RuntimeError of a clock that has no epoch.
unfoldable pub wall_for : AudioClock → ℕ → Option ℤ
wall_for none t_audio = none
wall_for (some epoch) t_audio = some (epoch +ℤ pos t_audio)

pub record ChunkTrace : Type 0 where
  pub chunk_id : ℕ
  pub language : Text
  pub audio_end_wall : ℤ
  pub marks : Dict Stage ℤ

unfoldable pub mark_trace : ChunkTrace → Stage → ℤ → ChunkTrace
mark_trace t stage t_wall = record t { marks = Dict.set_default stage t_wall t.marks }

-- `published - self.audio_end_wall`, if there is such a mark.
unfoldable pub glass_to_glass : ChunkTrace → Option ℤ
glass_to_glass t = elim (Dict.lookup published t.marks) [
  | none ↦ none
  | some w ↦ some (w -ℤ t.audio_end_wall)
]

-- The labels of the breakdown.
pub data Label : Type 0 where
  chunker translate tts publish : Label

abbrev pub label_number : Label → ℕ
label_number chunker = 0
label_number translate = 1
label_number tts = 2
label_number publish = 3

abbrev pub label_eq : Label → Label → Bool
label_eq a b = label_number a == label_number b

pub label_eq_iff : (a b : Label) → (label_eq a b ≡ true) ↔ (a ≡ b)
label_eq_iff a b = (λ h. ground arith, λ h. ground arith)

instance abbrev pub label_key : Key Label
label_key = record { eq = label_eq; eq_iff = label_eq_iff }

-- `b - a` under its label, if both marks are there.
abbrev between : Label → Option ℤ → Option ℤ → Dict Label ℤ
between label none _ = []
between label (some a) none = []
between label (some a) (some b) = (label, b -ℤ a) ∷ []

unfoldable pub breakdown : ChunkTrace → Dict Label ℤ
breakdown t =
    between chunker (some t.audio_end_wall) (Dict.lookup committed t.marks)
    ++ (between translate (Dict.lookup committed t.marks) (Dict.lookup translated t.marks)
        ++ (between tts (Dict.lookup translated t.marks) (Dict.lookup tts_first_audio t.marks)
            ++ between publish (Dict.lookup tts_first_audio t.marks)
                (Dict.lookup published t.marks)))
