-- ===== src/Stt/Whisper.antt =====
-- adapters/stt_whisper.py: `is_hallucination` and `WhisperSttAdapter`. Resampling and the level of a
-- piece of audio are parameters, and what the model answers on a pass, what the pass costs and the
-- clock after it are arguments. A sample is of any type. Times are in nanoseconds, levels in
-- millionths, probabilities in thousandths; the logarithm of a probability is never positive, and
-- `doubt` is its negative in thousandths.
pub mod Cumulative
pub mod Window
use lad_translate.Common.Text.{Text, codes, member, join, strip}
use lad_translate.Adapters.Events.{AudioFrame, Hypothesis}
use lad_translate.Session.Backlog.{duration}
use lad_translate.Common.{
  ltb, leb, ◌==◌, if◌then◌else◌, length, ℕ, suc, ◌+◌, ◌*◌, Bool, true, false, not, ◌&&◌, ◌||◌,
  Option, none, some, List, [], ◌∷◌, ◌++◌,
}

abbrev pub sample_rate : ℕ
sample_rate = 16_000

abbrev pub hallucinated_on_silence : List Text
hallucinated_on_silence =
    codes "thank you."
    ∷ codes "thank you"
    ∷ codes "thanks for watching!"
    ∷ codes "thanks for watching"
    ∷ codes "thank you for watching."
    ∷ codes "thank you for watching"
    ∷ codes "thanks for watching and see you next time."
    ∷ codes "please subscribe to my channel."
    ∷ codes "subtitles by the amara.org community"
    ∷ codes "you"
    ∷ codes "bye."
    ∷ codes "bye"
    ∷ codes "okay."
    ∷ codes "."
    ∷ codes "..."
    ∷ []

pub record Segment : Type 0 where
  pub text : Text
  pub no_speech_prob : ℕ
  pub doubt : ℕ

-- `lower` is `str.lower`.
unfoldable pub is_hallucination : (Text → Text) → Text → ℕ → ℕ → Bool
unfolding strip
is_hallucination lower text no_speech_prob doubt =
    let stripped : Text = lower (strip text) in
    if length stripped == 0
    then true
    else if ltb 800 no_speech_prob && ltb 500 doubt
    then true
    else member stripped hallucinated_on_silence && (ltb 500 no_speech_prob || ltb 700 doubt)

-- The options of the constructor that the loop reads.
pub record Options : Type 0 where
  pub language : Text
  pub emit_interval : ℕ
  pub max_window_s : ℕ
  pub silence_rms : ℕ
  pub silence_duration_s : ℕ
  pub speech_rms : ℕ

abbrev pub default_options : Options
default_options = record {
  language = codes "en";
  emit_interval = 500_000_000;
  max_window_s = 8_000_000_000;
  silence_rms = 5_000;
  silence_duration_s = 700_000_000;
  speech_rms = 6_000;
}

-- What a pass over the buffer gives, and the clock when it is over.
pub record Pass : Type 0 where
  pub segments : List Segment
  pub elapsed_s : ℕ
  pub now : ℕ

-- `resample_to_16k` and the root of the mean square.
pub record Ear {ℓ} (A : Type ℓ) : Type ℓ where
  pub resample : AudioFrame → List A
  pub rms : List A → ℕ
  pub lower : Text → Text

-- The adapter's fields, with the local variable `next_emit` of `transcribe`.
pub record WhisperStt {ℓ} (A : Type ℓ) : Type ℓ where
  pub buffer : List A
  pub buffer_start_audio : ℕ
  pub locked_text : Text
  pub seq : ℕ
  pub quiet_for : ℕ
  pub over_budget_passes : ℕ
  pub warned_unsustainable : Bool
  pub suppressed : ℕ
  pub next_emit : ℕ

abbrev pub is_empty {ℓ} : {A : Type ℓ} → List A → Bool
is_empty [] = true
is_empty (_ ∷ _) = false

-- The loop over the segments: what is kept, and how many are suppressed.
unfoldable pub keep_segments : (Text → Text) → List Segment → List Text × ℕ
unfolding is_hallucination strip
keep_segments lower [] = ([], 0)
keep_segments lower (s ∷ ss) =
    let rest = keep_segments lower ss in
    if is_hallucination lower s.text s.no_speech_prob s.doubt
    then (rest.0, suc rest.1)
    else (strip s.text ∷ rest.0, rest.1)

-- The adapter before its first frame.
abbrev pub new_whisper {ℓ} : {A : Type ℓ} → WhisperStt A
new_whisper = record {
  buffer = [];
  buffer_start_audio = 0;
  locked_text = [];
  seq = 0;
  quiet_for = 0;
  over_budget_passes = 0;
  warned_unsustainable = false;
  suppressed = 0;
  next_emit = 0;
}

module _ {ℓ} {A : Type ℓ} (o : Options) (ear : Ear A) where
  -- `size / WHISPER_SAMPLE_RATE`
  abbrev pub window_s : List A → ℕ
  window_s xs = length xs * 62_500

  unfoldable pub current_audio_end : WhisperStt A → ℕ
  current_audio_end s = s.buffer_start_audio + window_s s.buffer

  unfoldable pub track_silence : List A → ℕ → WhisperStt A → WhisperStt A
  track_silence audio long s = if is_empty audio then s else record s {
    quiet_for = if ltb (ear.rms audio) o.silence_rms then s.quiet_for + long else 0;
  }

  -- Without the log record.
  unfoldable pub note_pass_cost : ℕ → ℕ → WhisperStt A → WhisperStt A
  note_pass_cost elapsed window s =
      if window == 0
      then s
      else if leb elapsed o.emit_interval
      then record s { over_budget_passes = 0 }
      else if ltb (suc s.over_budget_passes) 2 || s.warned_unsustainable
      then record s { over_budget_passes = suc s.over_budget_passes }
      else record s { over_budget_passes = suc s.over_budget_passes; warned_unsustainable = true }

  unfoldable pub transcribe_buffer : Pass → WhisperStt A → Text × WhisperStt A
  unfolding keep_segments note_pass_cost strip
  transcribe_buffer pass s =
      let kept = keep_segments ear.lower pass.segments in
      let counted : WhisperStt A = record s { suppressed = s.suppressed + kept.1 } in
      if is_empty s.buffer
      then ([], s)
      else if ltb (ear.rms s.buffer) o.speech_rms
      then ([], s)
      else (strip (join kept.0), note_pass_cost pass.elapsed_s (window_s s.buffer) counted)

  -- `f"{self._locked_text} {text}".strip()`
  abbrev pub with_locked : Text → Text → Text
  with_locked locked text = strip (locked ++ (32 ∷ text))

  unfoldable pub hypothesis : Text → Bool → ℕ → WhisperStt A → Hypothesis × WhisperStt A
  unfolding current_audio_end strip
  hypothesis text is_final now s =
      let numbered : WhisperStt A = record s { seq = suc s.seq } in
      (
        record {
          text = with_locked s.locked_text text;
          is_final = is_final;
          t_audio_start = 0;
          t_audio_end = current_audio_end s;
          t_wall = now;
          seq = suc s.seq;
          language = some o.language;
          confidence = none;
          words = none;
        },
        numbered,
      )

  -- The frame's audio behind the buffer.
  unfoldable pub hear : AudioFrame → WhisperStt A → WhisperStt A
  unfolding track_silence duration
  hear f s = track_silence (ear.resample f) (duration f) (record s {
    buffer = s.buffer ++ ear.resample f;
    buffer_start_audio = if is_empty s.buffer then f.t_audio else s.buffer_start_audio;
  })

  unfoldable pub is_quiet : WhisperStt A → Bool
  is_quiet s = leb o.silence_duration_s s.quiet_for

  unfoldable pub is_overlong : WhisperStt A → Bool
  is_overlong s = leb o.max_window_s (window_s s.buffer)

  -- The close of an utterance.
  unfoldable pub lock : Text → WhisperStt A → WhisperStt A
  unfolding strip
  lock text s = record s {
    locked_text = with_locked s.locked_text text;
    buffer = [];
    quiet_for = 0;
  }

  -- What is done with the text of a pass.
  unfoldable pub on_text : Text → Bool → Bool → ℕ → WhisperStt A → Option Hypothesis × WhisperStt A
  unfolding hypothesis lock
  on_text text quiet overlong now s =
      let out = hypothesis text (quiet || overlong) now s in
      if is_empty text && not quiet
      then (none, s)
      else (some out.0, if quiet || overlong then lock text out.1 else out.1)

  -- The body of the loop behind the reading of the frame.
  unfoldable pub pass_or_wait : AudioFrame → Pass → WhisperStt A → Option Hypothesis × WhisperStt A
  unfolding is_quiet is_overlong transcribe_buffer on_text
  pass_or_wait f pass s =
      let heard = transcribe_buffer pass (record s { next_emit = f.t_wall + o.emit_interval }) in
      if ltb f.t_wall s.next_emit && (not (is_quiet s) && not (is_overlong s))
      then (none, s)
      else on_text heard.0 (is_quiet s) (is_overlong s) pass.now heard.1

  unfoldable pub on_frame : AudioFrame → Pass → WhisperStt A → Option Hypothesis × WhisperStt A
  unfolding hear pass_or_wait
  on_frame f pass s = pass_or_wait f pass (hear f s)

  -- The end of the stream, by the text of its pass.
  unfoldable pub last_text : Text → ℕ → WhisperStt A → Option Hypothesis × WhisperStt A
  unfolding hypothesis
  last_text text now s =
      let out = hypothesis text true now s in
      if is_empty text then (none, s) else (some out.0, out.1)

  unfoldable pub finish : Pass → WhisperStt A → Option Hypothesis × WhisperStt A
  unfolding transcribe_buffer last_text
  finish pass s =
      let heard = transcribe_buffer pass s in
      let out = last_text heard.0 pass.now heard.1 in if is_empty s.buffer then (none, s) else out

  abbrev pub emitted : Option Hypothesis → List Hypothesis → List Hypothesis
  emitted none hs = hs
  emitted (some h) hs = h ∷ hs

  -- `transcribe` on the frames, each with the pass that it may cause, and the pass at the end.
  unfoldable pub transcribe :
      List (AudioFrame × Pass) → Pass → WhisperStt A → List Hypothesis × WhisperStt A
  unfolding on_frame finish
  transcribe [] last s = let out = finish last s in (emitted out.0 [], out.1)
  transcribe ((f, pass) ∷ rest) last s =
      let out = on_frame f pass s in
      let later = transcribe rest last out.1 in (emitted out.0 later.0, later.1)
