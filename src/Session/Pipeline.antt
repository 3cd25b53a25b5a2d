-- ===== src/Session/Pipeline.antt =====
-- session/pipeline.py: what a session does with one phrase. `dispatch` is `_dispatch`, and `speak` is
-- `_speak` of a language's worker; what the translator, the room and the synthesiser answer are
-- arguments.
pub mod Speaking
pub mod Dispatch
use lad_translate.Common.{
  if◌then◌else◌, ◌>>=◌, ℕ, ◌+◌, Bool, true, false, ◌&&◌, ◌||◌, Option, none, some, List, [], ◌∷◌,
  ◌++◌,
}
use lad_translate.Common.Int.{ℤ, pos, ◌-ℤ◌}
use lad_translate.Common.Text.{Text, is_space}
use lad_translate.Common.Dict
use lad_translate.Common.Dict.{Dict, text_key}
use lad_translate.Chunker.Types.{PhraseChunk}
use lad_translate.Obs.Trace.{committed, translated, tts_first_audio, published}
use lad_translate.Obs.Latency.{LatencyRecorder, open_chunk, mark, record_revision}
use lad_translate.Session.Drift.{DriftController, observe, should_skip, note_skipped, speed_for}

-- A call of `persist` in a session with a store, without the latency that it reports. For a language
-- without samples `stats` leaves an empty list of them, which reads like none and is left out.
pub record Transcript : Type 0 where
  pub chunk_id : ℕ
  pub language : Text
  pub translated_text : Text

-- `queues` holds the worker of each language, by what waits in its queue.
pub record Pipeline : Type 0 where
  pub targets : List Text
  pub recorder : LatencyRecorder
  pub drift : DriftController
  pub queues : Dict Text (List (PhraseChunk × Text))
  pub chunks : ℕ
  pub transcripts : List Transcript

-- `none` is the RuntimeError of the recorder's clock.
unfoldable pub open_all : LatencyRecorder → PhraseChunk → List Text → Option LatencyRecorder
unfolding open_chunk mark ◌>>=◌
open_all r chunk [] = some r
open_all r chunk (language ∷ languages) = do
  opened ← open_chunk r chunk.chunk_id language chunk.t_audio_end
  open_all (mark opened chunk.chunk_id language committed (pos chunk.t_wall_committed)) chunk
      languages

-- `none` is the KeyError of a language that has no worker.
unfoldable pub submit :
    Dict Text (List (PhraseChunk × Text))
    → Text
    → PhraseChunk
    → Text
    → Option (Dict Text (List (PhraseChunk × Text)))
submit queues language chunk text = elim (Dict.lookup language queues) [
  | none ↦ none
  | some waiting ↦ some (Dict.insert language (waiting ++ (chunk, text) ∷ []) queues)
]

-- The loop over `translations.items()`.
unfoldable pub hand_on : Pipeline → PhraseChunk → ℕ → Dict Text Text → Option Pipeline
unfolding mark submit ◌>>=◌
hand_on p chunk now [] = some p
hand_on p chunk now ((language, text) ∷ rest) = do
  queues ← submit p.queues language chunk text
  hand_on
      (record p {
        recorder = mark p.recorder chunk.chunk_id language translated (pos now);
        queues = queues;
      })
      chunk now rest

unfoldable pub dispatch : Pipeline → PhraseChunk → Dict Text Text → ℕ → Option Pipeline
unfolding open_all record_revision hand_on ◌>>=◌
dispatch p chunk translations now = do
  opened ← open_all p.recorder chunk p.targets
  hand_on
      (record p {
        chunks = p.chunks + 1;
        recorder = if chunk.revised_after_commit then record_revision opened else opened;
      })
      chunk now translations

-- `not text.strip()`
unfoldable pub is_blank : Text → Bool
is_blank [] = true
is_blank (c ∷ s) = is_space c && is_blank s

-- The loop over the speech: each piece by the time it was ready and the time it was handed on, which
-- is missing where the room raised.
unfoldable pub play : LatencyRecorder → ℕ → Text → List (ℕ × Option ℕ) → LatencyRecorder
unfolding mark
play r chunk_id language [] = r
play r chunk_id language ((ready, none) ∷ rest) =
    mark r chunk_id language tts_first_audio (pos ready)
play r chunk_id language ((ready, some handed_on) ∷ rest) =
    mark (mark r chunk_id language tts_first_audio (pos ready)) chunk_id language published
      (pos handed_on)

-- The room raised at some piece.
unfoldable pub is_broken : List (ℕ × Option ℕ) → Bool
is_broken [] = false
is_broken ((ready, none) ∷ rest) = true
is_broken ((ready, some handed_on) ∷ rest) = is_broken rest

unfoldable pub persist : Pipeline → PhraseChunk → Text → Text → Pipeline
persist p chunk language text = record p {
  transcripts =
      p.transcripts
      ++ record { chunk_id = chunk.chunk_id; language = language; translated_text = text } ∷ [];
}

-- `depth` is the room's queue, `speech` what the synthesiser gives before it ends or, where `fails`
-- is true, raises. The worker's loop catches what is raised. The speed comes second.
unfoldable pub speak :
    Pipeline → Text → PhraseChunk → Text → ℤ → List (ℕ × Option ℕ) → Bool → Pipeline × Option ℕ
unfolding is_blank observe should_skip note_skipped speed_for play persist is_broken
speak p language chunk text depth speech fails =
    let drift : DriftController = observe p.drift language depth in
    let skipped : Pipeline = record p {
      drift = note_skipped drift language (pos chunk.t_audio_end -ℤ pos chunk.t_audio_start);
    } in
    let spoken : Pipeline = record p {
      drift = (speed_for drift language).0;
      recorder = play p.recorder chunk.chunk_id language speech;
    } in
    if is_blank text
    then (p, none)
    else if should_skip drift language
    then (persist skipped chunk language text, none)
    else (
      (if fails || is_broken speech then spoken else persist spoken chunk language text),
      some (speed_for drift language).1,
    )
