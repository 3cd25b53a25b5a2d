-- ===== src/Session/Pipeline/Speaking.antt =====
-- What a worker does with a phrase: spoken and measured, or skipped.
use lad_translate.Common.{
  if◌then◌else◌, length, length-append, ℕ, ◌+◌, ◌≡◌, refl, sym, ap, ◌∙◌, subst, Bool, true, false,
  ◌||◌, Option, none, some, List, [], ◌∷◌,
}
use lad_translate.Common.Int.{ℤ, pos, ◌-ℤ◌}
use lad_translate.Common.Text.{Text, text_eq_iff}
use lad_translate.Common.Dict
use lad_translate.Common.Dict.{Dict, text_key}
use lad_translate.Chunker.Types.{PhraseChunk}
use lad_translate.Obs.Trace.{stage_key, ChunkTrace, mark_trace, tts_first_audio, published}
use lad_translate.Obs.Latency.{
  LatencyRecorder, chunk_key, chunk_eq_iff, mark, append_sample, samples_of,
}
use lad_translate.Obs.Latency.Marks.{noted, published_at, mark-open, mark-published}
use lad_translate.Session.Drift.{observe, should_skip, note_skipped, speed_for}
use lad_translate.Session.Pipeline.{Pipeline, play, persist, is_broken, is_blank, speak}

-- One more sample for the language, and the chunk is closed.
pub record IsMeasured (r r' : LatencyRecorder) (t : ChunkTrace) (value : ℤ) : Type 0 where
  pub sampled :
      Dict.lookup t.language r'.g2g
      ≡ some (append_sample r.sample_cap (samples_of t.language r.g2g) value)
  pub closed : Dict.lookup (t.chunk_id, t.language) r'.open_chunks ≡ none

noted-lookup :
    (r : LatencyRecorder) (t : ChunkTrace) (w : ℤ)
    → Dict.lookup (t.chunk_id, t.language) (noted r t tts_first_audio w).open_chunks
      ≡ some (mark_trace t tts_first_audio w)
noted-lookup r t w =
    Dict.lookup-insert (t.chunk_id, t.language) (t.chunk_id, t.language)
      (mark_trace t tts_first_audio w) r.open_chunks
    ∙ ap
        (λ (b : Bool).
          if b
          then some (mark_trace t tts_first_audio w)
          else Dict.lookup (t.chunk_id, t.language) r.open_chunks)
        ((chunk_eq_iff (t.chunk_id, t.language) (t.chunk_id, t.language)).1 refl)

-- The latency of a trace whose first speech was ready and handed on at these times.
abbrev pub latency_of : ChunkTrace → ℕ → ℕ → ℤ
latency_of t ready handed_on =
    published_at (mark_trace t tts_first_audio (pos ready)) (pos handed_on) -ℤ t.audio_end_wall

play-IsMeasured :
    (r : LatencyRecorder) (t : ChunkTrace) (ready handed_on : ℕ) (rest : List (ℕ × Option ℕ))
    → Dict.lookup (t.chunk_id, t.language) r.open_chunks ≡ some t
    → IsMeasured r
        (play r t.chunk_id t.language ((ready, some handed_on) ∷ rest))
        t
        (latency_of t ready handed_on)
unfolding play mark_trace
play-IsMeasured r t ready handed_on rest h =
    let t1 : ChunkTrace = mark_trace t tts_first_audio (pos ready) in
    let r1 : LatencyRecorder = noted r t tts_first_audio (pos ready) in
    let both = mark-published r1 t1 (pos handed_on) t.language (noted-lookup r t (pos ready)) in
    subst
      (λ x.
        IsMeasured r (mark x t.chunk_id t.language published (pos handed_on)) t
          (latency_of t ready handed_on))
      (sym (mark-open r t tts_first_audio (pos ready) h))
      (record {
        sampled = both.0 ∙ rw ((text_eq_iff t.language t.language).1 refl) refl;
        closed = both.2;
      })

module _ (p : Pipeline) (chunk : PhraseChunk) (text : Text) (depth : ℤ) where
  measured :
      (t : ChunkTrace) (ready handed_on : ℕ) (rest : List (ℕ × Option ℕ))
      → chunk.chunk_id ≡ t.chunk_id
      → Dict.lookup (t.chunk_id, t.language) p.recorder.open_chunks ≡ some t
      → IsMeasured p.recorder
          (play p.recorder chunk.chunk_id t.language ((ready, some handed_on) ∷ rest))
          t
          (latency_of t ready handed_on)
  measured t ready handed_on rest same h =
      subst
        (λ i.
          IsMeasured p.recorder (play p.recorder i t.language ((ready, some handed_on) ∷ rest)) t
            (latency_of t ready handed_on))
        (sym same) (play-IsMeasured p.recorder t ready handed_on rest h)

  either_way :
      (failed : Bool) (language : Text) (q : Pipeline) (t : ChunkTrace) (value : ℤ)
      → IsMeasured p.recorder q.recorder t value
      → IsMeasured p.recorder (if failed then q else persist q chunk language text).recorder t value
  unfolding persist
  either_way true language q t value h = h
  either_way false language q t value h = h

  -- A phrase of an open chunk that is not blank and not skipped, and whose first speech reaches the
  -- room, gives its language one latency sample and closes its chunk, even if something fails after
  -- that.
  pub speak-IsMeasured :
      (t : ChunkTrace) (ready handed_on : ℕ) (rest : List (ℕ × Option ℕ)) (fails : Bool)
      → is_blank text ≡ false
      → should_skip (observe p.drift t.language depth) t.language ≡ false
      → chunk.chunk_id ≡ t.chunk_id
      → Dict.lookup (t.chunk_id, t.language) p.recorder.open_chunks ≡ some t
      → IsMeasured p.recorder
          (speak p t.language chunk text depth ((ready, some handed_on) ∷ rest) fails).0.recorder
          t
          (latency_of t ready handed_on)
  unfolding speak persist
  speak-IsMeasured t ready handed_on rest fails words kept same h =
      rw (words, kept, speak)
        (either_way (fails || is_broken ((ready, some handed_on) ∷ rest)) t.language
          (record p {
            drift = (speed_for (observe p.drift t.language depth) t.language).0;
            recorder = play p.recorder chunk.chunk_id t.language ((ready, some handed_on) ∷ rest);
          })
          t (latency_of t ready handed_on) (measured t ready handed_on rest same h))

  -- A phrase that is not blank and is skipped leaves the recorder as it was, so its chunk stays
  -- open; it is stored, and counted with its length of audio.
  pub speak-skipped :
      (language : Text) (speech : List (ℕ × Option ℕ)) (fails : Bool)
      → is_blank text ≡ false
      → should_skip (observe p.drift language depth) language ≡ true
      → let after = speak p language chunk text depth speech fails in
        (after.1 ≡ none)
        × (after.0.recorder ≡ p.recorder)
        × (length after.0.transcripts ≡ length p.transcripts + 1)
        × (after.0.drift
            ≡ note_skipped
                (observe p.drift language depth)
                language
                (pos chunk.t_audio_end -ℤ pos chunk.t_audio_start))
  unfolding speak persist
  speak-skipped language speech fails words skips =
      rw (words, skips, speak)
        (
          refl,
          refl,
          length-append p.transcripts (
              record { chunk_id = chunk.chunk_id; language = language; translated_text = text }
              ∷ []),
          refl,
        )
