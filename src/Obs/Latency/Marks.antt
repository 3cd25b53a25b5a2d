-- ===== src/Obs/Latency/Marks.antt =====
-- A chunk that is published gives one sample and is closed.
use lad_translate.Common.{if◌then◌else◌, ℕ, ◌+◌, ◌≡◌, refl, ap, ◌∙◌, Bool, Option, none, some}
use lad_translate.Common.Int.{ℤ, ◌-ℤ◌, ltb_ℤ}
use lad_translate.Common.Text.{Text, text_eq}
use lad_translate.Common.Dict
use lad_translate.Common.Dict.{Dict, text_key}
use lad_translate.Obs.Trace.{
  Stage, published, stage_eq, stage_key, ChunkTrace, mark_trace, glass_to_glass, breakdown,
}
use lad_translate.Obs.Trace.Stages.{or_else, mark_trace-lookup}
use lad_translate.Obs.Latency.{
  LatencyRecorder, chunk_eq_iff, chunk_key, mark, close_trace, append_sample, samples_of,
  append_stages,
}

-- The recorder after a chunk with this latency is closed.
abbrev pub closed : LatencyRecorder → ChunkTrace → ℤ → LatencyRecorder
closed r t value = record r {
  g2g =
      Dict.insert t.language (append_sample r.sample_cap (samples_of t.language r.g2g) value) r.g2g;
  stages = append_stages r.sample_cap t.language (breakdown t) r.stages;
  breaches = if ltb_ℤ r.slo_seconds value then r.breaches + 1 else r.breaches;
  open_chunks = Dict.erase (t.chunk_id, t.language) r.open_chunks;
}

close_trace-some :
    (r : LatencyRecorder) (t : ChunkTrace) (value : ℤ)
    → glass_to_glass t ≡ some value
    → close_trace r t ≡ closed r t value
unfolding close_trace
close_trace-some r t value h = rw (h, close_trace) refl

-- The time at which a trace is published, once a mark at `w` is added.
abbrev pub published_at : ChunkTrace → ℤ → ℤ
published_at t w = elim (Dict.lookup published t.marks) [ none ↦ w | some first ↦ first ]

glass_or :
    (o : Option ℤ) (w end : ℤ)
    → (elim (or_else o (some w)) as (λ _. Option ℤ) [ none ↦ none | some x ↦ some (x -ℤ end) ])
      ≡ some ((elim o as (λ _. ℤ) [ none ↦ w | some first ↦ first ]) -ℤ end)
glass_or none w end = refl
glass_or (some x) w end = refl

marked_glass :
    (t : ChunkTrace) (w : ℤ)
    → glass_to_glass (mark_trace t published w) ≡ some (published_at t w -ℤ t.audio_end_wall)
unfolding glass_to_glass Dict.lookup mark_trace
marked_glass t w =
    ap
      (λ (o : Option ℤ). elim o as (λ _. Option ℤ) [
        | none ↦ none
        | some x ↦ some (x -ℤ t.audio_end_wall)
      ])
      (mark_trace-lookup t published published w)
    ∙ glass_or (Dict.lookup published t.marks) w t.audio_end_wall

-- The recorder with the mark put into the open chunk.
abbrev pub noted : LatencyRecorder → ChunkTrace → Stage → ℤ → LatencyRecorder
noted r t stage w = record r {
  open_chunks = Dict.insert (t.chunk_id, t.language) (mark_trace t stage w) r.open_chunks;
}

pub mark-open :
    (r : LatencyRecorder) (t : ChunkTrace) (stage : Stage) (w : ℤ)
    → Dict.lookup (t.chunk_id, t.language) r.open_chunks ≡ some t
    → mark r t.chunk_id t.language stage w ≡ (
        if stage_eq stage published
        then close_trace (noted r t stage w) (mark_trace t stage w)
        else noted r t stage w)
unfolding mark
mark-open r t stage w h = rw (h, mark) refl

mark-closes :
    (r : LatencyRecorder) (t : ChunkTrace) (w : ℤ)
    → Dict.lookup (t.chunk_id, t.language) r.open_chunks ≡ some t
    → mark r t.chunk_id t.language published w
      ≡ closed
          (noted r t published w)
          (mark_trace t published w)
          (published_at t w -ℤ t.audio_end_wall)
mark-closes r t w h =
    mark-open r t published w h
    ∙ close_trace-some (noted r t published w) (mark_trace t published w)
        (published_at t w -ℤ t.audio_end_wall) (marked_glass t w)

erased :
    (key : ℕ × Text) (d : Dict (ℕ × Text) ChunkTrace) → Dict.lookup key (Dict.erase key d) ≡ none
erased key d =
    Dict.lookup-erase key key d
    ∙ ap (λ (b : Bool). if b then none else Dict.lookup key d) ((chunk_eq_iff key key).1 refl)

-- When a chunk that is open is published, its language gains its latency as one more sample and no
-- other language changes, a latency beyond the objective is counted as a breach, and the chunk is
-- open no more.
pub mark-published :
    (r : LatencyRecorder) (t : ChunkTrace) (w : ℤ) (other : Text)
    → Dict.lookup (t.chunk_id, t.language) r.open_chunks ≡ some t
    → (let r' = mark r t.chunk_id t.language published w in
        let value = published_at t w -ℤ t.audio_end_wall in
        (Dict.lookup other r'.g2g ≡ (
          if text_eq t.language other
          then some (append_sample r.sample_cap (samples_of t.language r.g2g) value)
          else Dict.lookup other r.g2g))
        × (r'.breaches ≡ (if ltb_ℤ r.slo_seconds value then r.breaches + 1 else r.breaches))
        × (Dict.lookup (t.chunk_id, t.language) r'.open_chunks ≡ none))
unfolding mark_trace
mark-published r t w other h =
    let marked = mark_trace t published w in
    let value = published_at t w -ℤ t.audio_end_wall in
    rw (mark-closes r t w h) (
      Dict.lookup-insert t.language other
          (append_sample r.sample_cap (samples_of t.language r.g2g) value) r.g2g,
      refl,
      erased (t.chunk_id, t.language) (noted r t published w).open_chunks,
    )

mark-unknown :
    (r : LatencyRecorder) (id : ℕ) (language : Text) (stage : Stage) (w : ℤ)
    → Dict.lookup (id, language) r.open_chunks ≡ none
    → mark r id language stage w ≡ r
unfolding mark
mark-unknown r id language stage w h = rw (h, mark) refl

-- Once an open chunk is published no later mark of it changes the recorder.
pub published-once :
    (r : LatencyRecorder) (t : ChunkTrace) (w w' : ℤ) (stage : Stage)
    → Dict.lookup (t.chunk_id, t.language) r.open_chunks ≡ some t
    → mark (mark r t.chunk_id t.language published w) t.chunk_id t.language stage w'
      ≡ mark r t.chunk_id t.language published w
published-once r t w w' stage h =
    mark-unknown (mark r t.chunk_id t.language published w) t.chunk_id t.language stage w'
      (mark-published r t w t.language h).2
