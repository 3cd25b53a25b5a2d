-- ===== src/Stt/Transcribe.antt =====
-- adapters/stt_fastconformer.py: `FastConformerSttAdapter.transcribe`, which runs the encoder over a
-- stream of audio. The front end and the encoder are parameters: `resample` is resample_to_16k,
-- `featurise` the mel front end and `encode` conformer_stream_step with `_extract_text`.
pub mod Steps
pub mod Live
pub mod Total
pub mod End
use lad_translate.Common.{
  leb, ◌==◌, if◌then◌else◌, length, take, drop, replicate, ◌>>=◌, ℕ, zero, suc, ◌+◌, Bool, true,
  false, not, ◌&&◌, Option, none, some, List, [], ◌∷◌, ◌++◌,
}
use lad_translate.Common.Text.{text_eq, Text}
use lad_translate.Adapters.Events.{AudioFrame, Hypothesis}
use lad_translate.Stt.Geometry.{StreamingGeometry, audio_time}
use lad_translate.Stt.Schedule.{new_schedule, ChunkPlan, ChunkSchedule, offer, flush, retain_from}
use lad_translate.Stt.Frames.{new_buffer, FeatureBuffer, available, append, slice, discard_before}
use lad_translate.Stt.Clock.{WordClock, stamp}

-- What the adapter calls and does not own.
pub record Encoder {ℓ κ} (A : Type ℓ) (C : Type κ) : Type (ℓ ⊔ κ) where
  pub resample : AudioFrame → List ℕ
  pub featurise : List ℕ → List A
  -- A frame of zeros.
  pub zeros : A
  -- The cache, the frames, `keep_all_outputs` and `drop_extra_pre_encoded`.
  pub encode : C → List A → Bool → ℕ → C × Text

-- The locals of `transcribe`, its `_StreamState` and the adapter's `_seq` and `_clock`.
pub record Stream {ℓ κ} (A : Type ℓ) (C : Type κ) : Type (ℓ ⊔ κ) where
  pub cache : C
  pub last_emitted : Text
  pub buffer : FeatureBuffer A
  pub schedule : ChunkSchedule
  pub pending : List ℕ
  pub text : Text
  pub last_plan : Option ChunkPlan
  pub seq : ℕ
  pub clock : WordClock

module _ {ℓ κ} {A : Type ℓ} {C : Type κ} (e : Encoder A C) (language : Text) where
  -- `_run_step`. `none` is an error of the slice.
  unfoldable pub run_step : Stream A C → ChunkPlan → Bool → Option (Stream A C)
  unfolding slice ◌>>=◌
  run_step s plan keep_all_outputs = do
    chunk ← slice s.buffer plan.cache_start plan.end
    let padded = replicate plan.zero_pad e.zeros ++ chunk
    let r = e.encode s.cache padded keep_all_outputs plan.drop_extra_pre_encoded
    some (record s { cache = r.0; text = r.1; last_plan = some plan })

  -- `_hypothesis`
  unfoldable pub hypothesis : Stream A C → ChunkPlan → Bool → ℕ → Hypothesis × Stream A C
  unfolding stamp audio_time
  hypothesis s plan is_final t_wall =
      let audio_end = audio_time plan.end in
      let stamped = stamp s.clock s.text audio_end in
      (
        record {
          text = s.text;
          is_final = is_final;
          t_audio_start = 0;
          t_audio_end = audio_end;
          t_wall = t_wall;
          seq = s.seq + 1;
          language = some language;
          confidence = none;
          words = some stamped.0;
        },
        record s { seq = s.seq + 1; clock = stamped.1 },
      )

  -- `for plan in plans`. `none` is an error of a slice.
  unfoldable pub run_plans : Stream A C → List ChunkPlan → ℕ → Option (List Hypothesis × Stream A C)
  unfolding run_step hypothesis ◌>>=◌
  run_plans s [] t_wall = some ([], s)
  run_plans s (plan ∷ plans) t_wall = do
    s' ← run_step s plan false
    let emits = not (text_eq s'.text []) && not (text_eq s'.text s'.last_emitted)
    let h = hypothesis (record s' { last_emitted = s'.text }) plan false t_wall
    rest ← run_plans (if emits then h.1 else s') plans t_wall
    some ((if emits then h.0 ∷ [] else []) ++ rest.0, rest.1)

  -- `while pending.size >= samples_per_block`. `none` is a loop that the fuel does not end.
  unfoldable pub featurise_blocks : ℕ → ℕ → Stream A C → Option (Stream A C)
  unfolding append
  featurise_blocks block zero s = none
  featurise_blocks block (suc fuel) s =
      let rest = featurise_blocks block fuel (record s {
        pending = drop block s.pending;
        buffer = append s.buffer (e.featurise (take block s.pending));
      }) in
      if leb block (length s.pending) then rest else some s

  -- The body of `async for frame in frames`.
  unfoldable pub on_frame : ℕ → Stream A C → AudioFrame → ℕ → Option (List Hypothesis × Stream A C)
  unfolding run_plans featurise_blocks offer retain_from discard_before ◌>>=◌
  on_frame block s frame t_wall = do
    let s1 : Stream A C = record s { pending = s.pending ++ e.resample frame }
    s2 ← featurise_blocks block (length s1.pending + 1) s1
    offered ← offer s2.schedule (available s2.buffer)
    r ← run_plans (record s2 { schedule = offered.1 }) offered.0 t_wall
    some (
      r.0,
      (if length offered.0 == 0
          then r.1
          else record r.1 { buffer = discard_before r.1.buffer (retain_from offered.1) }),
    )

  -- What follows the loop: the last short step and the final hypothesis.
  unfoldable pub finish : Stream A C → ℕ → Option (List Hypothesis × Stream A C)
  unfolding run_step hypothesis append flush ◌>>=◌
  finish s t_wall = do
    let s1 : Stream A C =
        if length s.pending == 0
        then s
        else record s { buffer = append s.buffer (e.featurise s.pending) }
    let flushed = flush s1.schedule (available s1.buffer)
    let s2 : Stream A C = record s1 { schedule = flushed.1 }
    s3 ← elim flushed.0 [ none ↦ some s2 | some plan ↦ run_step s2 plan true ]
    some (elim s3.last_plan [
      | none ↦ ([], s3)
      | some plan ↦
          (let h = hypothesis s3 plan true t_wall in
            if text_eq s3.text [] then ([], s3) else (h.0 ∷ [], h.1))
    ])

  -- The generator, over the frames and the time at each.
  unfoldable pub transcribe :
      ℕ → Stream A C → List (AudioFrame × ℕ) → ℕ → Option (List Hypothesis × Stream A C)
  unfolding on_frame finish ◌>>=◌
  transcribe block s [] t_end = finish s t_end
  transcribe block s ((frame, t_wall) ∷ frames) t_end = do
    here ← on_frame block s frame t_wall
    rest ← transcribe block here.1 frames t_end
    some (here.0 ++ rest.0, rest.1)

module _ {ℓ κ} {A : Type ℓ} {C : Type κ} where
  abbrev pub new_stream : C → StreamingGeometry → WordClock → ℕ → Stream A C
  new_stream cache geometry clock seq = record {
    cache = cache;
    last_emitted = [];
    buffer = new_buffer;
    schedule = new_schedule geometry;
    pending = [];
    text = [];
    last_plan = none;
    seq = seq;
    clock = clock;
  }
