-- ===== src/Stt/Transcribe/End.antt =====
-- The end of a session of the recogniser, and the session as a whole.
use lad_translate.Common.{
  leb, ◌==◌, if◌then◌else◌, leb-false→lt, Bool-cases, length, >>=-some, ℕ, ◌≤◌, ◌<◌, ◌≡◌, refl, sym,
  ap, ◌∙◌, subst, inl, inr, Bool, true, false, Option, none, some, List, [], ◌∷◌, ◌++◌, append-nil,
  arith,
}
use lad_translate.Adapters.Events.{AudioFrame, Hypothesis}
use lad_translate.Stt.Geometry.{StreamingGeometry}
use lad_translate.Stt.Schedule.{ChunkPlan, ChunkSchedule, sizes, plan_to, flush, retain_from}
use lad_translate.Stt.Schedule.Offers.{IsUsable}
use lad_translate.Stt.Frames.{available, append, extend}
use lad_translate.Stt.Frames.Windows.{IsWindow, append-IsWindow}
use lad_translate.Stt.Transcribe.{
  WordClock, text_eq, Text, Encoder, Stream, run_step, hypothesis, on_frame, finish, transcribe,
  new_stream,
}
use lad_translate.Stt.Transcribe.Steps.{Stepped, run_step-Stepped}
use lad_translate.Stt.Transcribe.Total.{new_stream-IsLive, IsLive, Listened, on_frame-Listened}

-- A step to any end starts where the window does or later.
plan-start :
    (origin end : ℕ) (c : ChunkSchedule)
    → origin ≡ retain_from c
    → origin ≤ (plan_to c end).cache_start
unfolding retain_from sizes
plan-start origin end c h = omega (arith, h)

module _ {ℓ κ} {A : Type ℓ} {C : Type κ} (e : Encoder A C) (language : Text) where
  record LastBlock (stream : List A) (s s1 : Stream A C) : Type ℓ where
    added : List A
    schedule : s1.schedule ≡ s.schedule
    window : IsWindow (stream ++ added) s1.buffer
    origin : s1.buffer.window.origin ≡ s.buffer.window.origin

  last_block :
      (empty : Bool) (stream : List A) (s : Stream A C)
      → IsWindow stream s.buffer
      → LastBlock stream s
          (if empty then s else record s { buffer = append s.buffer (e.featurise s.pending) })
  unfolding append extend
  last_block true stream s w = record {
    added = [];
    schedule = refl;
    window = subst (λ (xs : List A). IsWindow xs s.buffer) (sym (append-nil stream)) w;
    origin = refl;
  }
  last_block false stream s w = record {
    added = e.featurise s.pending;
    schedule = refl;
    window = append-IsWindow stream (e.featurise s.pending) s.buffer w;
    origin = refl;
  }

  abbrev last_step : Option ChunkPlan → Stream A C → Option (Stream A C)
  last_step o s = elim o [ none ↦ some s | some plan ↦ run_step e language s plan true ]

  last_step-Stepped :
      (stream : List A) (c : ChunkSchedule) (s : Stream A C)
      → IsWindow stream s.buffer
      → s.buffer.window.origin ≡ retain_from c
      → Stepped e language s (last_step (flush c (available s.buffer)).0 s)
  unfolding flush
  last_step-Stepped stream c s w o = elim (Bool-cases (leb (available s.buffer) c.cursor)) [
    | inl q ↦
        rw (q, flush)
          (record {
            after = s;
            result = refl;
            kept = record { buffer = refl; schedule = refl; pending = refl };
          })
    | inr q ↦
        rw (q, flush)
          (run_step-Stepped e language s (plan_to c (available s.buffer)) true stream w
            (plan-start s.buffer.window.origin (available s.buffer) c o) (omega arith)
            (omega (arith, leb-false→lt _ _ q)))
  ]

  pub record Returns (o : Option (List Hypothesis × Stream A C)) : Type (ℓ ⊔ κ) where
    pub value : List Hypothesis × Stream A C
    pub result : o ≡ some value

  finish-Returns :
      (stream : List A) (s : Stream A C) (t_wall : ℕ)
      → IsLive stream s.buffer s.schedule
      → Returns (finish e language s t_wall)
  unfolding finish
  finish-Returns stream s t_wall live =
      let empty : Bool = length s.pending == 0 in
      let s1 : Stream A C =
        if empty then s else record s { buffer = append s.buffer (e.featurise s.pending) } in
      let last : LastBlock stream s s1 = last_block empty stream s live.window in
      let s2 : Stream A C = record s1 { schedule = (flush s1.schedule (available s1.buffer)).1 } in
      let st : Stepped e language s2 (last_step (flush s1.schedule (available s1.buffer)).0 s2) =
        last_step-Stepped (stream ++ last.added) s1.schedule s2 last.window
          (last.origin ∙ live.waiting.origin ∙ ap retain_from (sym last.schedule)) in
      record {
        value = elim st.after.last_plan [
          | none ↦ ([], st.after)
          | some plan ↦
              (let h = hypothesis e language st.after plan true t_wall in
                if text_eq st.after.text [] then ([], st.after) else (h.0 ∷ [], h.1))
        ];
        result = >>=-some _ _ _ st.result;
      }

  transcribe-Returns_from :
      (block : ℕ) (s : Stream A C) (frames : List (AudioFrame × ℕ)) (t_end : ℕ) (stream : List A)
      → 0 < block
      → IsLive stream s.buffer s.schedule
      → Returns (transcribe e language block s frames t_end)
  unfolding transcribe
  transcribe-Returns_from block s [] t_end stream p live = finish-Returns stream s t_end live
  transcribe-Returns_from block s ((frame, t_wall) ∷ frames) t_end stream p live =
      let here : Listened e language stream (on_frame e language block s frame t_wall) =
        on_frame-Listened e language block stream s frame t_wall p live in
      let rest : Returns (transcribe e language block here.after frames t_end) =
        transcribe-Returns_from block here.after frames t_end (stream ++ here.added) p here.live in
      record {
        value = (here.out ++ rest.value.0, rest.value.1);
        result = >>=-some _ _ _ here.result ∙ >>=-some _ _ _ rest.result;
      }

-- With a usable geometry and a block of one sample or more, `transcribe` of any audio returns: no
-- step asks for a frame that was discarded or has not come, and no loop runs on.
pub transcribe-Returns {ℓ κ} :
    {A : Type ℓ} {C : Type κ} (e : Encoder A C) (language : Text) (block : ℕ) (cache : C)
    (g : StreamingGeometry) (clock : WordClock) (seq : ℕ) (frames : List (AudioFrame × ℕ))
    (t_end : ℕ)
    → IsUsable g
    → 0 < block
    → Returns e language (transcribe e language block (new_stream cache g clock seq) frames t_end)
transcribe-Returns e language block cache g clock seq frames t_end u p =
    transcribe-Returns_from e language block (new_stream cache g clock seq) frames t_end [] p
      (new_stream-IsLive g u)
