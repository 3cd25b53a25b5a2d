-- ===== src/Stt/Transcribe/Steps.antt =====
-- The steps of one batch: none of them asks for a frame that is gone or has not come.
use lad_translate.Common.{
  ◌==◌, if◌then◌else◌, Bool-cases, take, drop, replicate, >>=-some, ℕ, ◌+◌, ◌-◌, ◌≤◌, ◌<◌, ◌≡◌,
  refl, sym, ◌∙◌, subst, inl, inr, Bool, true, false, not, ◌&&◌, Option, some, List, [], ◌∷◌, ◌++◌,
  arith,
}
use lad_translate.Adapters.Events.{Hypothesis}
use lad_translate.Stt.Schedule.{ChunkPlan, ChunkSchedule, sizes, plan_to, advance, retain_from}
use lad_translate.Stt.Schedule.Offers.{IsUsable, Offers, done, more}
use lad_translate.Stt.Frames.{FeatureBuffer}
use lad_translate.Stt.Frames.Windows.{IsWindow, slice-range}
use lad_translate.Stt.Transcribe.{text_eq, Text, Encoder, Stream, run_step, run_plans, hypothesis}

-- The schedule's place against the frames that are held.
pub record IsAhead (origin : ℕ) (c : ChunkSchedule) : Type 0 where
  pub usable : IsUsable c.geometry
  pub holds : origin ≤ retain_from c
  pub first : c.step ≡ 0 → c.cursor ≡ 0

pub advance-IsAhead :
    (origin : ℕ) (c : ChunkSchedule) → IsAhead origin c → IsAhead origin (advance c)
unfolding retain_from sizes
advance-IsAhead origin c a = record {
  usable = a.usable;
  holds = elim (Bool-cases (c.step == 0)) [
    | inl q ↦ ground (arith, a.holds, a.first (ground arith))
    | inr q ↦ ground (arith, a.holds)
  ];
  first = λ q. absurd (omega (arith, q));
}

pub plan-bounds :
    (origin : ℕ) (c : ChunkSchedule)
    → IsAhead origin c
    → (origin ≤ (plan_to c (c.cursor + (sizes c).chunk)).cache_start)
      × (0 < c.cursor + (sizes c).chunk)
unfolding retain_from sizes
plan-bounds origin c a =
    (omega (arith, a.holds), ground (arith, a.usable.first, a.usable.moves, a.usable.covers))

module _ {ℓ κ} {A : Type ℓ} {C : Type κ} (e : Encoder A C) (language : Text) where
  -- What `run_step` and `run_plans` leave alone.
  pub record Kept (s s' : Stream A C) : Type ℓ where
    pub buffer : s'.buffer ≡ s.buffer
    pub schedule : s'.schedule ≡ s.schedule
    pub pending : s'.pending ≡ s.pending

  pub record Stepped (s : Stream A C) (o : Option (Stream A C)) : Type (ℓ ⊔ κ) where
    pub after : Stream A C
    pub result : o ≡ some after
    pub kept : Kept s after

  pub run_step-Stepped :
      (s : Stream A C) (plan : ChunkPlan) (keep_all : Bool) (stream : List A)
      → IsWindow stream s.buffer
      → s.buffer.window.origin ≤ plan.cache_start
      → plan.end ≤ s.buffer.window.total
      → 0 < plan.end
      → Stepped s (run_step e language s plan keep_all)
  unfolding run_step
  run_step-Stepped s plan keep_all stream w h k p = record {
    after = record s { cache = r.0; text = r.1; last_plan = some plan };
    result = >>=-some _ _ _ (slice-range stream s.buffer plan.cache_start plan.end w h k p);
    kept = record { buffer = refl; schedule = refl; pending = refl };
  }
    where
      chunk : List A
      chunk = take (plan.end - plan.cache_start) (drop plan.cache_start stream)

      r : C × Text
      r =
          e.encode s.cache (replicate plan.zero_pad e.zeros ++ chunk) keep_all
            plan.drop_extra_pre_encoded

  pub record Ran (s : Stream A C) (o : Option (List Hypothesis × Stream A C)) : Type (ℓ ⊔ κ) where
    pub out : List Hypothesis
    pub after : Stream A C
    pub result : o ≡ some (out, after)
    pub kept : Kept s after

  pub Kept-trans : (s s' s'' : Stream A C) → Kept s s' → Kept s' s'' → Kept s s''
  Kept-trans s s' s'' k l = record {
    buffer = l.buffer ∙ k.buffer;
    schedule = l.schedule ∙ k.schedule;
    pending = l.pending ∙ k.pending;
  }

  Kept-hypothesis :
      (emits is_final : Bool) (s s' s'' : Stream A C) (plan : ChunkPlan) (t_wall : ℕ)
      → Kept s s'
      → Kept s s''
      → Kept s (if emits then (hypothesis e language s'' plan is_final t_wall).1 else s')
  unfolding hypothesis
  Kept-hypothesis true is_final s s' s'' plan t_wall k l = record {
    buffer = l.buffer;
    schedule = l.schedule;
    pending = l.pending;
  }
  Kept-hypothesis false is_final s s' s'' plan t_wall k l = k

  pub run_plans-Ran :
      (b : FeatureBuffer A) (t_wall : ℕ) (stream : List A)
      → IsWindow stream b
      → (s : Stream A C) (c c' : ChunkSchedule) (plans : List ChunkPlan) → s.buffer ≡ b
      → IsAhead b.window.origin c
      → Offers b.window.total c plans c'
      → Ran s (run_plans e language s plans t_wall)
  unfolding run_plans
  run_plans-Ran b t_wall stream w s c c' plans q a (done h) = record {
    out = [];
    after = s;
    result = refl;
    kept = record { buffer = refl; schedule = refl; pending = refl };
  }
  run_plans-Ran b t_wall stream w s c c' (plan ∷ plans) q a (more h rest) =
      let bounds = plan-bounds b.window.origin c a in
      let one : Stepped s (run_step e language s plan false) =
        run_step-Stepped s plan false stream (subst (λ x. IsWindow stream x) (sym q) w)
          (subst (λ (x : FeatureBuffer A). x.window.origin ≤ plan.cache_start) (sym q) bounds.0)
          (subst (λ (x : FeatureBuffer A). plan.end ≤ x.window.total) (sym q) h) bounds.1 in
      let emits =
        not (text_eq one.after.text []) && not (text_eq one.after.text one.after.last_emitted) in
      let emitted : Stream A C = record one.after { last_emitted = one.after.text } in
      let s' : Stream A C =
        if emits then (hypothesis e language emitted plan false t_wall).1 else one.after in
      let kept : Kept s s' =
        Kept-hypothesis emits false s one.after emitted plan t_wall one.kept (record {
          buffer = one.kept.buffer;
          schedule = one.kept.schedule;
          pending = one.kept.pending;
        }) in
      let others : Ran s' (run_plans e language s' plans t_wall) =
        run_plans-Ran b t_wall stream w s' (advance c) c' plans (kept.buffer ∙ q)
          (advance-IsAhead b.window.origin c a) rest in
      record {
        out =
            (if emits then (hypothesis e language emitted plan false t_wall).0 ∷ [] else [])
            ++ others.out;
        after = others.after;
        result = >>=-some _ _ _ one.result ∙ >>=-some _ _ _ others.result;
        kept = Kept-trans s s' others.after kept others.kept;
      }
