-- ===== src/Stt/Transcribe/Total.antt =====
-- A whole session of the recogniser, from the first frame of audio to the last.
use lad_translate.Common.{
  ◌==◌, if◌then◌else◌, ==_iff, length, >>=-some, ℕ, ◌+◌, ◌<◌, ◌≡◌, refl, sym, ap, ◌∙◌, subst, Bool,
  true, false, Option, some, List, [], ◌∷◌, ◌++◌, arith,
}
use lad_translate.Adapters.Events.{AudioFrame, Hypothesis}
use lad_translate.Stt.Geometry.{StreamingGeometry}
use lad_translate.Stt.Schedule.{ChunkPlan, ChunkSchedule, new_schedule, sizes, offer, retain_from}
use lad_translate.Stt.Schedule.Offers.{IsUsable, Offers, done, more, Offered, offer-Offers}
use lad_translate.Stt.Frames.{
  FeatureBuffer, new_buffer, available, held, discard_before, drop_before,
}
use lad_translate.Stt.Frames.Windows.{IsWindow, new_buffer-IsWindow, discard_before-IsWindow}
use lad_translate.Stt.Transcribe.{Text, Encoder, Stream, run_plans, featurise_blocks, on_frame}
use lad_translate.Stt.Transcribe.Steps.{Ran, run_plans-Ran}
use lad_translate.Stt.Transcribe.Live.{
  held-bounded, IsWaiting, Batch, batch, Heard, featurise_blocks-Heard,
}

offers-none :
    (available : ℕ) (c c' : ChunkSchedule) (plans : List ChunkPlan)
    → Offers available c plans c'
    → length plans ≡ 0
    → c' ≡ c
offers-none available c c' plans (done h) q = refl
offers-none available c c' (plan ∷ plans) (more h rest) q = absurd (omega (arith, q))

module _ {ℓ} {A : Type ℓ} where
  -- The buffer holds the stream that the front end has made, and waits for the next step's frames.
  pub record IsLive (stream : List A) (b : FeatureBuffer A) (c : ChunkSchedule) : Type ℓ where
    pub window : IsWindow stream b
    pub waiting : IsWaiting b.window c

  discard-IsLive :
      (stream : List A) (b : FeatureBuffer A) (c c' : ChunkSchedule)
      → IsWindow stream b
      → IsUsable c.geometry
      → b.window.origin ≡ retain_from c
      → Batch b.window.total c c'
      → IsLive stream (discard_before b (retain_from c')) c'
  unfolding discard_before drop_before retain_from
  discard-IsLive stream b c c' w u o h = record {
    window = discard_before-IsWindow stream (retain_from c') b w;
    waiting = record {
      usable = subst (λ g. IsUsable g) (sym h.same) u;
      origin = omega (arith, o, h.later, h.reached);
      first = h.first;
      reached = h.reached;
      waits = h.fits;
    };
  }

  Batch-IsLive :
      (stream : List A) (b : FeatureBuffer A) (c c' : ChunkSchedule) (plans : List ChunkPlan)
      → IsWindow stream b
      → IsUsable c.geometry
      → b.window.origin ≡ retain_from c
      → Batch b.window.total c c'
      → Offers b.window.total c plans c'
      → (length plans ≡ 0)
      → IsLive stream b c'
  Batch-IsLive stream b c c' plans w u o h offers q = record {
    window = w;
    waiting = record {
      usable = subst (λ g. IsUsable g) (sym h.same) u;
      origin = o ∙ ap retain_from (sym (offers-none b.window.total c c' plans offers q));
      first = h.first;
      reached = h.reached;
      waits = h.fits;
    };
  }

pub new_stream-IsLive {ℓ} :
    {A : Type ℓ} (g : StreamingGeometry)
    → IsUsable g
    → IsLive {A = A} [] new_buffer (new_schedule g)
unfolding retain_from sizes
new_stream-IsLive g u = record {
  window = new_buffer-IsWindow;
  waiting = record {
    usable = u;
    origin = omega arith;
    first = λ q. refl;
    reached = omega arith;
    waits = omega (arith, u.first);
  };
}

module _ {ℓ κ} {A : Type ℓ} {C : Type κ} (e : Encoder A C) (language : Text) where
  pub record Listened (stream : List A) (o : Option (List Hypothesis × Stream A C))
      : Type (ℓ ⊔ κ) where
    pub out : List Hypothesis
    pub after : Stream A C
    pub added : List A
    pub result : o ≡ some (out, after)
    pub live : IsLive (stream ++ added) after.buffer after.schedule
    pub bound :
        held after.buffer.window < (sizes after.schedule).cache + (sizes after.schedule).chunk

  closing :
      (empty : Bool) (stream : List A) (b : FeatureBuffer A) (c' : ChunkSchedule) (r : Stream A C)
      → r.buffer ≡ b
      → r.schedule ≡ c'
      → (empty ≡ true → IsLive stream b c')
      → IsLive stream (discard_before b (retain_from c')) c'
      → (let s' : Stream A C =
            if empty then r else record r { buffer = discard_before r.buffer (retain_from c') } in
          IsLive stream s'.buffer s'.schedule)
  closing true stream b c' r p q live _ =
      subst (λ x. IsLive stream r.buffer x) (sym q)
        (subst (λ x. IsLive stream x c') (sym p) (live refl))
  closing false stream b c' r p q _ live =
      subst (λ x. IsLive stream (discard_before r.buffer (retain_from c')) x) (sym q)
        (subst (λ x. IsLive stream (discard_before x (retain_from c')) c') (sym p) live)

  pub on_frame-Listened :
      (block : ℕ) (stream : List A) (s : Stream A C) (frame : AudioFrame) (t_wall : ℕ)
      → 0 < block
      → IsLive stream s.buffer s.schedule
      → Listened stream (on_frame e language block s frame t_wall)
  unfolding on_frame
  on_frame-Listened block stream s frame t_wall p live =
      let s1 : Stream A C = record s { pending = s.pending ++ e.resample frame } in
      let hb : Heard e language stream s1
          (featurise_blocks e language block (length s1.pending + 1) s1) =
        featurise_blocks-Heard e language block (length s1.pending + 1) stream s1 p (omega arith)
          live.window in
      let c : ChunkSchedule = hb.after.schedule in
      let b : FeatureBuffer A = hb.after.buffer in
      let w : IsWaiting s.buffer.window c =
        subst (λ x. IsWaiting s.buffer.window x) (sym hb.schedule) live.waiting in
      let o : b.window.origin ≡ retain_from c = hb.origin ∙ w.origin in
      let off : Offered b.window.total c (offer c b.window.total) =
        offer-Offers c b.window.total w.usable in
      let bt : Batch b.window.total c off.after =
        batch b.window.total b.window.origin c off.after off.plans w.usable w.first
          (omega (arith, w.reached, hb.grows)) off.offers in
      let ran : Ran e language (record hb.after { schedule = off.after })
          (run_plans e language (record hb.after { schedule = off.after }) off.plans t_wall) =
        run_plans-Ran e language b t_wall (stream ++ hb.added) hb.window
          (record hb.after { schedule = off.after }) c off.after off.plans refl
          (record { usable = w.usable; holds = omega (arith, o); first = w.first }) off.offers in
      let after : Stream A C = if length off.plans == 0 then ran.after else record ran.after {
        buffer = discard_before ran.after.buffer (retain_from off.after);
      } in
      let live' : IsLive (stream ++ hb.added) after.buffer after.schedule =
        closing (length off.plans == 0) (stream ++ hb.added) b off.after ran.after ran.kept.buffer
          ran.kept.schedule
          (λ q.
            Batch-IsLive (stream ++ hb.added) b c off.after off.plans hb.window w.usable o bt
              off.offers ((==_iff (length off.plans) 0).0 q))
          (discard-IsLive (stream ++ hb.added) b c off.after hb.window w.usable o bt) in
      record {
        out = ran.out;
        after = after;
        added = hb.added;
        result = >>=-some _ _ _ hb.result ∙ >>=-some _ _ _ off.result ∙ >>=-some _ _ _ ran.result;
        live = live';
        bound = held-bounded after.buffer.window after.schedule live'.waiting;
      }
