-- ===== src/Stt/Transcribe/Live.antt =====
-- A whole session of the recogniser: it returns, and holds a bounded number of frames.
use lad_translate.Common.{
  leb, leb→le, Bool-cases, length, take, drop, length-drop, ℕ, zero, suc, ◌+◌, ◌≤◌, ◌<◌, ◌≡◌, refl,
  sym, subst, inl, inr, Option, some, List, [], ◌∷◌, ◌++◌, append_assoc, append-nil, arith,
}
use lad_translate.Stt.Schedule.{ChunkPlan, ChunkSchedule, sizes, advance, retain_from}
use lad_translate.Stt.Schedule.Offers.{IsUsable, Offers, done, more}
use lad_translate.Stt.Frames.{FrameWindow, available, held, append, extend}
use lad_translate.Stt.Frames.Windows.{IsWindow, append-IsWindow}
use lad_translate.Stt.Transcribe.{Text, Encoder, Stream, featurise_blocks}
use lad_translate.Stt.Transcribe.Steps.{advance-IsAhead}

-- Between two frames of audio: the buffer starts at the oldest frame that the next step can need,
-- and that step does not fit yet.
pub record IsWaiting (w : FrameWindow) (c : ChunkSchedule) : Type 0 where
  pub usable : IsUsable c.geometry
  pub origin : w.origin ≡ retain_from c
  pub first : c.step ≡ 0 → c.cursor ≡ 0
  pub reached : c.cursor ≤ w.total
  pub waits : w.total < c.cursor + (sizes c).chunk

-- Between two frames of audio fewer frames are held than one chunk and one cache.
pub held-bounded :
    (w : FrameWindow) (c : ChunkSchedule)
    → IsWaiting w c
    → held w < (sizes c).cache + (sizes c).chunk
unfolding held retain_from
held-bounded w c h = omega (arith, h.origin, h.reached, h.waits)

-- What a batch of steps does to the schedule.
pub record Batch (available : ℕ) (c c' : ChunkSchedule) : Type 0 where
  pub same : c'.geometry ≡ c.geometry
  pub fits : available < c'.cursor + (sizes c').chunk
  pub reached : c'.cursor ≤ available
  pub later : retain_from c ≤ retain_from c'
  pub first : c'.step ≡ 0 → c'.cursor ≡ 0

advance-reached :
    (c : ChunkSchedule) (available : ℕ)
    → IsUsable c.geometry
    → c.cursor + (sizes c).chunk ≤ available
    → (advance c).cursor ≤ available
unfolding sizes
advance-reached c available u h = ground (arith, u.covers, u.covers_first, h)

pub batch :
    (available origin : ℕ) (c c' : ChunkSchedule) (plans : List ChunkPlan)
    → IsUsable c.geometry
    → (c.step ≡ 0 → c.cursor ≡ 0)
    → c.cursor ≤ available
    → Offers available c plans c'
    → Batch available c c'
batch available origin c c' plans u f r (done h) = record {
  same = refl;
  fits = h;
  reached = r;
  later = omega arith;
  first = f;
}
batch available origin c c' (plan ∷ plans) u f r (more h rest) =
    let b =
      batch available origin (advance c) c' plans u (λ q. absurd (omega (arith, q)))
        (advance-reached c available u h) rest in
    record {
      same = b.same;
      fits = b.fits;
      reached = b.reached;
      later = omega (
        arith,
        b.later,
        (advance-IsAhead (retain_from c) c
            (record { usable = u; holds = omega arith; first = f })).holds,
      );
      first = b.first;
    }

module _ {ℓ κ} {A : Type ℓ} {C : Type κ} (e : Encoder A C) (language : Text) where
  -- What the front end adds to the stream of frames.
  pub record Heard (stream : List A) (s : Stream A C) (o : Option (Stream A C)) : Type (ℓ ⊔ κ) where
    pub after : Stream A C
    pub added : List A
    pub result : o ≡ some after
    pub schedule : after.schedule ≡ s.schedule
    pub window : IsWindow (stream ++ added) after.buffer
    pub origin : after.buffer.window.origin ≡ s.buffer.window.origin
    pub grows : s.buffer.window.total ≤ after.buffer.window.total

  pub featurise_blocks-Heard :
      (block fuel : ℕ) (stream : List A) (s : Stream A C)
      → 0 < block
      → length s.pending < fuel
      → IsWindow stream s.buffer
      → Heard stream s (featurise_blocks e language block fuel s)
  unfolding featurise_blocks append extend
  featurise_blocks-Heard block zero stream s p h w = elim h [ ]
  featurise_blocks-Heard block (suc fuel) stream s p h w =
      elim (Bool-cases (leb block (length s.pending))) [
        | inl q ↦
            (let features : List A = e.featurise (take block s.pending) in
              let r =
                featurise_blocks-Heard block fuel (stream ++ features)
                  (record s { pending = drop block s.pending; buffer = append s.buffer features }) p
                  (omega (arith, length-drop block s.pending, leb→le _ _ q))
                  (append-IsWindow stream features s.buffer w) in
              rw q (record {
                after = r.after;
                added = features ++ r.added;
                result = r.result;
                schedule = r.schedule;
                window =
                    subst (λ (xs : List A). IsWindow xs r.after.buffer)
                      (append_assoc stream features r.added) r.window;
                origin = r.origin;
                grows = omega (arith, r.grows);
              }))
        | inr q ↦ rw q (record {
          after = s;
          added = [];
          result = refl;
          schedule = refl;
          window = subst (λ (xs : List A). IsWindow xs s.buffer) (sym (append-nil stream)) w;
          origin = refl;
          grows = omega arith;
        })
      ]
