-- ===== src/Stt/Schedule/Offers.antt =====
-- What `offer` hands out: the steps that fit in the frames received so far, and no others.
use lad_translate.Common.{
  ltb, ◌==◌, if◌then◌else◌, ltb→lt, ltb-false→le, Bool-cases, All, ℕ, zero, suc, ◌+◌, ◌-◌, ◌≤◌, ◌<◌,
  ◌≡◌, refl, ap, inl, inr, Option, none, some, List, [], ◌∷◌, arith,
}
use lad_translate.Stt.Geometry.{StreamingGeometry}
use lad_translate.Stt.Schedule.{
  ChunkPlan, ChunkSchedule, sizes, width, cache_frames, plan_to, advance, offer, offer_loop,
}

-- The sizes of an encoder that can stream: a step moves on, and skips no frame.
pub record IsUsable (g : StreamingGeometry) : Type 0 where
  pub moves : 0 < g.shift_size
  pub first : 0 < g.chunk_size_first
  pub covers_first : g.shift_size_first ≤ g.chunk_size_first
  pub covers : g.shift_size ≤ g.chunk_size

-- The steps from `s` that fit in `available` frames, one after the other, until none does.
pub data Offers (available : ℕ) : ChunkSchedule → List ChunkPlan → ChunkSchedule → Type 0 where
  done : {s : ChunkSchedule} → available < s.cursor + (sizes s).chunk → Offers available s [] s
  more :
      {s s' : ChunkSchedule} {plans : List ChunkPlan}
      → s.cursor + (sizes s).chunk ≤ available
      → Offers available (advance s) plans s'
      → Offers available s (plan_to s (s.cursor + (sizes s).chunk) ∷ plans) s'

pub record Offered (available : ℕ) (s : ChunkSchedule) (o : Option (List ChunkPlan × ChunkSchedule))
    : Type 0 where
  pub plans : List ChunkPlan
  pub after : ChunkSchedule
  pub result : o ≡ some (plans, after)
  pub offers : Offers available s plans after

-- The rounds that may be left.
abbrev rounds : ℕ → ChunkSchedule → ℕ
rounds available s = available + 1 - s.cursor + (if s.step == 0 then 1 else 0)

shift-moves : (s : ChunkSchedule) → IsUsable s.geometry → 0 < s.step → 0 < (sizes s).shift
unfolding sizes
shift-moves s u h = ground (arith, u.moves)

rounds-advance :
    (available : ℕ) (s : ChunkSchedule)
    → IsUsable s.geometry
    → s.cursor + (sizes s).chunk ≤ available
    → rounds available (advance s) < rounds available s
rounds-advance available s u h = elim (Bool-cases (s.step == 0)) [
  | inl e ↦ ground (arith)
  | inr e ↦ ground (arith, shift-moves s u (ground arith))
]

offer_loop-Offered :
    (fuel available : ℕ) (s : ChunkSchedule)
    → IsUsable s.geometry
    → rounds available s < fuel
    → Offered available s (offer_loop fuel s available)
unfolding offer_loop
offer_loop-Offered zero available s u h = elim h [ ]
offer_loop-Offered (suc fuel) available s u h =
    elim (Bool-cases (ltb available (s.cursor + (sizes s).chunk))) [
      | inl e ↦ rw e (record { plans = []; after = s; result = refl; offers = done (ltb→lt _ _ e) })
      | inr e ↦ rw e (
          let rest =
            offer_loop-Offered fuel available (advance s) u
              (omega (arith, rounds-advance available s u (ltb-false→le _ _ e))) in
          record {
            plans = plan_to s (s.cursor + (sizes s).chunk) ∷ rest.plans;
            after = rest.after;
            result =
                ap
                  (λ (o : Option (List ChunkPlan × ChunkSchedule)). elim o [
                    | none ↦ none
                    | some r ↦ some (plan_to s (s.cursor + (sizes s).chunk) ∷ r.0, r.1)
                  ])
                  rest.result;
            offers = more (ltb-false→le _ _ e) rest.offers;
          })
    ]

-- For a usable geometry `offer` returns, and its plans are the steps from the cursor that fit in
-- the frames received, in order, up to the first that does not.
pub offer-Offers :
    (s : ChunkSchedule) (available : ℕ)
    → IsUsable s.geometry
    → Offered available s (offer s available)
unfolding offer
offer-Offers s available u = offer_loop-Offered (available + 3) available s u (ground arith)

-- The frames that an encoder step is given: one chunk and one cache, the first step's own sizes
-- at the first step.
abbrev pub step_width : StreamingGeometry → ℕ → ℕ
step_width g step =
    if step == 0
    then g.pre_encode_cache_first + g.chunk_size_first
    else g.pre_encode_cache + g.chunk_size

plan_width :
    (s : ChunkSchedule)
    → width (plan_to s (s.cursor + (sizes s).chunk)) ≡ step_width s.geometry s.step
unfolding width cache_frames sizes
plan_width s = ground arith

-- Every step that `offer` hands out is as wide as the encoder expects, whatever history there is
-- to put before it, and ends within the frames received.
pub offer-width :
    (available : ℕ) (s s' : ChunkSchedule) (plans : List ChunkPlan)
    → Offers available s plans s'
    → All (λ p. (width p ≡ step_width s.geometry p.step) × (p.end ≤ available)) plans
offer-width available s s' plans (done h) = tt
offer-width available s s' (p ∷ plans) (more h rest) =
    ((plan_width s, h), offer-width available (advance s) s' plans rest)
