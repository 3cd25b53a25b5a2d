-- ===== src/Session/Drift/Speed.antt =====
-- The speed that a policy gives for a queue, and the checks that a policy has to pass.
use lad_translate.Common.{
  leb, lt→ltb, le→leb, leb→le, leb-false→lt, lt→leb-false, Bool-cases, length, ℕ, ◌+◌, ◌-◌, ◌*◌,
  ◌≤◌, ◌<◌, min, ◌≡◌, refl, ap, ◌∙◌, ◌↔◌, inl, inr, arith,
}
use lad_translate.Common.Rounding.{round_half_even, round_half_even_mono, round_half_even-mul}
use lad_translate.Session.Drift.{DriftPolicy, ok, check_policy, speed_at}

pub record IsValid (p : DriftPolicy) : Type 0 where
  pub comfortable : p.comfortable_s < p.speedup_at_s
  pub ramp : p.speedup_at_s + 500_000_000 ≤ p.skip_at_s
  pub fastest : 1000 ≤ p.max_speed

-- A policy is accepted if and only if its thresholds increase, its ramp is half a second long at
-- least, and its greatest speed is no less than the normal one; it is then what was asked for.
pub check_policy_iff : (p : DriftPolicy) → (check_policy p ≡ ok p) ↔ IsValid p
unfolding check_policy
check_policy_iff p = (
  λ e. record { comfortable = ground arith; ramp = ground arith; fastest = ground arith },
  λ v. ground arith,
)

mul_mono : (m m' g : ℕ) → m ≤ m' → m * g ≤ m' * g
mul_mono m m' g h = grind arith

whole_ramp :
    (fastest length : ℕ)
    → 1000 ≤ fastest
    → 1000 * length + length * (fastest - 1000) ≡ fastest * length
whole_ramp fastest length h =
    let parts : fastest ≡ 1000 + (fastest - 1000) = omega arith in product (fastest - 1000) parts
  where
    product : (g : ℕ) → fastest ≡ 1000 + g → 1000 * length + length * g ≡ fastest * length
    product g e = rw e (omega arith)

-- The numerator of the speed, over the length of the ramp.
abbrev ramp_at : DriftPolicy → ℕ → ℕ
ramp_at p depth =
    1000 * (p.skip_at_s - p.speedup_at_s)
    + min (p.skip_at_s - p.speedup_at_s) (depth - p.speedup_at_s) * (p.max_speed - 1000)

module _ (p : DriftPolicy) (v : IsValid p) where
  abbrev span : ℕ
  span = p.skip_at_s - p.speedup_at_s

  span-pos : 1 ≤ span
  span-pos = omega arith

  speed_at-normal : (depth : ℕ) → depth ≤ p.speedup_at_s → speed_at p depth ≡ 1000
  unfolding speed_at
  speed_at-normal depth h = rw (le→leb _ _ h) refl

  speed_at-ramp :
      (depth : ℕ)
      → p.speedup_at_s < depth
      → speed_at p depth ≡ round_half_even (ramp_at p depth) span
  unfolding speed_at
  speed_at-ramp depth h = rw (lt→leb-false _ _ h) (rw (lt→ltb _ _ span-pos) refl)

  ramp_mono : (d d' : ℕ) → d ≤ d' → ramp_at p d ≤ ramp_at p d'
  ramp_mono d d' h = omega (
    arith,
    mul_mono (min span (d - p.speedup_at_s)) (min span (d' - p.speedup_at_s)) (p.max_speed - 1000)
        (omega arith),
  )

  ramp-low : (d : ℕ) → 1000 * span ≤ ramp_at p d
  ramp-low d = omega arith

  ramp-high : (d : ℕ) → ramp_at p d ≤ p.max_speed * span
  ramp-high d = omega (
    arith,
    mul_mono (min span (d - p.speedup_at_s)) span (p.max_speed - 1000) (omega arith),
    whole_ramp p.max_speed span v.fastest,
  )

  ramp-full : (d : ℕ) → p.skip_at_s ≤ d → ramp_at p d ≡ p.max_speed * span
  ramp-full d h =
      let full : min span (d - p.speedup_at_s) ≡ span = omega arith in
      rw full (whole_ramp p.max_speed span v.fastest)

  -- With a valid policy the speed lies between the normal one and the greatest one.
  pub speed_bounds : (depth : ℕ) → (1000 ≤ speed_at p depth) × (speed_at p depth ≤ p.max_speed)
  speed_bounds depth = elim (Bool-cases (leb depth p.speedup_at_s)) [
    | inl low ↦
        let e = speed_at-normal depth (leb→le _ _ low) in
        (omega (arith, e), omega (arith, e, v.fastest))
    | inr high ↦
        let e = speed_at-ramp depth (leb-false→lt _ _ high) in
        let low_end =
          round_half_even_mono (1000 * span) (ramp_at p depth) span span-pos (ramp-low depth) in
        let high_end =
          round_half_even_mono (ramp_at p depth) (p.max_speed * span) span span-pos
            (ramp-high depth) in
        (
          omega (arith, e, low_end, round_half_even-mul span 1000 span-pos),
          omega (arith, e, high_end, round_half_even-mul span p.max_speed span-pos),
        )
  ]

  -- With a valid policy a longer queue is never spoken more slowly.
  pub speed_mono : (d d' : ℕ) → d ≤ d' → speed_at p d ≤ speed_at p d'
  speed_mono d d' h = elim (Bool-cases (leb d p.speedup_at_s)) [
    | inl low ↦ omega (arith, speed_at-normal d (leb→le _ _ low), (speed_bounds d').0)
    | inr high ↦
        let above : p.speedup_at_s < d = leb-false→lt _ _ high in
        omega (
          arith,
          speed_at-ramp d above,
          speed_at-ramp d' (omega arith),
          round_half_even_mono (ramp_at p d) (ramp_at p d') span span-pos (ramp_mono d d' h),
        )
  ]

  -- From the skip threshold on the speed is the greatest one.
  pub speed-full : (depth : ℕ) → p.skip_at_s ≤ depth → speed_at p depth ≡ p.max_speed
  speed-full depth h =
      speed_at-ramp depth (omega arith)
      ∙ ap (λ (n : ℕ). round_half_even n span) (ramp-full depth h)
      ∙ round_half_even-mul span p.max_speed span-pos
