-- ===== src/Obs/Stats/Figures.antt =====
-- The figures of a language in order.
use lad_translate.Common.{
  if◌then◌else◌, ltb→lt, lt→ltb, ltb-false→le, Bool-cases, All, ℕ, ◌+◌, ◌≤◌, ◌≡◌, inl, inr, true,
  List, [], ◌∷◌, arith,
}
use lad_translate.Common.Int.{ℤ, negsuc, neg_part, ltb_ℤ, ◌≤ℤ◌}
use lad_translate.Common.Text.{Text}
use lad_translate.Common.Dict.{text_key}
use lad_translate.Obs.Percentile.{percentile}
use lad_translate.Obs.Percentile.Range.{Between, percentile-Between}
use lad_translate.Obs.Percentile.Order.{percentile-le}
use lad_translate.Obs.Latency.{LatencyRecorder, samples_of}
use lad_translate.Obs.Stats.{greatest, worst_of, stats, breached}

abbrev larger : ℤ → ℤ → ℤ
larger x y = if ltb_ℤ x y then y else x

larger_bounds : (x y : ℤ) → (x ≤ℤ larger x y) × (y ≤ℤ larger x y)
larger_bounds x y = elim (Bool-cases (ltb_ℤ x y)) [
  | inl q ↦ rw q (omega (arith, ltb→lt _ _ q), omega arith)
  | inr q ↦ rw q (omega arith, omega (arith, ltb-false→le _ _ q))
]

greatest_bounds : (x : ℤ) (xs : List ℤ) → (x ≤ℤ greatest x xs) × All (λ y. y ≤ℤ greatest x xs) xs
unfolding greatest
greatest_bounds x [] = (omega arith, tt)
greatest_bounds x (y ∷ ys) =
    let h = greatest_bounds (larger x y) ys in
    let l = larger_bounds x y in (omega (arith, h.0, l.0), (omega (arith, h.0, l.1), h.1))

worst_bounds : (xs : List ℤ) → All (λ y. y ≤ℤ worst_of xs) xs
unfolding worst_of
worst_bounds [] = tt
worst_bounds (x ∷ xs) = greatest_bounds x xs

-- The samples are bounded below.
abbrev depth : List ℤ → ℕ
depth [] = 0
depth (x ∷ xs) = neg_part x + depth xs

bounded :
    (xs : List ℤ) (k : ℕ) (high : ℤ)
    → depth xs ≤ k
    → All (λ y. y ≤ℤ high) xs
    → All (λ y. Between (negsuc k) high y) xs
bounded [] k high h a = tt
bounded (x ∷ xs) k high h a = ((omega (arith, h), a.0), bounded xs k high (omega (arith, h)) a.1)

percentile-worst : (xs : List ℤ) (p : ℕ) → p ≤ 100 → percentile xs p ≤ℤ worst_of xs
unfolding percentile worst_of
percentile-worst [] p h = omega arith
percentile-worst (x ∷ xs) p h =
    (percentile-Between (x ∷ xs) p (negsuc (depth (x ∷ xs))) (worst_of (x ∷ xs)) (omega arith) h (
      bounded (x ∷ xs) (depth (x ∷ xs)) (worst_of (x ∷ xs)) (omega arith)
        (worst_bounds (x ∷ xs)))).1

-- The figures of a language are in order: the median, the 95th and the 99th percentile and the worst
-- value, which no sample exceeds; and a language that breaches a bound has a worst value above it.
pub stats-ordered :
    (r : LatencyRecorder) (language : Text) (slo : ℤ)
    → let s = (stats r language).0 in
      (s.p50 ≤ℤ s.p95)
      × (s.p95 ≤ℤ s.p99)
      × (s.p99 ≤ℤ s.worst)
      × All (λ x. x ≤ℤ s.worst) (samples_of language r.g2g)
      × (breached s slo ≡ true → ltb_ℤ slo s.worst ≡ true)
unfolding stats breached
stats-ordered r language slo =
    let xs : List ℤ = samples_of language r.g2g in
    let a = percentile-le xs 50 95 (omega arith) (omega arith) in
    let b = percentile-le xs 95 99 (omega arith) (omega arith) in
    let c = percentile-worst xs 99 (omega arith) in
    let d = percentile-worst xs 95 (omega arith) in
    (a, b, c, worst_bounds xs, λ h. lt→ltb _ _ (omega (arith, d, ltb→lt _ _ h)))
