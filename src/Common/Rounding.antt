-- ===== src/Common/Rounding.antt =====
-- `round(n / d)` as Python does it: to the nearest whole number, and a half to the even one.
use Prim.Native.Nat.{ℕ, ◌+◌, ◌*◌, ◌/◌, ◌%◌, ◌≤◌, ◌<◌}
use native.Mathlib.Nat.{div-add-mod, mod-lt, mul-div_cancel, mul-mod_left}
use mathlib.Core.Path.{◌≡◌}
use native.Mathlib.Omega.{arith}
use mathlib.Core.Logic.{inl, inr, ◌≢◌}
use mathlib.Core.Bool.{false}
use lad_translate.Common.Tests.{ltb-false→le, ==_iff, ltb→lt, Bool-cases, ltb, ◌==◌, if◌then◌else◌}

abbrev half_even : ℕ → ℕ → ℕ → ℕ
half_even q r d =
    if ltb (2 * r) d then q else if ltb d (2 * r) then q + 1 else if q % 2 == 0 then q else q + 1

unfoldable pub round_half_even : ℕ → ℕ → ℕ
round_half_even n d = half_even (n / d) (n % d) d

-- The result is at most a half away.
pub round_half_even_near :
    (n d : ℕ)
    → 1 ≤ d
    → (2 * (round_half_even n d * d) ≤ 2 * n + d) × (2 * n ≤ 2 * (round_half_even n d * d) + d)
unfolding round_half_even
round_half_even_near n d pos = grind (arith, div-add-mod n d)

half_even_bounds : (q r d : ℕ) → (q ≤ half_even q r d) × (half_even q r d ≤ q + 1)
half_even_bounds q r d = ground arith

-- The whole part of a larger fraction is no smaller.
whole_mono : (q r q' r' d : ℕ) → r' < d → d * q + r ≤ d * q' + r' → q ≤ q'
whole_mono q r q' r' d small h = elim (Bool-cases (ltb q' q)) [
  | inl more ↦ absurd (product (ltb→lt _ _ more))
  | inr fine ↦ ltb-false→le _ _ fine
]
  where
    product : q' < q → ⊥
    product more = let wide : d * (q' + 1) ≤ d * q = grind arith in omega arith

half_even_mono :
    (q r q' r' d : ℕ) → r' < d → d * q + r ≤ d * q' + r' → half_even q r d ≤ half_even q' r' d
half_even_mono q r q' r' d small h = elim (Bool-cases (q == q')) [
  | inl e ↦ let same : q ≡ q' = (==_iff q q').0 e in rw same (same_whole q' (rw same at h))
  | inr ne ↦
      let below : q ≤ q' = whole_mono q r q' r' d small h in
      omega (arith, half_even_bounds q r d, half_even_bounds q' r' d, apart ne)
]
  where
    same_whole : (p : ℕ) → d * p + r ≤ d * p + r' → half_even p r d ≤ half_even p r' d
    same_whole p l = let below : r ≤ r' = omega arith in ground arith

    apart : (q == q') ≡ false → q ≢ q'
    apart ne = ground arith

-- Rounding keeps the order.
pub round_half_even_mono :
    (n n' d : ℕ) → 1 ≤ d → n ≤ n' → round_half_even n d ≤ round_half_even n' d
unfolding round_half_even
round_half_even_mono n n' d pos h =
    half_even_mono (n / d) (n % d) (n' / d) (n' % d) d (mod-lt n' pos)
      (omega (arith, div-add-mod n d, div-add-mod n' d))

-- A whole number stays what it is.
pub round_half_even-mul : (d m : ℕ) → 1 ≤ d → round_half_even (m * d) d ≡ m
unfolding round_half_even
round_half_even-mul d m pos =
    let whole : m * d / d ≡ m = mul-div_cancel m pos in
    let rest : m * d % d ≡ 0 = mul-mod_left m d in rw (whole, rest) (ground arith)

-- What is at most `m` rounds to at most `m`.
pub round_half_even-le : (n d m : ℕ) → 1 ≤ d → n ≤ m * d → round_half_even n d ≤ m
round_half_even-le n d m pos h =
    omega (arith, round_half_even_mono n (m * d) d pos h, round_half_even-mul d m pos)
