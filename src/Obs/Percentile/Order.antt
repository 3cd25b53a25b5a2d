-- ===== src/Obs/Percentile/Order.antt =====
-- A higher percentile of the same values is at least a lower one.
use lad_translate.Common.{
  ◌==◌, Bool-cases, length, get_or, ℕ, ◌+◌, ◌-◌, ◌*◌, ◌/◌, ◌%◌, ◌≤◌, ◌<◌, min, subst, inl, inr,
  List, arith,
}
use lad_translate.Common.Int.{ℤ, pos, pos_part, ◌≤ℤ◌, ◌+ℤ◌, ◌-ℤ◌, +ℤ_parts}
use native.Mathlib.Nat.{div-le_of_le-mul, mul-le-mul_left, mul_comm}
use lad_translate.Obs.Percentile.{sorted, percentile}
use lad_translate.Obs.Percentile.Range.{
  IsSorted, sorted-IsSorted, length-sorted, get_or-mono, Between, interpolate,
}

-- The value at a place in hundredths of a step.
abbrev at : List ℤ → ℕ → ℕ → ℤ
at xs i r =
    get_or xs i (pos 0)
    +ℤ pos (
        pos_part (get_or xs (min (i + 1) (length xs - 1)) (pos 0) -ℤ get_or xs i (pos 0)) * r / 100)

at-mono : (xs : List ℤ) (i r s : ℕ) → r ≤ s → at xs i r ≤ℤ at xs i s
at-mono xs i r s h =
    let lo : ℤ = get_or xs i (pos 0) in
    let gap : ℕ = pos_part (get_or xs (min (i + 1) (length xs - 1)) (pos 0) -ℤ lo) in
    omega (
      arith,
      +ℤ_parts lo (pos (gap * r / 100)),
      +ℤ_parts lo (pos (gap * s / 100)),
      mul-le-mul_left gap h,
    )

at-Between :
    (xs : List ℤ) (i r : ℕ)
    → IsSorted xs
    → i < length xs
    → r < 100
    → Between (get_or xs i (pos 0)) (get_or xs (min (i + 1) (length xs - 1)) (pos 0)) (at xs i r)
at-Between xs i r h l k =
    interpolate (get_or xs i (pos 0)) (get_or xs (min (i + 1) (length xs - 1)) (pos 0)) r
      (get_or-mono xs i (min (i + 1) (length xs - 1)) h (omega arith) (omega arith)) k

at-step :
    (xs : List ℤ) (i j r s : ℕ)
    → IsSorted xs
    → i < j
    → j < length xs
    → r < 100
    → s < 100
    → at xs i r ≤ℤ at xs j s
at-step xs i j r s h l k p q =
    let a = at-Between xs i r h (omega arith) p in
    let b = at-Between xs j s h k q in
    let c : get_or xs (min (i + 1) (length xs - 1)) (pos 0) ≤ℤ get_or xs j (pos 0) =
      get_or-mono xs (min (i + 1) (length xs - 1)) j h (omega arith) k in
    omega (arith, a.1, b.0, c)

at-le :
    (xs : List ℤ) (k m : ℕ)
    → IsSorted xs
    → k ≤ m
    → m / 100 < length xs
    → at xs (k / 100) (k % 100) ≤ℤ at xs (m / 100) (m % 100)
at-le xs k m h l p = elim (Bool-cases (k / 100 == m / 100)) [
  | inl q ↦
      subst (λ i. at xs (k / 100) (k % 100) ≤ℤ at xs i (m % 100)) (ground (arith, q))
        (at-mono xs (k / 100) (k % 100) (m % 100) (ground (arith, q, l)))
  | inr q ↦
      at-step xs (k / 100) (m / 100) (k % 100) (m % 100) h (ground (arith, q, l)) p (omega arith)
        (omega arith)
]

pub percentile-le :
    (values : List ℤ) (p q : ℕ) → p ≤ q → q ≤ 100 → percentile values p ≤ℤ percentile values q
unfolding percentile
percentile-le values p q h l = elim (Bool-cases (length values == 0)) [
  | inl e ↦ rw e (omega arith)
  | inr e ↦
      let n : ℕ = length (sorted values) in
      let inside : (n - 1) * q / 100 ≤ n - 1 =
        div-le_of_le-mul 100 (omega (arith, mul-le-mul_left (n - 1) l, mul_comm 100 (n - 1))) in
      rw e (
        at-le (sorted values) ((n - 1) * p) ((n - 1) * q) (sorted-IsSorted values)
          (mul-le-mul_left (n - 1) h) (ground (arith, e, length-sorted values, inside)))
]
