-- ===== src/Obs/Percentile/Range.antt =====
-- A percentile lies between the least and the greatest of the values.
use lad_translate.Common.{
  ◌==◌, leb→le, leb-false→lt, Bool-cases, length, get_or, All, All-map, ℕ, zero, suc, ◌+◌, ◌-◌, ◌*◌,
  ◌/◌, ◌%◌, ◌≤◌, ◌<◌, min, ◌≡◌, refl, ap, ◌∙◌, inl, inr, false, List, [], ◌∷◌, arith,
}
use lad_translate.Common.Int.{ℤ, pos, pos_part, neg_part, ◌≤ℤ◌, ◌+ℤ◌, ◌-ℤ◌, +ℤ_parts, leb_ℤ}
use native.Mathlib.Nat.{div-le_of_le-mul, mul-le-mul_left, le_of_lt, mul_comm}
use lad_translate.Obs.Percentile.{insert_sorted, sorted, percentile}

-- Each value is at most every later one.
abbrev pub IsSorted : List ℤ → Type 0
IsSorted [] = Unit
IsSorted (x ∷ xs) = All (λ y. x ≤ℤ y) xs × IsSorted xs

abbrev pub Between : ℤ → ℤ → ℤ → Type 0
Between low high x = (low ≤ℤ x) × (x ≤ℤ high)

All-insert_sorted :
    (P : ℤ → Type 0) (x : ℤ) (xs : List ℤ) → P x → All P xs → All P (insert_sorted x xs)
All-insert_sorted P x [] h k = (h, tt)
All-insert_sorted P x (y ∷ ys) h k = elim (Bool-cases (leb_ℤ x y)) [
  | inl q ↦ rw q (h, k)
  | inr q ↦ rw q (k.0, All-insert_sorted P x ys h k.1)
]

All-sorted : (P : ℤ → Type 0) (xs : List ℤ) → All P xs → All P (sorted xs)
unfolding sorted
All-sorted P [] h = tt
All-sorted P (x ∷ xs) h = All-insert_sorted P x (sorted xs) h.0 (All-sorted P xs h.1)

insert_sorted-IsSorted : (x : ℤ) (xs : List ℤ) → IsSorted xs → IsSorted (insert_sorted x xs)
insert_sorted-IsSorted x [] h = (tt, tt)
insert_sorted-IsSorted x (y ∷ ys) h = elim (Bool-cases (leb_ℤ x y)) [
  | inl q ↦ rw q ((leb→le _ _ q, All-map ys (λ z k. omega (arith, k, leb→le _ _ q)) h.0), h)
  | inr q ↦ rw q (
    All-insert_sorted (λ z. y ≤ℤ z) x ys (omega (arith, leb-false→lt _ _ q)) h.0,
    insert_sorted-IsSorted x ys h.1,
  )
]

pub sorted-IsSorted : (xs : List ℤ) → IsSorted (sorted xs)
unfolding sorted
sorted-IsSorted [] = tt
sorted-IsSorted (x ∷ xs) = insert_sorted-IsSorted x (sorted xs) (sorted-IsSorted xs)

length-insert_sorted : (x : ℤ) (xs : List ℤ) → length (insert_sorted x xs) ≡ suc (length xs)
length-insert_sorted x [] = refl
length-insert_sorted x (y ∷ ys) = ground (arith, length-insert_sorted x ys)

pub length-sorted : (xs : List ℤ) → length (sorted xs) ≡ length xs
unfolding sorted
length-sorted [] = refl
length-sorted (x ∷ xs) = length-insert_sorted x (sorted xs) ∙ ap (λ n. suc n) (length-sorted xs)

All-get_or :
    (P : ℤ → Type 0) (xs : List ℤ) (i : ℕ) → All P xs → i < length xs → P (get_or xs i (pos 0))
All-get_or P [] i h l = elim l [ ]
All-get_or P (x ∷ xs) zero h l = h.0
All-get_or P (x ∷ xs) (suc i) h l = All-get_or P xs i h.1 (omega arith)

pub get_or-mono :
    (xs : List ℤ) (i j : ℕ)
    → IsSorted xs
    → i ≤ j
    → j < length xs
    → get_or xs i (pos 0) ≤ℤ get_or xs j (pos 0)
get_or-mono [] i j h l k = elim k [ ]
get_or-mono (x ∷ xs) zero zero h l k = omega arith
get_or-mono (x ∷ xs) zero (suc j) h l k = All-get_or (λ y. x ≤ℤ y) xs j h.0 (omega arith)
get_or-mono (x ∷ xs) (suc i) zero h l k = elim l [ ]
get_or-mono (x ∷ xs) (suc i) (suc j) h l k = get_or-mono xs i j h.1 (omega arith) (omega arith)

gap_parts :
    (lo hi : ℤ)
    → lo ≤ℤ hi
    → pos_part (hi -ℤ lo) + pos_part lo + neg_part hi ≡ pos_part hi + neg_part lo
unfolding ◌-ℤ◌
gap_parts lo hi h = ground (arith, h)

pub interpolate :
    (lo hi : ℤ) (r : ℕ)
    → lo ≤ℤ hi
    → r < 100
    → Between lo hi (lo +ℤ pos (pos_part (hi -ℤ lo) * r / 100))
interpolate lo hi r h l = (
  omega (arith, +ℤ_parts lo (pos part)),
  omega (arith, +ℤ_parts lo (pos part), gap_parts lo hi h, bound),
)
  where
    gap : ℕ
    gap = pos_part (hi -ℤ lo)

    part : ℕ
    part = gap * r / 100

    bound : part ≤ gap
    bound = div-le_of_le-mul 100 (omega (arith, mul-le-mul_left gap (le_of_lt l), mul_comm 100 gap))

-- For values that lie between two bounds, and at least one value, a percentile from 0 to 100 lies
-- between them too.
pub percentile-Between :
    (values : List ℤ) (pct : ℕ) (low high : ℤ)
    → 0 < length values
    → pct ≤ 100
    → All (λ x. Between low high x) values
    → Between low high (percentile values pct)
unfolding percentile
percentile-Between values pct low high h p k =
    let nonempty : (length values == 0) ≡ false = ground (arith, h) in
    let ordered : List ℤ = sorted values in
    let n : ℕ = length ordered in
    let q : n ≡ length values = length-sorted values in
    let i : ℕ = (n - 1) * pct / 100 in
    let j : ℕ = min (i + 1) (n - 1) in
    let all : All (λ x. Between low high x) ordered =
      All-sorted (λ x. Between low high x) values k in
    let lo : ℤ = get_or ordered i (pos 0) in
    let hi : ℤ = get_or ordered j (pos 0) in
    let inside : i ≤ n - 1 =
      div-le_of_le-mul 100 (omega (arith, mul-le-mul_left (n - 1) p, mul_comm 100 (n - 1))) in
    let a : Between low high lo =
      All-get_or (λ x. Between low high x) ordered i all (omega (arith, h, q, inside)) in
    let b : Between low high hi =
      All-get_or (λ x. Between low high x) ordered j all (omega (arith, h, q, inside)) in
    let m : lo ≤ℤ hi =
      get_or-mono ordered i j (sorted-IsSorted values) (omega (arith, inside))
        (omega (arith, h, q, inside)) in
    let c : Between lo hi (lo +ℤ pos (pos_part (hi -ℤ lo) * ((n - 1) * pct % 100) / 100)) =
      interpolate lo hi ((n - 1) * pct % 100) m (omega arith) in
    rw (nonempty, percentile) (omega (arith, a.0, c.0), omega (arith, b.1, c.1))
