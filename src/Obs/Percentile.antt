-- ===== src/Obs/Percentile.antt =====
-- obs/latency.py: `percentile`, with its fraction in hundredths and its result rounded down.
pub mod Range
pub mod Order
use lad_translate.Common.{
  ◌==◌, if◌then◌else◌, length, get_or, ℕ, ◌+◌, ◌-◌, ◌*◌, ◌/◌, ◌%◌, min, List, [], ◌∷◌,
}
use lad_translate.Common.Int.{ℤ, pos, pos_part, ◌+ℤ◌, ◌-ℤ◌, leb_ℤ}
use lad_translate.Common.Dict
use lad_translate.Common.Dict.{Dict}

-- `sorted(values)`
abbrev insert_sorted : ℤ → List ℤ → List ℤ
insert_sorted x [] = x ∷ []
insert_sorted x (y ∷ ys) = if leb_ℤ x y then x ∷ (y ∷ ys) else y ∷ insert_sorted x ys

unfoldable pub sorted : List ℤ → List ℤ
sorted [] = []
sorted (x ∷ xs) = insert_sorted x (sorted xs)

-- `percentile(values, pct / 100)`, interpolated between two neighbours and rounded down.
unfoldable pub percentile : List ℤ → ℕ → ℤ
unfolding sorted
percentile values pct =
    let ordered = sorted values in
    let k = (length ordered - 1) * pct in
    let lo = get_or ordered (k / 100) (pos 0) in
    let hi = get_or ordered (min (k / 100 + 1) (length ordered - 1)) (pos 0) in
    if length values == 0 then pos 0 else lo +ℤ pos (pos_part (hi -ℤ lo) * (k % 100) / 100)
