-- ===== src/Chunker/Stability/Window.antt =====
-- The window of `StabilityTracker` is bounded, and a final fills it with itself.
use lad_translate.Common.{
  length, length-append, drop, replicate, length-drop, length-replicate, ℕ, zero, suc, ◌+◌, ◌-◌,
  ◌≤◌, ◌<◌, min, ◌≡◌, refl, sym, ap, List, [], ◌∷◌, ◌++◌, append_assoc, append-nil, arith,
}
use lad_translate.Chunker.Stability.{append_times, append_bounded}
use lad_translate.Common.Text.{Text}

length-append_bounded :
    (n : ℕ) (w : List (List Text)) (h : List Text)
    → length (append_bounded n w h) ≡ min n (length w + 1)
unfolding append_bounded
length-append_bounded n w h =
    rw (length-drop (length w + 1 - n) (w ++ h ∷ [])) (omega (arith, length-append {0} w (h ∷ [])))

pub append_bounded-full :
    (n : ℕ) (w : List (List Text)) (h : List Text)
    → 1 ≤ n
    → length w ≤ n
    → length (append_bounded n w h) ≤ n
append_bounded-full n w h p q = omega (arith, length-append_bounded n w h)

-- A window whose last `k` hypotheses are `h`, as many as there are at most.
abbrev pub EndsWith : ℕ → List Text → List (List Text) → Type 0
EndsWith k h w = (v : List (List Text)) × (w ≡ v ++ replicate k h)

append-replicate : (k : ℕ) (h : List Text) → replicate k h ++ h ∷ [] ≡ replicate (suc k) h
append-replicate zero h = refl
append-replicate (suc k) h = ap (λ w. h ∷ w) (append-replicate k h)

drop-append_all : (k : ℕ) (v u : List (List Text)) → length v ≡ k → drop k (v ++ u) ≡ u
drop-append_all zero [] u e = refl
drop-append_all zero (x ∷ v) u e = absurd (omega arith)
drop-append_all (suc k) [] u e = absurd (omega arith)
drop-append_all (suc k) (x ∷ v) u e = drop-append_all k v u (omega arith)

drop-append_some : (k : ℕ) (v u : List (List Text)) → k ≤ length v → drop k (v ++ u) ≡ drop k v ++ u
drop-append_some zero v u l = refl
drop-append_some (suc k) [] u l = elim l [ ]
drop-append_some (suc k) (x ∷ v) u l = drop-append_some k v u (omega arith)

-- One more append of `h` makes the run of `h` at the end longer, while it is not the whole window.
append_bounded-EndsWith :
    (n k : ℕ) (h : List Text) (w : List (List Text))
    → k < n
    → length w ≤ n
    → EndsWith k h w
    → EndsWith (suc k) h (append_bounded n w h)
unfolding append_bounded
append_bounded-EndsWith n k h w l fits (v, e) = (
  drop (length w + 1 - n) v,
  rw e (
      rw (append_assoc v (replicate k h) (h ∷ []), append-replicate k h)
        (drop-append_some (length (v ++ replicate k h) + 1 - n) v (replicate (suc k) h) (
          omega (
            arith,
            ap (λ (s : List (List Text)). length s) e,
            length-append {0} v (replicate k h),
            length-replicate {0} k h,
          )))),
)

append_times-EndsWith :
    (n j k : ℕ) (h : List Text) (w : List (List Text))
    → 1 ≤ n
    → k + j ≤ n
    → length w ≤ n
    → EndsWith k h w
    → EndsWith (k + j) h (append_times n j w h) × (length (append_times n j w h) ≤ n)
unfolding append_times
append_times-EndsWith n zero k h w p l fits e =
    let same : k + 0 ≡ k = omega arith in (rw same e, fits)
append_times-EndsWith n (suc j) k h w p l fits e =
    let same : k + suc j ≡ suc k + j = omega arith in
    rw same (
      append_times-EndsWith n j (suc k) h (append_bounded n w h) p (omega arith)
        (append_bounded-full n w h p fits) (append_bounded-EndsWith n k h w (omega arith) fits e))

-- `n` appends of a hypothesis leave `n` copies of it and nothing else.
pub append_times-replicate :
    (n : ℕ) (h : List Text) (w : List (List Text))
    → 1 ≤ n
    → length w ≤ n
    → append_times n n w h ≡ replicate n h
append_times-replicate n h w p fits =
    let ((v, e), short) =
      append_times-EndsWith n n 0 h w p (omega arith) fits (w, sym (append-nil w)) in
    no_more v e short
  where
    no_more :
        (v : List (List Text))
        → append_times n n w h ≡ v ++ replicate (0 + n) h
        → length (append_times n n w h) ≤ n
        → append_times n n w h ≡ replicate n h
    no_more [] e short = let same : 0 + n ≡ n = omega arith in rw same at e
    no_more (x ∷ v) e short = absurd (
        omega (
          arith,
          ap (λ (s : List (List Text)). length s) e,
          length-append {0} v (replicate (0 + n) h),
          length-replicate {0} (0 + n) h,
          short,
        ))
